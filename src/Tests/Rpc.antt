-- ===== src/Tests/Rpc.antt =====
-- The generated clients and servers applied to the handlers over a small cache.
mod Settings
use minerva_server.Std.Status.{Status, unknown}
use minerva_server.Rpc.Tonic
use minerva_server.Rpc.Tonic.{GrpcMethod}
use minerva_server.Rpc.Client.CommandClient
use minerva_server.Rpc.Client.CommandClient.{CommandServiceClient}
use minerva_server.Rpc.Server.CommandServer
use minerva_server.Rpc.Server.CommandServer.{CommandService, CommandServiceServer}
use minerva_server.Rpc.Client.UnitClient
use minerva_server.Rpc.Client.UnitClient.{UnitServiceClient}
use minerva_server.Rpc.Server.UnitServer
use minerva_server.Rpc.Server.UnitServer.{UnitService, UnitServiceServer}
use minerva_server.Rpc.Client.GroupClient
use minerva_server.Rpc.Client.GroupClient.{GroupServiceClient}
use minerva_server.Rpc.Server.GroupServer
use minerva_server.Rpc.Server.GroupServer.{GroupService, GroupServiceServer}
use minerva_server.Rpc.Client.LocationClient
use minerva_server.Rpc.Client.LocationClient.{LocationServiceClient}
use minerva_server.Rpc.Server.LocationServer
use minerva_server.Rpc.Server.LocationServer.{LocationService, LocationServiceServer}
use minerva_server.Rpc.Client.SimulationClient
use minerva_server.Rpc.Client.SimulationClient.{SimulationServiceClient}
use minerva_server.Rpc.Server.SimulationServer
use minerva_server.Rpc.Server.SimulationServer.{SimulationService, SimulationServiceServer}
use minerva_server.Rpc.Paths.{Meets, reaches}
use minerva_server.Rpc.Settings.{
  Setting, accept_compressed, send_compressed, max_decoding_message_size, build, asked,
}
use minerva_server.Rpc.Settings.Builders
use minerva_server.Rpc.Settings.Servers.{clone-build}
use minerva_server.Services.Requests
use minerva_server.Services.Orders.{send_command}
use minerva_server.Tests.{mission}
use minerva_server.Tests.Orders.{log_order}
use minerva_server.Prelude.{
  ◌≡◌, refl, ◌⊎◌, true, Option, none, some, Result, ok, err, ◌>>=◌, String, string_eq,
  if◌then◌else◌, List, [], ◌∷◌, ◌++◌, ℕ,
}

-- A client of tonic that keeps its settings, marks requests in front, and answers with the path.
abbrev pub framed : Tonic.Client List
framed = record {
  Grpc = λ T. T × List (Setting String);
  Uri = String;
  Encoding = String;
  Request = λ A. List GrpcMethod × A;
  insert = λ request method. (method ∷ request.0, request.1);
  new = λ t. (t, []);
  with_origin = λ t uri. (t, []);
  send_compressed = λ g e. (g.0, g.1 ++ (send_compressed e ∷ []));
  accept_compressed = λ g e. (g.0, g.1 ++ (accept_compressed e ∷ []));
  max_decoding_message_size = λ g n. (g.0, g.1 ++ (max_decoding_message_size n ∷ []));
  max_encoding_message_size = λ g n. (g.0, g.1 ++ (Setting.max_encoding_message_size n ∷ []));
  ready = λ g. ok tt;
  unary = λ g req path. err (record { code = unknown; message = path });
  server_streaming = λ g req path. err (record { code = unknown; message = path });
}

-- A server of tonic that keeps its configuration, and answers with it and the kind of the method.
abbrev Configuration : Type 0
Configuration = (List String × List String) × (Option ℕ × Option ℕ)

abbrev pub counting : Tonic.Server List Unit (String × Configuration)
counting = record {
  Grpc = Configuration;
  Encoding = String;
  Encodings = List String;
  none_enabled = [];
  enable = λ es e. e ∷ es;
  new = (([], []), (none, none));
  apply_compression_config = λ g accepts sends. ((accepts, sends), g.1);
  apply_max_message_size_config = λ g decoding encoding. (g.0, (decoding, encoding));
  unary = λ g handler req. ("unary", g);
  server_streaming = λ g handler req. ("server_streaming", g);
  empty = ("empty", (([], []), (none, none)));
  HeaderName = Unit;
  HeaderValue = Unit;
  insert = λ reply name value. reply;
  grpc_status = tt;
  content_type = tt;
  unimplemented_code = tt;
  grpc_content_type = tt;
}

abbrev pub settings : List (Setting String)
settings =
    accept_compressed "gzip"
    ∷ max_decoding_message_size 100
    ∷ send_compressed "zstd"
    ∷ max_decoding_message_size 200
    ∷ accept_compressed "zstd"
    ∷ []

abbrev pub commands : CommandService
commands = record { send_command = λ request. (send_command log_order mission request []).0 }

abbrev pub units : UnitService
units = record { get_unit = Requests.get_unit mission; list_units = Requests.list_units mission }

abbrev pub groups : GroupService List
groups = record {
  list_groups = Requests.list_groups mission;
  get_group = Requests.get_group mission;
  subscribe_group_updates = λ request. ok [];
}

abbrev pub locations : LocationService
locations = record { list_locations = Requests.list_locations mission }

abbrev pub simulation : SimulationService List
simulation = record {
  get_simulation_info = λ request. Requests.get_simulation_info mission;
  subscribe_simulation_updates = λ request. ok [];
}

abbrev to_commands : CommandServiceClient framed String
to_commands = record { inner = ("channel", settings) }

abbrev commands_server : CommandServiceServer counting CommandService
commands_server =
    build (Builders.set_command counting) (CommandServer.new counting commands) settings

abbrev to_units : UnitServiceClient framed String
to_units = record { inner = ("channel", settings) }

abbrev units_server : UnitServiceServer counting UnitService
units_server = build (Builders.set_unit counting) (UnitServer.new counting units) settings

abbrev to_groups : GroupServiceClient framed String
to_groups = record { inner = ("channel", settings) }

abbrev groups_server : GroupServiceServer counting (GroupService List)
groups_server = build (Builders.set_group counting) (GroupServer.new counting groups) settings

abbrev to_locations : LocationServiceClient framed String
to_locations = record { inner = ("channel", settings) }

abbrev locations_server : LocationServiceServer counting LocationService
locations_server =
    build (Builders.set_location counting) (LocationServer.new counting locations) settings

abbrev to_simulation : SimulationServiceClient framed String
to_simulation = record { inner = ("channel", settings) }

abbrev simulation_server : SimulationServiceServer counting (SimulationService List)
simulation_server =
    build (Builders.set_simulation counting) (SimulationServer.new counting simulation) settings

reaches_example :
    Meets
      (CommandClient.send_command framed to_commands)
      (λ request method. framed.unary to_commands.inner (framed.insert request method))
      (CommandServer.call counting commands_server)
      (counting.unary
        (CommandServer.grpc counting commands_server)
        commands_server.inner.send_command)
    × Meets
        (UnitClient.get_unit framed to_units)
        (λ request method. framed.unary to_units.inner (framed.insert request method))
        (UnitServer.call counting units_server)
        (counting.unary (UnitServer.grpc counting units_server) units_server.inner.get_unit)
    × Meets
        (UnitClient.list_units framed to_units)
        (λ request method. framed.unary to_units.inner (framed.insert request method))
        (UnitServer.call counting units_server)
        (counting.unary (UnitServer.grpc counting units_server) units_server.inner.list_units)
    × Meets
        (GroupClient.list_groups framed to_groups)
        (λ request method. framed.unary to_groups.inner (framed.insert request method))
        (GroupServer.call counting groups_server)
        (counting.unary (GroupServer.grpc counting groups_server) groups_server.inner.list_groups)
    × Meets
        (GroupClient.get_group framed to_groups)
        (λ request method. framed.unary to_groups.inner (framed.insert request method))
        (GroupServer.call counting groups_server)
        (counting.unary (GroupServer.grpc counting groups_server) groups_server.inner.get_group)
    × Meets
        (GroupClient.subscribe_group_updates framed to_groups)
        (λ request method. framed.server_streaming to_groups.inner (framed.insert request method))
        (GroupServer.call counting groups_server)
        (counting.server_streaming
          (GroupServer.grpc counting groups_server)
          groups_server.inner.subscribe_group_updates)
    × Meets
        (LocationClient.list_locations framed to_locations)
        (λ request method. framed.unary to_locations.inner (framed.insert request method))
        (LocationServer.call counting locations_server)
        (counting.unary
          (LocationServer.grpc counting locations_server)
          locations_server.inner.list_locations)
    × Meets
        (SimulationClient.get_simulation_info framed to_simulation)
        (λ request method. framed.unary to_simulation.inner (framed.insert request method))
        (SimulationServer.call counting simulation_server)
        (counting.unary
          (SimulationServer.grpc counting simulation_server)
          simulation_server.inner.get_simulation_info)
    × Meets
        (SimulationClient.subscribe_simulation_updates framed to_simulation)
        (λ request method.
          framed.server_streaming to_simulation.inner (framed.insert request method))
        (SimulationServer.call counting simulation_server)
        (counting.server_streaming
          (SimulationServer.grpc counting simulation_server)
          simulation_server.inner.subscribe_simulation_updates)
reaches_example =
    reaches framed counting to_commands to_units to_groups to_locations to_simulation
      commands_server units_server groups_server locations_server simulation_server refl refl refl
      refl refl
