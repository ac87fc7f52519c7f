-- ===== src/Rpc/Paths.antt =====
-- The paths of the clients and of the servers.
use minerva_server.Rpc.Tonic
use minerva_server.Rpc.Tonic.{GrpcMethod}
use minerva_server.Rpc.Ready.{when_ready}
use minerva_server.Rpc.Client.CommandClient
use minerva_server.Rpc.Client.CommandClient.{CommandServiceClient}
use minerva_server.Rpc.Client.UnitClient
use minerva_server.Rpc.Client.UnitClient.{UnitServiceClient}
use minerva_server.Rpc.Client.GroupClient
use minerva_server.Rpc.Client.GroupClient.{GroupServiceClient}
use minerva_server.Rpc.Client.LocationClient
use minerva_server.Rpc.Client.LocationClient.{LocationServiceClient}
use minerva_server.Rpc.Client.SimulationClient
use minerva_server.Rpc.Client.SimulationClient.{SimulationServiceClient}
use minerva_server.Rpc.Server.CommandServer
use minerva_server.Rpc.Server.CommandServer.{CommandService, CommandServiceServer}
use minerva_server.Rpc.Server.UnitServer
use minerva_server.Rpc.Server.UnitServer.{UnitService, UnitServiceServer}
use minerva_server.Rpc.Server.GroupServer
use minerva_server.Rpc.Server.GroupServer.{GroupService, GroupServiceServer}
use minerva_server.Rpc.Server.LocationServer
use minerva_server.Rpc.Server.LocationServer.{LocationService, LocationServiceServer}
use minerva_server.Rpc.Server.SimulationServer
use minerva_server.Rpc.Server.SimulationServer.{SimulationService, SimulationServiceServer}
use minerva_server.Prelude.{◌≡◌, refl, ok, String, ◌++ₛ◌}

abbrev pub path_of : GrpcMethod → String
path_of method = "/" ++ₛ method.service ++ₛ "/" ++ₛ method.method

-- A method on whose path the client sends its requests, marked with the method, and at which the
-- server handles them.
abbrev pub Meets :
    {A B Http Reply : Type 0}
    → (A → B)
    → (A → GrpcMethod → String → B)
    → (String → Http → Reply)
    → (Http → Reply)
    → Type 0
Meets {A} {B} {Http} client sent serve handled =
    (method : GrpcMethod) × ((request : A) → client request ≡ sent request method (path_of method))
    × ((req : Http) → serve (path_of method) req ≡ handled req)

-- For each of the nine methods there is a path, made of the names of the service and of the method,
-- on which a client that is ready sends its requests, marked with those names, and at which the
-- server, configured in any way, runs that method of its service under that configuration.
pub reaches :
    {Stream : Type 0 → Type 0} {T Http Reply : Type 0} (tonic : Tonic.Client Stream)
    (tonic_server : Tonic.Server Stream Http Reply) (to_commands : CommandServiceClient tonic T)
    (to_units : UnitServiceClient tonic T) (to_groups : GroupServiceClient tonic T)
    (to_locations : LocationServiceClient tonic T) (to_simulation : SimulationServiceClient tonic T)
    (commands : CommandServiceServer tonic_server CommandService)
    (units : UnitServiceServer tonic_server UnitService)
    (groups : GroupServiceServer tonic_server (GroupService Stream))
    (locations : LocationServiceServer tonic_server LocationService)
    (simulation : SimulationServiceServer tonic_server (SimulationService Stream))
    → tonic.ready to_commands.inner ≡ ok tt
    → tonic.ready to_units.inner ≡ ok tt
    → tonic.ready to_groups.inner ≡ ok tt
    → tonic.ready to_locations.inner ≡ ok tt
    → tonic.ready to_simulation.inner ≡ ok tt
    → Meets
        (CommandClient.send_command tonic to_commands)
        (λ request method. tonic.unary to_commands.inner (tonic.insert request method))
        (CommandServer.call tonic_server commands)
        (tonic_server.unary (CommandServer.grpc tonic_server commands) commands.inner.send_command)
      × Meets
          (UnitClient.get_unit tonic to_units)
          (λ request method. tonic.unary to_units.inner (tonic.insert request method))
          (UnitServer.call tonic_server units)
          (tonic_server.unary (UnitServer.grpc tonic_server units) units.inner.get_unit)
      × Meets
          (UnitClient.list_units tonic to_units)
          (λ request method. tonic.unary to_units.inner (tonic.insert request method))
          (UnitServer.call tonic_server units)
          (tonic_server.unary (UnitServer.grpc tonic_server units) units.inner.list_units)
      × Meets
          (GroupClient.list_groups tonic to_groups)
          (λ request method. tonic.unary to_groups.inner (tonic.insert request method))
          (GroupServer.call tonic_server groups)
          (tonic_server.unary (GroupServer.grpc tonic_server groups) groups.inner.list_groups)
      × Meets
          (GroupClient.get_group tonic to_groups)
          (λ request method. tonic.unary to_groups.inner (tonic.insert request method))
          (GroupServer.call tonic_server groups)
          (tonic_server.unary (GroupServer.grpc tonic_server groups) groups.inner.get_group)
      × Meets
          (GroupClient.subscribe_group_updates tonic to_groups)
          (λ request method. tonic.server_streaming to_groups.inner (tonic.insert request method))
          (GroupServer.call tonic_server groups)
          (tonic_server.server_streaming
            (GroupServer.grpc tonic_server groups)
            groups.inner.subscribe_group_updates)
      × Meets
          (LocationClient.list_locations tonic to_locations)
          (λ request method. tonic.unary to_locations.inner (tonic.insert request method))
          (LocationServer.call tonic_server locations)
          (tonic_server.unary
            (LocationServer.grpc tonic_server locations)
            locations.inner.list_locations)
      × Meets
          (SimulationClient.get_simulation_info tonic to_simulation)
          (λ request method. tonic.unary to_simulation.inner (tonic.insert request method))
          (SimulationServer.call tonic_server simulation)
          (tonic_server.unary
            (SimulationServer.grpc tonic_server simulation)
            simulation.inner.get_simulation_info)
      × Meets
          (SimulationClient.subscribe_simulation_updates tonic to_simulation)
          (λ request method.
            tonic.server_streaming to_simulation.inner (tonic.insert request method))
          (SimulationServer.call tonic_server simulation)
          (tonic_server.server_streaming
            (SimulationServer.grpc tonic_server simulation)
            simulation.inner.subscribe_simulation_updates)
unfolding when_ready CommandClient.send_command UnitClient.get_unit UnitClient.list_units
    GroupClient.list_groups GroupClient.get_group GroupClient.subscribe_group_updates
    LocationClient.list_locations SimulationClient.get_simulation_info
    SimulationClient.subscribe_simulation_updates CommandServer.call UnitServer.call
    GroupServer.call LocationServer.call SimulationServer.call
reaches tonic tonic_server to_commands to_units to_groups to_locations to_simulation commands units
      groups locations simulation c u g l s =
    (
      (
        (record { service = "minerva.v1.CommandService"; method = "SendCommand" }),
        (λ request. rw c refl),
        (λ req. refl),
      ),
      (
        (record { service = "minerva.v1.UnitService"; method = "GetUnit" }),
        (λ request. rw u refl),
        (λ req. refl),
      ),
      (
        (record { service = "minerva.v1.UnitService"; method = "ListUnits" }),
        (λ request. rw u refl),
        (λ req. refl),
      ),
      (
        (record { service = "minerva.v1.GroupService"; method = "ListGroups" }),
        (λ request. rw g refl),
        (λ req. refl),
      ),
      (
        (record { service = "minerva.v1.GroupService"; method = "GetGroup" }),
        (λ request. rw g refl),
        (λ req. refl),
      ),
      (
        (record { service = "minerva.v1.GroupService"; method = "SubscribeGroupUpdates" }),
        (λ request. rw g refl),
        (λ req. refl),
      ),
      (
        (record { service = "minerva.v1.LocationService"; method = "ListLocations" }),
        (λ request. rw l refl),
        (λ req. refl),
      ),
      (
        (record { service = "minerva.v1.SimulationService"; method = "GetSimulationInfo" }),
        (λ request. rw s refl),
        (λ req. refl),
      ),
      (
        (record {
          service = "minerva.v1.SimulationService";
          method = "SubscribeSimulationUpdates";
        }),
        (λ request. rw s refl),
        (λ req. refl),
      ),
    )
