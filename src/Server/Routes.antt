-- ===== src/Server/Routes.antt =====
-- From the path of a request to its handler, through all five services.
use minerva_server.Proto.Commands.{SendCommandRequest}
use minerva_server.Proto.Simulation.{GetSimulationInfoRequest}
use minerva_server.Cache.Writes.{StateCache}
use minerva_server.Commands.{Command, CommandOutcome}
use minerva_server.Services.Requests
use minerva_server.Services.Orders
use minerva_server.Rpc.Tonic
use minerva_server.Rpc.Server.CommandServer
use minerva_server.Rpc.Server.UnitServer
use minerva_server.Rpc.Server.GroupServer
use minerva_server.Rpc.Server.LocationServer
use minerva_server.Rpc.Server.SimulationServer
use minerva_server.Server.Serve
use minerva_server.Server.Serve.{Tasks, Mounted, mounted}
use minerva_server.Prelude.{
  ◌≡◌, refl, Option, none, some, List, [], ◌∷◌, String, string_eq, ◌++ₛ◌, if◌then◌else◌,
}

-- The first service with the name.
abbrev pub by_name :
    {Http Reply : Type 0} → String → List (Mounted Http Reply) → Option (String → Http → Reply)
by_name name [] = none
by_name name ((other, call) ∷ services) =
    if string_eq other name then some call else by_name name services

-- The methods of the five services.
pub data Method : Type 0 where
  send_command get_unit list_units list_groups get_group : Method
  subscribe_group_updates list_locations get_simulation_info : Method
  subscribe_simulation_updates : Method

abbrev pub service_of : Method → String
service_of send_command = CommandServer.service_name
service_of get_unit = UnitServer.service_name
service_of list_units = UnitServer.service_name
service_of list_groups = GroupServer.service_name
service_of get_group = GroupServer.service_name
service_of subscribe_group_updates = GroupServer.service_name
service_of list_locations = LocationServer.service_name
service_of get_simulation_info = SimulationServer.service_name
service_of subscribe_simulation_updates = SimulationServer.service_name

abbrev pub name_of : Method → String
name_of send_command = "SendCommand"
name_of get_unit = "GetUnit"
name_of list_units = "ListUnits"
name_of list_groups = "ListGroups"
name_of get_group = "GetGroup"
name_of subscribe_group_updates = "SubscribeGroupUpdates"
name_of list_locations = "ListLocations"
name_of get_simulation_info = "GetSimulationInfo"
name_of subscribe_simulation_updates = "SubscribeSimulationUpdates"

abbrev pub path_of : Method → String
path_of m = "/" ++ₛ service_of m ++ₛ "/" ++ₛ name_of m

-- A router that goes by the services' names: below each name, its service answers.
abbrev pub RoutesByName :
    {Http Reply : Type 0}
    → (List (Mounted Http Reply) → String → Http → Reply)
    → List (Mounted Http Reply)
    → Type 0
RoutesByName {Http} {Reply} route services =
    (m : Method) (call : String → Http → Reply)
    → by_name (service_of m) services ≡ some call
    → route services (path_of m) ≡ call (path_of m)

module _ {Stream : Type 0 → Type 0} {Http Reply D : Type 0} (tonic : Tonic.Server Stream Http Reply)
    (tasks : Tasks Stream) (send : D → Command → CommandOutcome × D) (made c : StateCache)
    (d : D) where
  -- tonic's server without encodings and without limits.
  abbrev pub plain : tonic.Grpc
  plain =
      tonic.apply_max_message_size_config
        (tonic.apply_compression_config tonic.new tonic.none_enabled tonic.none_enabled) none none

  -- What the handler of a method makes of a request.
  abbrev pub handle : Method → Http → Reply
  handle send_command =
      tonic.unary plain (λ (request : SendCommandRequest). (Orders.send_command send c request d).0)
  handle get_unit = tonic.unary plain (Requests.get_unit c)
  handle list_units = tonic.unary plain (Requests.list_units c)
  handle list_groups = tonic.unary plain (Requests.list_groups c)
  handle get_group = tonic.unary plain (Requests.get_group c)
  handle subscribe_group_updates =
      tonic.server_streaming plain (Serve.subscribe_group_updates tasks send made c d)
  handle list_locations = tonic.unary plain (Requests.list_locations c)
  handle get_simulation_info =
      tonic.unary plain (λ (request : GetSimulationInfoRequest). Requests.get_simulation_info c)
  handle subscribe_simulation_updates =
      tonic.server_streaming plain (Serve.subscribe_simulation_updates tasks send made c d)

  -- With a router that goes by the services' names, each of the nine methods of the five services
  -- that `serve_on` adds is answered by its own handler, on the one cache and the one dispatcher,
  -- without encodings and without limits.
  pub mounted-handle :
      (route : List (Mounted Http Reply) → String → Http → Reply)
      → RoutesByName route (mounted tonic tasks send made c d)
      → (m : Method) → route (mounted tonic tasks send made c d) (path_of m) ≡ handle m
  unfolding CommandServer.call CommandServer.new CommandServer.from_arc CommandServer.grpc
      UnitServer.call UnitServer.new UnitServer.from_arc UnitServer.grpc GroupServer.call
      GroupServer.new GroupServer.from_arc GroupServer.grpc LocationServer.call LocationServer.new
      LocationServer.from_arc LocationServer.grpc SimulationServer.call SimulationServer.new
      SimulationServer.from_arc SimulationServer.grpc
  mounted-handle route law send_command = law send_command _ refl
  mounted-handle route law get_unit = law get_unit _ refl
  mounted-handle route law list_units = law list_units _ refl
  mounted-handle route law list_groups = law list_groups _ refl
  mounted-handle route law get_group = law get_group _ refl
  mounted-handle route law subscribe_group_updates = law subscribe_group_updates _ refl
  mounted-handle route law list_locations = law list_locations _ refl
  mounted-handle route law get_simulation_info = law get_simulation_info _ refl
  mounted-handle route law subscribe_simulation_updates = law subscribe_simulation_updates _ refl
