-- ===== src/Tests/Routes.antt =====
-- The services of a small mission, behind a router.
use minerva_server.Cache.Writes.{StateCache}
use minerva_server.Cache.Writes
use minerva_server.Rpc.Tonic
use minerva_server.Server.Serve.{Tasks, Mounted, mounted}
use minerva_server.Server.Routes.{
  Method, by_name, path_of, service_of, RoutesByName, handle, mounted-handle,
}
use minerva_server.Tests.{mission}
use minerva_server.Tests.Orders.{log_order}
use minerva_server.Prelude.{
  ◌≡◌, ap, Option, none, some, List, [], ◌∷◌, String, string_eq, if◌then◌else◌,
}

-- A server that only says which kind of method it ran.
abbrev naming : Tonic.Server List String String
naming = record {
  Grpc = Unit;
  Encoding = Unit;
  Encodings = Unit;
  none_enabled = tt;
  enable = λ es e. es;
  new = tt;
  apply_compression_config = λ g accepts sends. g;
  apply_max_message_size_config = λ g decoding encoding. g;
  unary = λ g handler req. "unary";
  server_streaming = λ g handler req. "server_streaming";
  empty = "unimplemented";
  HeaderName = Unit;
  HeaderValue = Unit;
  insert = λ reply name value. reply;
  grpc_status = tt;
  content_type = tt;
  unimplemented_code = tt;
  grpc_content_type = tt;
}

-- Tasks that send nothing.
abbrev silent : Tasks List
silent = record {
  groups = λ snapshot snapshot_sequence side updates. [];
  simulation = λ snapshot snapshot_sequence updates. [];
}

abbrev all_methods : List Method
all_methods =
    Method.send_command ∷ Method.get_unit ∷ Method.list_units ∷ Method.list_groups
    ∷ Method.get_group ∷ Method.subscribe_group_updates ∷ Method.list_locations
    ∷ Method.get_simulation_info ∷ Method.subscribe_simulation_updates ∷ []

abbrev answered_by : Option (String → String → String) → String → String → String
answered_by none path = λ req. "not found"
answered_by (some call) path = call path

-- A router for the paths of the methods.
abbrev route_among : List Method → List (Mounted String String) → String → String → String
route_among [] services path = λ req. "not found"
route_among (m ∷ ms) services path =
    if string_eq path (path_of m)
    then answered_by (by_name (service_of m) services) path
    else route_among ms services path

-- Receivers are made before the mission.
abbrev early : StateCache
early = Writes.new

abbrev services : List (Mounted String String)
services = mounted naming silent log_order early mission []

route_all : RoutesByName (route_among all_methods) services
route_all Method.send_command call e = ap (λ o. answered_by o (path_of Method.send_command)) e
route_all Method.get_unit call e = ap (λ o. answered_by o (path_of Method.get_unit)) e
route_all Method.list_units call e = ap (λ o. answered_by o (path_of Method.list_units)) e
route_all Method.list_groups call e = ap (λ o. answered_by o (path_of Method.list_groups)) e
route_all Method.get_group call e = ap (λ o. answered_by o (path_of Method.get_group)) e
route_all Method.subscribe_group_updates call e =
    ap (λ o. answered_by o (path_of Method.subscribe_group_updates)) e
route_all Method.list_locations call e = ap (λ o. answered_by o (path_of Method.list_locations)) e
route_all Method.get_simulation_info call e =
    ap (λ o. answered_by o (path_of Method.get_simulation_info)) e
route_all Method.subscribe_simulation_updates call e =
    ap (λ o. answered_by o (path_of Method.subscribe_simulation_updates)) e

mounted-handle_example :
    route_among all_methods services (path_of Method.get_unit)
    ≡ handle naming silent log_order early mission [] Method.get_unit
mounted-handle_example =
    mounted-handle naming silent log_order early mission [] (route_among all_methods) route_all
      Method.get_unit
