-- ===== src/Services/Requests.antt =====
-- services/{mod, unit, group, location, simulation}.rs: the unary handlers. The transport
-- (`Request`, `Response`) is only a wrapper and is left out.
use minerva_server.Std.Num.{ℤ}
use minerva_server.Std.Status.{Status, invalid, not_found, unavailable}
use minerva_server.Ids.{GroupId, unit_id, group_id}
use minerva_server.Proto.Side
use minerva_server.Proto.Side.{Side}
use minerva_server.Proto.Units.{
  GetUnitRequest, GetUnitResponse, ListUnitsRequest, ListUnitsResponse,
}
use minerva_server.Proto.Groups.{
  GetGroupRequest, GetGroupResponse, ListGroupsRequest, ListGroupsResponse,
}
use minerva_server.Proto.Simulation.{
  ListLocationsRequest, ListLocationsResponse, GetSimulationInfoResponse,
}
use minerva_server.Cache.Writes.{StateCache}
use minerva_server.Cache.Reads
use minerva_server.Prelude.{Option, none, some, ◌++ₛ◌, Result, ok, err, ◌>>=◌, ok_or}

-- An absent field is no filter; a number that is no side is refused.
unfoldable pub parse_side : Option ℤ → Result (Option Side) Status
parse_side none = ok none
parse_side (some n) = elim (Side.try_from n) [
  | ok side ↦ ok (some side)
  | err _ ↦ err (invalid "invalid side")
]

unfoldable pub get_unit : StateCache → GetUnitRequest → Result GetUnitResponse Status
get_unit c request =
    ok_or (Reads.get_unit c (unit_id request.id))
      (record { code = not_found; message = "unit " ++ₛ request.id ++ₛ " not found" })
    >>= λ unit. ok (record { unit = some unit })

unfoldable pub list_units : StateCache → ListUnitsRequest → Result ListUnitsResponse Status
list_units c request = parse_side request.side >>= λ side.
    let group : Option GroupId = elim request.group_id [
      | none ↦ none
      | some id ↦ some (group_id id)
    ] in
    ok (record { units = Reads.list_units c side group })

unfoldable pub list_groups : StateCache → ListGroupsRequest → Result ListGroupsResponse Status
list_groups c request =
    parse_side request.side >>= λ side. ok (record { groups = Reads.list_groups c side })

unfoldable pub get_group : StateCache → GetGroupRequest → Result GetGroupResponse Status
get_group c request =
    ok_or (Reads.get_group c (group_id request.id))
      (record { code = not_found; message = "group " ++ₛ request.id ++ₛ " not found" })
    >>= λ group. ok (record { group = some group })

unfoldable pub list_locations :
    StateCache → ListLocationsRequest → Result ListLocationsResponse Status
list_locations c request =
    parse_side request.side >>= λ side. ok (record { locations = Reads.list_locations c side })

unfoldable pub get_simulation_info : StateCache → Result GetSimulationInfoResponse Status
get_simulation_info c =
    ok_or (Reads.simulation_info c)
      (record { code = unavailable; message = "simulation info not set" })
    >>= λ info. ok (record { info = some info })
