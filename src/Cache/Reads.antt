-- ===== src/Cache/Reads.antt =====
-- The reads of `StateCache` and its subscriptions.
use minerva_server.Std.HashMap
use minerva_server.Ids.{UnitId, GroupId, group_id, unit_id_key, group_id_key}
use minerva_server.Proto.Side.{Side, has_side}
use minerva_server.Proto.Units.{ProtoUnit}
use minerva_server.Proto.Groups.{Group}
use minerva_server.Proto.Simulation.{Location, SimulationInfo, SimulationStateUpdate}
use minerva_server.Cache.Inner.{Inner, member_units, joined_group}
use minerva_server.Cache.Writes.{StateCache}
use minerva_server.Prelude.{
  ℕ, Bool, false, Option, none, some, List, map, filter, is_none_or, length, string_eq,
}

unfoldable pub get_unit : StateCache → UnitId → Option ProtoUnit
get_unit c id = HashMap.get c.inner.units id

-- `Self::unit_side(&inner, unit) == Some(side)`.
unfoldable pub unit_has_side : Inner → ProtoUnit → Side → Bool
unit_has_side inner unit side = elim (HashMap.get inner.groups (group_id unit.group_id)) [
  | none ↦ false
  | some group ↦ has_side group.side side
]

unfoldable pub list_units : StateCache → Option Side → Option GroupId → List ProtoUnit
list_units c side group =
    filter (λ u. is_none_or side (unit_has_side c.inner u))
      (filter (λ u. is_none_or group (λ id. string_eq u.group_id id.as_str))
        (HashMap.values c.inner.units))

unfoldable pub get_group : StateCache → GroupId → Option Group
get_group c id = joined_group c.inner id

unfoldable pub list_groups : StateCache → Option Side → List Group
list_groups c side =
    map (λ e. record e.1 { units = member_units c.inner e.0 })
      (filter (λ e. is_none_or side (has_side (e.1).side)) c.inner.groups)

unfoldable pub simulation_info : StateCache → Option SimulationInfo
simulation_info c = c.inner.simulation_info

unfoldable pub simulation_state : StateCache → Option SimulationStateUpdate
simulation_state c = c.inner.simulation_state

unfoldable pub list_locations : StateCache → Option Side → List Location
list_locations c side = filter (λ l. is_none_or side (has_side l.owner)) c.inner.locations

-- A receiver made now sees what is sent from now on: it is the number of messages sent before.
unfoldable pub subscribe_groups : StateCache → ℕ
subscribe_groups c = length c.group_updates

unfoldable pub subscribe_simulation : StateCache → ℕ
subscribe_simulation c = length c.simulation_updates

-- The snapshot, its sequence number and the receiver. The receiver is made without the lock, when the
-- cache is `made`, and the snapshot is read later, when it is `c`.
unfoldable pub subscribe_group_updates : StateCache → StateCache → Option Side → List Group × ℕ × ℕ
subscribe_group_updates made c side =
    let receiver = subscribe_groups made in (list_groups c side, c.inner.sequence, receiver)

unfoldable pub subscribe_simulation_updates :
    StateCache → StateCache → Option SimulationStateUpdate × ℕ × ℕ
subscribe_simulation_updates made c =
    let receiver = subscribe_simulation made in
    (c.inner.simulation_state, c.inner.sequence, receiver)
