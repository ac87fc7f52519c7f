-- ===== src/Cache/Writes.antt =====
-- The writes of `StateCache`. Each runs under the write lock, so it is one step; the two senders
-- are the logs of what has been sent to them, oldest first.
use minerva_server.Std.PartialEq.{◌==◌, option_partial_eq}
use minerva_server.Std.Num.{int_eq}
use minerva_server.Std.HashMap
use minerva_server.Ids.{UnitId, GroupId, unit_id, group_id, unit_id_key, group_id_key}
use minerva_server.Proto.Units.{ProtoUnit}
use minerva_server.Proto.Groups.{
  Group, upserted, removed_id, SubscribeGroupUpdatesResponse, group_partial_eq,
}
use minerva_server.Proto.Simulation.{SubscribeSimulationUpdatesResponse}
use minerva_server.Cache.Inner.{
  Inner, default, next_sequence, joined_group, unlink_member, link_member,
}
use minerva_server.Prelude.{ℕ, ite, Option, none, some, List, [], ◌∷◌, ◌++◌, String, if◌then◌else◌}

pub record GroupEvent : Type 0 where
  pub sequence : ℕ
  pub response : SubscribeGroupUpdatesResponse

pub record SimulationEvent : Type 0 where
  pub sequence : ℕ
  pub response : SubscribeSimulationUpdatesResponse

pub record StateCache : Type 0 where
  pub inner : Inner
  pub simulation_updates : List SimulationEvent
  pub group_updates : List GroupEvent

-- `StateCache::new()`.
abbrev pub new : StateCache
new = record { inner = default; simulation_updates = []; group_updates = [] }

unfoldable pub group_upserted : Group → SubscribeGroupUpdatesResponse
group_upserted group = record { event = some (upserted group) }

unfoldable pub group_removed : String → SubscribeGroupUpdatesResponse
group_removed id = record { event = some (removed_id id) }

-- A `GroupEvent` with the next sequence number is built and sent.
unfoldable pub send_group_event : StateCache → SubscribeGroupUpdatesResponse → StateCache
send_group_event c response =
    let (inner, sequence) = next_sequence c.inner in
    record c {
      inner = inner;
      group_updates = c.group_updates ++ record { sequence = sequence; response = response } ∷ [];
    }

unfoldable pub send_simulation_event : StateCache → SubscribeSimulationUpdatesResponse → StateCache
send_simulation_event c response =
    let (inner, sequence) = next_sequence c.inner in
    record c {
      inner = inner;
      simulation_updates =
          c.simulation_updates ++ record { sequence = sequence; response = response } ∷ [];
    }

unfoldable pub changed_response : Option Group → GroupId → SubscribeGroupUpdatesResponse
changed_response none id = group_removed id.as_str
changed_response (some group) id = group_upserted group

unfoldable pub emit_if_changed : StateCache → GroupId → Option Group → StateCache
emit_if_changed c id before =
    let after = joined_group c.inner id in
    if after == before then c else send_group_event c (changed_response after id)

unfoldable pub replace_group_fields : StateCache → GroupId → Group → StateCache
replace_group_fields c id group =
    let replaced = record c {
      inner = record c.inner { groups = HashMap.insert c.inner.groups id group };
    } in
    elim (HashMap.get c.inner.groups id) [
      | none ↦ replaced
      | some existing ↦
          if int_eq existing.side group.side
          then replaced
          else send_group_event replaced (group_removed group.id)
    ]

-- The mutation of `upsert_unit`: out of the old group if that is another one, into the new.
unfoldable pub detach : Inner → Option GroupId → UnitId → Inner
detach inner none id = inner
detach inner (some old) id = unlink_member inner old id

unfoldable pub move_unit : Inner → Option GroupId → ProtoUnit → Inner
move_unit inner leaving unit =
    let id = unit_id unit.id in
    let linked = link_member (detach inner leaving id) (group_id unit.group_id) id in
    record linked { units = HashMap.insert linked.units id unit }

-- The group that a write takes the unit away from: the cached one, if it is not `group`.
unfoldable pub group_left : Inner → UnitId → GroupId → Option GroupId
group_left inner id group = elim (HashMap.get inner.units id) [
  | none ↦ none
  | some existing ↦
      ite (group_id_key.same (group_id existing.group_id) group) none
        (some (group_id existing.group_id))
]

-- The second broadcast of `upsert_unit`; `earlier` is the state that the write began with.
unfoldable pub emit_left : StateCache → Option GroupId → Inner → StateCache
emit_left c none earlier = c
emit_left c (some old) earlier = emit_if_changed c old (joined_group earlier old)

unfoldable pub upsert_unit : StateCache → ProtoUnit → StateCache
upsert_unit c unit =
    let new_group = group_id unit.group_id in
    let leaving = group_left c.inner (unit_id unit.id) new_group in
    let moved = record c { inner = move_unit c.inner leaving unit } in
    emit_left (emit_if_changed moved new_group (joined_group c.inner new_group)) leaving c.inner

unfoldable pub remove_unit : StateCache → UnitId → StateCache × Option ProtoUnit
remove_unit c id = elim (HashMap.get c.inner.units id) [
  | none ↦ (record c { inner = record c.inner { units = HashMap.remove c.inner.units id } }, none)
  | some unit ↦
      let group = group_id unit.group_id in
      let removed = record c.inner { units = HashMap.remove c.inner.units id } in
      (
        emit_if_changed (record c { inner = unlink_member removed group id }) group
            (joined_group c.inner group),
        some unit,
      )
]

unfoldable pub upsert_group : StateCache → Group → StateCache
upsert_group c group =
    let bare = record group { units = [] } in
    let id = group_id group.id in
    emit_if_changed (replace_group_fields c id bare) id (joined_group c.inner id)
