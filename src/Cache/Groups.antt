-- ===== src/Cache/Groups.antt =====
-- The writes of `StateCache` that replace or remove a whole group.
use minerva_server.Std.HashMap
use minerva_server.Std.HashMap.{HashMap}
use minerva_server.Std.BTreeSet
use minerva_server.Std.BTreeSet.{BTreeSet}
use minerva_server.Ids.{UnitId, GroupId, unit_id, group_id, unit_id_key, group_id_key}
use minerva_server.Proto.Units.{ProtoUnit}
use minerva_server.Proto.Groups.{Group}
use minerva_server.Cache.Inner.{Inner, member_ids, joined_group}
use minerva_server.Cache.Writes.{
  StateCache, group_removed, send_group_event, emit_if_changed, replace_group_fields, group_left,
  detach,
}
use minerva_server.Prelude.{Option, none, some, List, [], ◌∷◌, map}

-- `for unit in &mut units { unit.group_id = group_id.to_string(); }`.
unfoldable pub claim_units : GroupId → List ProtoUnit → List ProtoUnit
claim_units group = map (λ (u : ProtoUnit). record u { group_id = group.as_str })

unfoldable pub unit_ids : List ProtoUnit → BTreeSet UnitId
unit_ids units = BTreeSet.collect (map (λ u. unit_id u.id) units)

-- The joined views, before the write, of the other groups that lose a listed unit.
unfoldable pub snapshot_others :
    Inner
    → GroupId
    → List ProtoUnit
    → HashMap GroupId (Option Group)
    → HashMap GroupId (Option Group)
snapshot_others inner group [] others = others
snapshot_others inner group (unit ∷ units) others =
    snapshot_others inner group units (elim (group_left inner (unit_id unit.id) group) [
      | none ↦ others
      | some previous ↦ HashMap.or_insert others previous (joined_group inner previous)
    ])

-- `for id in old_ids.difference(&new_ids) { inner.units.remove(id); }`.
unfoldable pub drop_units : Inner → List UnitId → Inner
drop_units inner [] = inner
drop_units inner (id ∷ ids) =
    drop_units (record inner { units = HashMap.remove inner.units id }) ids

-- Detaches every listed unit from the other group that it was in.
unfoldable pub detach_units : Inner → GroupId → List ProtoUnit → Inner
detach_units inner group [] = inner
detach_units inner group (unit ∷ units) =
    detach_units (detach inner (group_left inner (unit_id unit.id) group) (unit_id unit.id)) group
      units

unfoldable pub insert_units : Inner → List ProtoUnit → Inner
insert_units inner [] = inner
insert_units inner (unit ∷ units) =
    insert_units (record inner { units = HashMap.insert inner.units (unit_id unit.id) unit }) units

-- What `upsert_group_with_units` does to the units and the index.
unfoldable pub replace_members : Inner → GroupId → List ProtoUnit → Inner
replace_members inner group units =
    let new_ids = unit_ids units in
    let dropped = drop_units inner (BTreeSet.difference (member_ids inner group) new_ids) in
    let detached = detach_units dropped group units in
    let linked = record detached { members = HashMap.insert detached.members group new_ids } in
    insert_units linked units

unfoldable pub emit_others : StateCache → HashMap GroupId (Option Group) → StateCache
emit_others c [] = c
emit_others c ((id, before) ∷ others) = emit_others (emit_if_changed c id before) others

unfoldable pub upsert_group_with_units : StateCache → Group → List ProtoUnit → StateCache
upsert_group_with_units c group listed =
    let bare = record group { units = [] } in
    let id = group_id group.id in
    let units = claim_units id listed in
    let others = snapshot_others c.inner id units [] in
    let before = joined_group c.inner id in
    let moved = record c { inner = replace_members c.inner id units } in
    emit_others (emit_if_changed (replace_group_fields moved id bare) id before) others

-- The tables of `remove_group`: the group, its index entry and its members' units.
unfoldable pub erase_group : Inner → GroupId → Inner
erase_group inner id =
    drop_units
      (record inner {
        groups = HashMap.remove inner.groups id;
        members = HashMap.remove inner.members id;
      })
      (member_ids inner id)

unfoldable pub remove_group : StateCache → GroupId → StateCache × Option Group
remove_group c id = elim (HashMap.get c.inner.groups id) [
  | none ↦ (c, none)
  | some _ ↦ (
    send_group_event (record c { inner = erase_group c.inner id }) (group_removed id.as_str),
    joined_group c.inner id,
  )
]
