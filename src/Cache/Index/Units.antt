-- ===== src/Cache/Index/Units.antt =====
-- The member index under `upsert_unit` and `remove_unit`.
use minerva_server.Std.HashMap
use minerva_server.Std.HashMap.{get-remove, get-insert}
use minerva_server.Std.BTreeSet.{
  contains, Sorted, contains-insert, contains-remove, insert-Sorted, remove-Sorted,
}
use minerva_server.Ids.{UnitId, GroupId, unit_id, group_id, unit_id_key, group_id_key}
use minerva_server.Proto.Units.{ProtoUnit}
use minerva_server.Cache.Inner.{Inner, member_ids, unlink_member, link_member}
use minerva_server.Cache.Writes.{detach, move_unit, group_left}
use minerva_server.Cache.Loops.{member_ids-detach, detach-Sorted, units-detach, groups-detach}
use minerva_server.Cache.Index.{
  IsIndexed, belongs, member_ids-unlink_member, units-unlink_member, groups-unlink_member,
  member_ids-link_member,
}
use minerva_server.Prelude.{◌≡◌, ite, true, Option, some, arith}

module _ (inner : Inner) where
  -- The index after a move, whatever group the unit is taken out of.
  contains-move_unit :
      (leaving : Option GroupId) (unit : ProtoUnit) (g : GroupId) (v : UnitId)
      → contains (member_ids (move_unit inner leaving unit) g) v
        ≡ ite
            (group_id_key.same (group_id unit.group_id) g)
            (ite
              (unit_id_key.same (unit_id unit.id) v)
              true
              (contains (member_ids (detach inner leaving (unit_id unit.id)) g) v))
            (contains (member_ids (detach inner leaving (unit_id unit.id)) g) v)
  unfolding move_unit member_ids
  contains-move_unit leaving unit g v =
      let detached = detach inner leaving (unit_id unit.id) in
      ground (
        arith,
        member_ids-link_member detached (group_id unit.group_id) (unit_id unit.id) g,
        contains-insert (member_ids detached (group_id unit.group_id)) (unit_id unit.id) v,
      )

  pub get-move_unit :
      (leaving : Option GroupId) (unit : ProtoUnit) (v : UnitId)
      → HashMap.get (move_unit inner leaving unit).units v
        ≡ ite (unit_id_key.same (unit_id unit.id) v) (some unit) (HashMap.get inner.units v)
  unfolding move_unit link_member
  get-move_unit leaving unit v =
      rw (units-detach inner leaving (unit_id unit.id))
        (get-insert inner.units (unit_id unit.id) v unit)

  pub groups-move_unit :
      (leaving : Option GroupId) (unit : ProtoUnit)
      → (move_unit inner leaving unit).groups ≡ inner.groups
  unfolding move_unit link_member
  groups-move_unit leaving unit = groups-detach inner leaving (unit_id unit.id)

  pub move_unit-Sorted :
      (leaving : Option GroupId) (unit : ProtoUnit)
      → ((g : GroupId) → Sorted (member_ids inner g))
      → (g : GroupId) → Sorted (member_ids (move_unit inner leaving unit) g)
  unfolding move_unit member_ids
  move_unit-Sorted leaving unit s g =
      let detached = detach inner leaving (unit_id unit.id) in
      let new = group_id unit.group_id in
      ground (
        arith,
        member_ids-link_member detached new (unit_id unit.id) g,
        insert-Sorted (member_ids detached new) (unit_id unit.id)
            (detach-Sorted inner leaving (unit_id unit.id) s new),
        detach-Sorted inner leaving (unit_id unit.id) s g,
      )

module _ (inner : Inner) (valid : IsIndexed inner) (unit : ProtoUnit) where
  move_unit-index :
      (g : GroupId) (v : UnitId)
      → let leaving = group_left inner (unit_id unit.id) (group_id unit.group_id) in
        contains (member_ids (move_unit inner leaving unit) g) v
        ≡ belongs (move_unit inner leaving unit) v g
  unfolding group_left
  move_unit-index g v =
      let leaving = group_left inner (unit_id unit.id) (group_id unit.group_id) in
      ground (
        arith,
        contains-move_unit inner leaving unit g v,
        get-move_unit inner leaving unit v,
        member_ids-detach inner leaving (unit_id unit.id) g v,
        valid.index g v,
      )

  move_unit-keyed :
      (leaving : Option GroupId) (u : UnitId) (x : ProtoUnit)
      → HashMap.get (move_unit inner leaving unit).units u ≡ some x
      → unit_id x.id ≡ u
  move_unit-keyed leaving u x h =
      ground (arith, get-move_unit inner leaving unit u, valid.keyed u x)

  -- The move of `upsert_unit` keeps the index.
  pub move_unit-IsIndexed :
      IsIndexed (move_unit inner (group_left inner (unit_id unit.id) (group_id unit.group_id)) unit)
  move_unit-IsIndexed =
      let leaving = group_left inner (unit_id unit.id) (group_id unit.group_id) in
      record {
        index = move_unit-index;
        sorted = move_unit-Sorted inner leaving unit valid.sorted;
        keyed = move_unit-keyed leaving;
        named = λ g x. rw (groups-move_unit inner leaving unit) (valid.named g x);
      }

module _ (inner : Inner) (valid : IsIndexed inner) (id : UnitId) where
  unlinked : GroupId → Inner
  unlinked g = unlink_member (record inner { units = HashMap.remove inner.units id }) g id

  unlinked-index :
      (x : ProtoUnit)
      → HashMap.get inner.units id ≡ some x
      → (g : GroupId) (v : UnitId)
      → contains (member_ids (unlinked (group_id x.group_id)) g) v
        ≡ belongs (unlinked (group_id x.group_id)) v g
  unfolding unlinked member_ids
  unlinked-index x stored g v =
      let base = record inner { units = HashMap.remove inner.units id } in
      ground (
        arith,
        member_ids-unlink_member base (group_id x.group_id) id g,
        contains-remove (member_ids inner (group_id x.group_id)) id v,
        units-unlink_member base (group_id x.group_id) id,
        get-remove inner.units id v,
        valid.index g v,
      )

  unlinked-Sorted : (x g : GroupId) → Sorted (member_ids (unlinked x) g)
  unfolding unlinked member_ids
  unlinked-Sorted x g =
      let base = record inner { units = HashMap.remove inner.units id } in
      ground (
        arith,
        member_ids-unlink_member base x id g,
        remove-Sorted (member_ids inner x) id (valid.sorted x),
        valid.sorted g,
      )

  unlinked-keyed :
      (g : GroupId) (u : UnitId) (x : ProtoUnit)
      → HashMap.get (unlinked g).units u ≡ some x
      → unit_id x.id ≡ u
  unfolding unlinked
  unlinked-keyed g u x h = ground (
    arith,
    units-unlink_member (record inner { units = HashMap.remove inner.units id }) g id,
    get-remove inner.units id u,
    valid.keyed u x,
  )

  -- The removal of a cached unit keeps the index.
  pub unlink-IsIndexed :
      (x : ProtoUnit)
      → HashMap.get inner.units id ≡ some x
      → IsIndexed (
          unlink_member
            (record inner { units = HashMap.remove inner.units id })
            (group_id x.group_id)
            id)
  unfolding unlinked
  unlink-IsIndexed x stored =
      let g = group_id x.group_id in
      record {
        index = unlinked-index x stored;
        sorted = unlinked-Sorted g;
        keyed = unlinked-keyed g;
        named = λ h y.
            rw (groups-unlink_member (record inner { units = HashMap.remove inner.units id }) g id)
              (valid.named h y);
      }
