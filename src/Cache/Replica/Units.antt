-- ===== src/Cache/Replica/Units.antt =====
-- `upsert_unit` and `remove_unit`, as a subscriber to groups receives them.
use minerva_server.Std.HashMap
use minerva_server.Std.HashMap.{get-remove}
use minerva_server.Std.BTreeSet.{contains}
use minerva_server.Ids.{UnitId, GroupId, unit_id, group_id, unit_id_key, group_id_key}
use minerva_server.Proto.Units.{ProtoUnit}
use minerva_server.Proto.Side.{Side}
use minerva_server.Cache.Inner.{Inner, joined_group, unlink_member}
use minerva_server.Cache.Writes.{
  StateCache, upsert_unit, remove_unit, move_unit, group_left, emit_if_changed,
}
use minerva_server.Cache.Index.{IsIndexed, units-unlink_member, groups-unlink_member}
use minerva_server.Cache.Index.Units.{
  get-move_unit, groups-move_unit, move_unit-IsIndexed, unlink-IsIndexed,
}
use minerva_server.Cache.Index.Writes.{drop_absent-IsIndexed}
use minerva_server.Cache.Frame.{restrict, joined_group_frame}
use minerva_server.Cache.Replica.{Replica, IsCurrent}
use minerva_server.Cache.Replica.Stale.{
  SameSide-joined_group, IsStale, IsStale-nil, emit-IsStale, told-IsIndexed, left_list,
  emit_left-IsCurrent,
}
use minerva_server.Prelude.{
  ◌≡◌, refl, ap, inl, inr, false, Bool-cases, Option, none, some, Option-cases, List, [], ◌∷◌,
  arith,
}

module _ (inner : Inner) (valid : IsIndexed inner) (unit : ProtoUnit) where
  abbrev new_group : GroupId
  new_group = group_id unit.group_id

  abbrev leaving : Option GroupId
  leaving = group_left inner (unit_id unit.id) new_group

  restrict-move_unit :
      (g : GroupId)
      → contains (new_group ∷ left_list leaving) g ≡ false
      → (u : UnitId)
      → restrict (HashMap.get (move_unit inner leaving unit).units u) g
        ≡ restrict (HashMap.get inner.units u) g
  unfolding contains group_left
  restrict-move_unit g out u = ground (arith, get-move_unit inner leaving unit u)

  -- A group that the unit neither joins nor leaves has the view that it had.
  joined_group-move_unit :
      (g : GroupId)
      → contains (new_group ∷ left_list leaving) g ≡ false
      → joined_group (move_unit inner leaving unit) g ≡ joined_group inner g
  joined_group-move_unit g out =
      joined_group_frame (move_unit inner leaving unit) inner (move_unit-IsIndexed inner valid unit)
        valid g (restrict-move_unit g out)
        (ap (λ m. HashMap.get m g) (groups-move_unit inner leaving unit))

-- A write that changes the views of listed groups only, and sends nothing yet, leaves those stale.
pub silent-IsStale :
    (side : Option Side) (r : Replica) (c : StateCache) (inner : Inner) (listed : List GroupId)
    → IsCurrent side r c
    → inner.groups ≡ c.inner.groups
    → ((g : GroupId) → contains listed g ≡ false → joined_group inner g ≡ joined_group c.inner g)
    → IsStale side r (record c { inner = inner }) c.inner listed
silent-IsStale side r c inner listed current groups frame g =
    elim (Bool-cases (contains listed g)) [
      | inl m ↦
          inr
            (m, current g, SameSide-joined_group c.inner inner g (ap (λ m. HashMap.get m g) groups))
      | inr out ↦ inl (rw (frame g out) (current g))
    ]

pub upsert_unit-IsCurrent :
    (side : Option Side) (r : Replica) (c : StateCache) (unit : ProtoUnit)
    → IsIndexed c.inner
    → IsCurrent side r c
    → IsCurrent side r (upsert_unit c unit)
unfolding upsert_unit
upsert_unit-IsCurrent side r c unit v current =
    let new_group = group_id unit.group_id in
    let leaving = group_left c.inner (unit_id unit.id) new_group in
    let moved = record c { inner = move_unit c.inner leaving unit } in
    let w = move_unit-IsIndexed c.inner v unit in
    emit_left-IsCurrent side r (emit_if_changed moved new_group (joined_group c.inner new_group))
      c.inner leaving (told-IsIndexed side r moved c.inner w new_group (left_list leaving))
      (emit-IsStale side r moved c.inner w new_group (left_list leaving) (
        silent-IsStale side r c moved.inner (new_group ∷ left_list leaving) current
          (groups-move_unit c.inner leaving unit) (joined_group-move_unit c.inner v unit)))

module _ (inner : Inner) (valid : IsIndexed inner) (id : UnitId) (x : ProtoUnit)
    (stored : HashMap.get inner.units id ≡ some x) where
  abbrev unlinked : Inner
  unlinked =
      unlink_member (record inner { units = HashMap.remove inner.units id }) (group_id x.group_id)
        id

  restrict-unlinked :
      (g : GroupId)
      → contains (group_id x.group_id ∷ []) g ≡ false
      → (u : UnitId)
      → restrict (HashMap.get unlinked.units u) g ≡ restrict (HashMap.get inner.units u) g
  unfolding contains
  restrict-unlinked g out u = ground (
    arith,
    units-unlink_member (record inner { units = HashMap.remove inner.units id })
        (group_id x.group_id) id,
    get-remove inner.units id u,
  )

  joined_group-unlinked :
      (g : GroupId)
      → contains (group_id x.group_id ∷ []) g ≡ false
      → joined_group unlinked g ≡ joined_group inner g
  joined_group-unlinked g out =
      joined_group_frame unlinked inner (unlink-IsIndexed inner valid id x stored) valid g
        (restrict-unlinked g out)
        (ap (λ m. HashMap.get m g)
          (groups-unlink_member (record inner { units = HashMap.remove inner.units id })
            (group_id x.group_id) id))

drop_absent-frame :
    (i : Inner) (id : UnitId) (g : GroupId)
    → IsIndexed i
    → HashMap.get i.units id ≡ none
    → joined_group (record i { units = HashMap.remove i.units id }) g ≡ joined_group i g
drop_absent-frame i id g v e =
    joined_group_frame (record i { units = HashMap.remove i.units id }) i
      (drop_absent-IsIndexed i id e v) v g (λ u. ground (arith, get-remove i.units id u)) refl

pub remove_unit-IsCurrent :
    (side : Option Side) (r : Replica) (c : StateCache) (id : UnitId)
    → IsIndexed c.inner
    → IsCurrent side r c
    → IsCurrent side r (remove_unit c id).0
unfolding remove_unit
remove_unit-IsCurrent side r c id v current = elim (Option-cases (HashMap.get c.inner.units id)) [
  | inl e ↦ rw (e, remove_unit) (λ g. rw (drop_absent-frame c.inner id g v e) (current g))
  | inr (x, e) ↦
      let dropped = record c { inner = unlinked c.inner v id x e } in
      let g = group_id x.group_id in
      let w = unlink-IsIndexed c.inner v id x e in
      rw (e, remove_unit)
        (IsStale-nil side r (emit_if_changed dropped g (joined_group c.inner g)) c.inner (
          emit-IsStale side r dropped c.inner w g [] (
            silent-IsStale side r c dropped.inner (g ∷ []) current
              (groups-unlink_member (record c.inner { units = HashMap.remove c.inner.units id }) g
                id)
              (joined_group-unlinked c.inner v id x e))))
]
