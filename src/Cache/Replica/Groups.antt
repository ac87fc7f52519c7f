-- ===== src/Cache/Replica/Groups.antt =====
-- The writes to groups and `clear`, as a subscriber to groups receives them.
use minerva_server.Std.HashMap
use minerva_server.Std.HashMap.{HashMap, get-remove}
use minerva_server.Ids.{UnitId, GroupId, group_id, unit_id_key, group_id_key}
use minerva_server.Proto.Units.{ProtoUnit}
use minerva_server.Proto.Groups.{Group}
use minerva_server.Proto.Side.{Side}
use minerva_server.Cache.Inner.{Inner, joined_group}
use minerva_server.Cache.Writes.{
  StateCache, upsert_group, emit_if_changed, replace_group_fields, send_group_event, group_removed,
}
use minerva_server.Cache.Groups.{
  upsert_group_with_units, remove_group, erase_group, claim_units, snapshot_others,
}
use minerva_server.Cache.Emit.{emit-SameTables, send-SameTables}
use minerva_server.Cache.Index.{IsIndexed}
use minerva_server.Cache.Index.Groups.{replaced, groups-replaced, replace_members-IsIndexed}
use minerva_server.Cache.Index.Erase.{get-erase_group, groups-erase_group, erase_group-IsIndexed}
use minerva_server.Cache.Index.Writes.{SameTables-IsIndexed, replace-IsIndexed}
use minerva_server.Cache.Frame.{restrict, joined_group_frame, joined_group-absent}
use minerva_server.Cache.Replica.{Replica, Has, IsCurrent}
use minerva_server.Cache.Replica.Emit.{Has-removed_self, Has-removed_ne}
use minerva_server.Cache.Replica.Stale.{IsStale-nil, emit_others-IsCurrent, joined_group-SameTables}
use minerva_server.Cache.Replica.Units.{silent-IsStale}
use minerva_server.Cache.Replica.Fields.{replace-IsStale}
use minerva_server.Cache.Replica.Snapshot.{snapshot_others-AreViews, joined_group-replaced}
use minerva_server.Prelude.{
  Option, ◌≡◌, ◌≢◌, refl, ap, subst, inl, inr, if_pos, if_neg, none, Option-cases, List, [], ◌∷◌,
  arith,
}

pub upsert_group-IsCurrent :
    (side : Option Side) (r : Replica) (c : StateCache) (group : Group)
    → IsIndexed c.inner
    → IsCurrent side r c
    → IsCurrent side r (upsert_group c group)
unfolding upsert_group
upsert_group-IsCurrent side r c group v current =
    let bare = record group { units = [] } in
    let id = group_id group.id in
    let stored = replace_group_fields c id bare in
    IsStale-nil side r (emit_if_changed stored id (joined_group c.inner id)) c.inner
      (replace-IsStale side r c c.inner bare [] v refl (current id) (λ g. inl (current g)))

pub upsert_group_with_units-IsCurrent :
    (side : Option Side) (r : Replica) (c : StateCache) (group : Group) (listed : List ProtoUnit)
    → IsIndexed c.inner
    → IsCurrent side r c
    → IsCurrent side r (upsert_group_with_units c group listed)
unfolding upsert_group_with_units
upsert_group_with_units-IsCurrent side r c group listed v current =
    let bare = record group { units = [] } in
    let id = group_id group.id in
    let others = snapshot_others c.inner id (claim_units id listed) [] in
    let moved = record c { inner = replaced c.inner v id listed } in
    let w = replace_members-IsIndexed c.inner v id listed in
    let stored = replace_group_fields moved id bare in
    let told = emit_if_changed stored id (joined_group c.inner id) in
    emit_others-IsCurrent side r told c.inner others
      (snapshot_others-AreViews c.inner id (claim_units id listed) [] tt)
      (SameTables-IsIndexed stored.inner told.inner
        (emit-SameTables stored id (joined_group c.inner id)) (replace-IsIndexed moved bare w))
      (replace-IsStale side r moved c.inner bare (HashMap.keys others) w
        (ap (λ m. HashMap.get m id) (groups-replaced c.inner v id listed)) (current id)
        (silent-IsStale side r c moved.inner (id ∷ HashMap.keys others) current
          (groups-replaced c.inner v id listed) (joined_group-replaced c.inner v id listed)))

module _ (i : Inner) (valid : IsIndexed i) (id : GroupId) where
  restrict-erase_group :
      (g : GroupId) (u : UnitId)
      → id ≢ g
      → restrict (HashMap.get (erase_group i id).units u) g ≡ restrict (HashMap.get i.units u) g
  restrict-erase_group g u p = ground (arith, get-erase_group i id u, valid.index id u)

  -- Another group's units are all still there.
  pub joined_group-erase_group_ne :
      (g : GroupId) → id ≢ g → joined_group (erase_group i id) g ≡ joined_group i g
  joined_group-erase_group_ne g p =
      joined_group_frame (erase_group i id) i (erase_group-IsIndexed i valid id) valid g
        (λ u. restrict-erase_group g u p)
        (rw (groups-erase_group i id, get-remove i.groups id g, if_neg (group_id_key.same id g) p)
          refl)

  pub joined_group-erase_group : joined_group (erase_group i id) id ≡ none
  joined_group-erase_group = joined_group-absent (erase_group i id) id (
      rw (groups-erase_group i id, get-remove i.groups id id, if_pos (group_id_key.same id id) refl)
        refl)

module _ (side : Option Side) (r : Replica) (c : StateCache) (v : IsIndexed c.inner) (id : GroupId)
    (current : IsCurrent side r c) where
  abbrev erased : StateCache
  erased = record c { inner = erase_group c.inner id }

  abbrev sent : StateCache
  sent = send_group_event erased (group_removed id.as_str)

  view : (g : GroupId) → joined_group sent.inner g ≡ joined_group erased.inner g
  view g =
      joined_group-SameTables erased.inner sent.inner g
        (send-SameTables erased (group_removed id.as_str))

  erased-IsCurrent : IsCurrent side r sent
  erased-IsCurrent g = elim (group_id_key.same id g) [
    | yes p ↦
        subst (λ k. Has side r sent k (joined_group sent.inner k)) p
          (rw (view id, joined_group-erase_group c.inner v id) (Has-removed_self side r erased id))
    | no p ↦
        rw (view g, joined_group-erase_group_ne c.inner v id g p)
          (Has-removed_ne side r erased id g (joined_group c.inner g) p (current g))
  ]

pub remove_group-IsCurrent :
    (side : Option Side) (r : Replica) (c : StateCache) (id : GroupId)
    → IsIndexed c.inner
    → IsCurrent side r c
    → IsCurrent side r (remove_group c id).0
unfolding remove_group
remove_group-IsCurrent side r c id v current = elim (Option-cases (HashMap.get c.inner.groups id)) [
  | inl e ↦ rw (e, remove_group) current
  | inr (x, e) ↦ rw (e, remove_group) (erased-IsCurrent side r c v id current)
]
