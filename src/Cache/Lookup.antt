-- ===== src/Cache/Lookup.antt =====
-- What the reads return after a write.
use minerva_server.Std.HashMap
use minerva_server.Std.HashMap.{get-remove}
use minerva_server.Ids.{UnitId, GroupId, unit_id, group_id, unit_id_key, group_id_key}
use minerva_server.Proto.Units.{ProtoUnit}
use minerva_server.Cache.Inner.{Inner, joined_group, unlink_member}
use minerva_server.Cache.Writes.{
  StateCache, upsert_unit, remove_unit, move_unit, group_left, emit_if_changed, emit_left,
  send_group_event, group_removed,
}
use minerva_server.Cache.Groups.{remove_group, erase_group}
use minerva_server.Cache.Reads.{get_unit, get_group}
use minerva_server.Cache.Emit.{SameTables, emit-SameTables, send-SameTables}
use minerva_server.Cache.Index.{IsIndexed, in_group, units-unlink_member}
use minerva_server.Cache.Index.Units.{get-move_unit}
use minerva_server.Cache.Index.Erase.{get-erase_group}
use minerva_server.Cache.Frame.{joined_group-absent, joined_group-stored}
use minerva_server.Cache.Replica.Stale.{joined_group-SameTables}
use minerva_server.Cache.Replica.Groups.{joined_group-erase_group, joined_group-erase_group_ne}
use minerva_server.Prelude.{
  ◌≡◌, refl, sym, ◌∙◌, ap, ite, if_pos, if_neg, Option, none, some, Option-cases, inl, inr,
  if◌then◌else◌,
}

units-SameTables : (i j : Inner) → SameTables i j → j.units ≡ i.units
units-SameTables i j (n, e) = ap (λ (x : Inner). x.units) e

units-emit_left :
    (c : StateCache) (o : Option GroupId) (earlier : Inner)
    → (emit_left c o earlier).inner.units ≡ c.inner.units
unfolding emit_left
units-emit_left c none earlier = refl
units-emit_left c (some old) earlier =
    let told = emit_if_changed c old (joined_group earlier old) in
    units-SameTables c.inner told.inner (emit-SameTables c old (joined_group earlier old))

-- After `upsert_unit` the unit is cached as given, and every other unit as before.
pub upsert_unit-get :
    (c : StateCache) (unit : ProtoUnit) (u : UnitId)
    → get_unit (upsert_unit c unit) u
      ≡ ite (unit_id_key.same (unit_id unit.id) u) (some unit) (get_unit c u)
unfolding upsert_unit get_unit
upsert_unit-get c unit u =
    let id = group_id unit.group_id in
    let leaving = group_left c.inner (unit_id unit.id) id in
    let moved = record c { inner = move_unit c.inner leaving unit } in
    let told = emit_if_changed moved id (joined_group c.inner id) in
    ap (λ m. HashMap.get m u)
      (units-emit_left told leaving c.inner
        ∙ units-SameTables moved.inner told.inner
            (emit-SameTables moved id (joined_group c.inner id)))
    ∙ get-move_unit c.inner leaving unit u

-- `remove_unit` returns the unit that was cached under the id; afterwards none is, and every other
-- unit is cached as before.
pub remove_unit-get :
    (c : StateCache) (id u : UnitId)
    → ((remove_unit c id).1 ≡ get_unit c id)
      × (get_unit (remove_unit c id).0 u ≡ ite (unit_id_key.same id u) none (get_unit c u))
unfolding remove_unit get_unit
remove_unit-get c id u =
    let removed = record c.inner { units = HashMap.remove c.inner.units id } in
    elim (Option-cases (HashMap.get c.inner.units id)) [
      | inl e ↦ rw (e, remove_unit) (refl, get-remove c.inner.units id u)
      | inr (x, e) ↦
          let group = group_id x.group_id in
          let unlinked = record c { inner = unlink_member removed group id } in
          let before = joined_group c.inner group in
          rw (e, remove_unit)
            (
              refl,
              ap (λ m. HashMap.get m u)
                    (units-SameTables unlinked.inner (emit_if_changed unlinked group before).inner
                        (emit-SameTables unlinked group before)
                      ∙ units-unlink_member removed group id)
                  ∙ get-remove c.inner.units id u,
            )
    ]

module _ (c : StateCache) (id : GroupId) where
  abbrev erased : StateCache
  erased = record c { inner = erase_group c.inner id }

  abbrev sent : StateCache
  sent = send_group_event erased (group_removed id.as_str)

  get_group-sent :
      IsIndexed c.inner
      → (g : GroupId)
      → joined_group sent.inner g ≡ ite (group_id_key.same id g) none (joined_group c.inner g)
  get_group-sent v g =
      joined_group-SameTables erased.inner sent.inner g
        (send-SameTables erased (group_removed id.as_str))
      ∙ elim (group_id_key.same id g) [
        | yes p ↦
            ap (joined_group (erase_group c.inner id)) (sym p)
            ∙ joined_group-erase_group c.inner v id
            ∙ sym (if_pos (group_id_key.same id g) p none (joined_group c.inner g))
        | no p ↦
            joined_group-erase_group_ne c.inner v id g p
            ∙ sym (if_neg (group_id_key.same id g) p none (joined_group c.inner g))
      ]

  get_unit-sent :
      IsIndexed c.inner
      → (u : UnitId)
      → HashMap.get sent.inner.units u
        ≡ (if in_group (HashMap.get c.inner.units u) id then none else HashMap.get c.inner.units u)
  get_unit-sent v u =
      ap (λ m. HashMap.get m u)
        (units-SameTables erased.inner sent.inner
          (send-SameTables erased (group_removed id.as_str)))
      ∙ get-erase_group c.inner id u
      ∙ ap (λ b. if b then none else HashMap.get c.inner.units u) (v.index id u)

absent_stays :
    (i : Inner) (id g : GroupId)
    → joined_group i id ≡ none
    → joined_group i g ≡ ite (group_id_key.same id g) none (joined_group i g)
absent_stays i id g e = elim (group_id_key.same id g) [
  | yes p ↦
      ap (joined_group i) (sym p)
      ∙ e
      ∙ sym (if_pos (group_id_key.same id g) p none (joined_group i g))
  | no p ↦ sym (if_neg (group_id_key.same id g) p none (joined_group i g))
]

-- If the member index is exact, `remove_group` returns the group as it was with its units;
-- afterwards the group is gone and the others have the views they had; the units that named the
-- group are gone if it was cached, and all other units are as before.
pub remove_group-get :
    (c : StateCache) (id g : GroupId) (u : UnitId)
    → IsIndexed c.inner
    → let removed = remove_group c id in
      (removed.1 ≡ get_group c id)
      × (get_group removed.0 g ≡ ite (group_id_key.same id g) none (get_group c g))
      × (get_unit removed.0 u ≡ (elim (get_group c id) [
        | none ↦ get_unit c u
        | some _ ↦ if in_group (get_unit c u) id then none else get_unit c u
      ]))
unfolding remove_group get_group get_unit
remove_group-get c id g u v = elim (Option-cases (HashMap.get c.inner.groups id)) [
  | inl e ↦
      rw (e, remove_group, joined_group-absent c.inner id e)
        (refl, absent_stays c.inner id g (joined_group-absent c.inner id e), refl)
  | inr (x, e) ↦
      let stored = joined_group-stored c.inner id x e in
      rw (e, remove_group, stored) (refl, get_group-sent c id v g, get_unit-sent c id v u)
]
