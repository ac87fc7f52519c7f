-- ===== src/Cache/Replica/Fields.antt =====
-- `replace_group_fields` and the broadcast after it: a change of side is told as a removal, and
-- then as the group with its new side.
use minerva_server.Std.PartialEq.{◌==◌, option_partial_eq}
use minerva_server.Std.Num.{int_eq, int_eq_iff}
use minerva_server.Std.HashMap
use minerva_server.Std.HashMap.{get-insert}
use minerva_server.Std.BTreeSet.{contains}
use minerva_server.Ids.{GroupId, group_id, group_id_key}
use minerva_server.Proto.Groups.{Group, group_eq, group_partial_eq}
use minerva_server.Proto.Side.{Side}
use minerva_server.Cache.Inner.{Inner, joined_group, member_units, member_ids}
use minerva_server.Cache.Writes.{
  StateCache, emit_if_changed, replace_group_fields, send_group_event, group_removed,
}
use minerva_server.Cache.Emit.{send-SameTables, emit-SameTables}
use minerva_server.Cache.Index.{IsIndexed}
use minerva_server.Cache.Index.Writes.{SameTables-IsIndexed, insert_group-IsIndexed}
use minerva_server.Cache.Frame.{joined_group-absent, joined_group-stored}
use minerva_server.Cache.Replica.{Replica, Has}
use minerva_server.Cache.Replica.Emit.{
  SameSide, Has-removed_self, Has-emit_ne, Has-emit_changed, Has-removed_ne,
}
use minerva_server.Cache.Replica.Stale.{IsStale, emit-IsStale, joined_group-SameTables}
use minerva_server.Prelude.{
  ◌≡◌, ◌≢◌, refl, sym, subst, ◌∙◌, inl, inr, if_pos, if_neg, true, false, Bool-cases, Option, none,
  some, Option-cases, List, ◌∷◌, arith,
}

group_eq-side : (a b : Group) → int_eq b.side a.side ≡ false → group_eq a b ≡ false
unfolding group_eq
group_eq-side a b h = ground (arith, int_eq_iff a.side b.side, int_eq_iff b.side a.side)

module _ (inner : Inner) (group : Group) where
  abbrev id : GroupId
  id = group_id group.id

  abbrev inserted : Inner
  inserted = record inner { groups = HashMap.insert inner.groups id group }

  pub joined_group-inserted_ne :
      (g : GroupId) → id ≢ g → joined_group inserted g ≡ joined_group inner g
  unfolding joined_group member_units member_ids
  joined_group-inserted_ne g p = ground (arith, get-insert inner.groups id g group)

  joined_group-inserted :
      joined_group inserted id ≡ some (record group { units = member_units inserted id })
  joined_group-inserted = joined_group-stored inserted id group (
      get-insert inner.groups id id group
      ∙ if_pos (group_id_key.same id id) refl (some group) (HashMap.get inner.groups id))

  -- A new side shows in the joined view.
  view_changes :
      (earlier : Inner) (existing : Group)
      → HashMap.get earlier.groups id ≡ some existing
      → int_eq existing.side group.side ≡ false
      → (joined_group inserted id == joined_group earlier id) ≡ false
  view_changes earlier existing e side =
      rw (joined_group-inserted, joined_group-stored earlier id existing e)
        (group_eq-side (record group { units = member_units inserted id })
          (record existing { units = member_units earlier id }) side)

module _ (c : StateCache) (group : Group) where
  abbrev stored : StateCache
  stored = record c { inner = inserted c.inner group }

  replace_none :
      HashMap.get c.inner.groups (group_id group.id) ≡ none
      → replace_group_fields c (group_id group.id) group ≡ stored
  unfolding replace_group_fields
  replace_none e = ground arith

  replace_same :
      (existing : Group)
      → HashMap.get c.inner.groups (group_id group.id) ≡ some existing
      → int_eq existing.side group.side ≡ true
      → replace_group_fields c (group_id group.id) group ≡ stored
  unfolding replace_group_fields
  replace_same existing e side = ground arith

  replace_other :
      (existing : Group)
      → HashMap.get c.inner.groups (group_id group.id) ≡ some existing
      → int_eq existing.side group.side ≡ false
      → replace_group_fields c (group_id group.id) group
        ≡ send_group_event stored (group_removed group.id)
  unfolding replace_group_fields
  replace_other existing e side = ground arith

module _ (side : Option Side) (r : Replica) (c : StateCache) (earlier : Inner) (group : Group)
    (listed : List GroupId) (v : IsIndexed c.inner)
    (same : HashMap.get c.inner.groups (group_id group.id)
      ≡ HashMap.get earlier.groups (group_id group.id))
    (old : Has side r c (group_id group.id) (joined_group earlier (group_id group.id)))
    (s : IsStale side r c earlier (group_id group.id ∷ listed)) where
  abbrev replaced : StateCache
  replaced = record c { inner = inserted c.inner group }

  abbrev Goal : StateCache → Type 0
  Goal q =
      IsStale side r
        (emit_if_changed q (group_id group.id) (joined_group earlier (group_id group.id))) earlier
        listed

  abbrev KeptAt : GroupId → Type 0
  KeptAt g =
      Has side r c g (joined_group earlier g)
      × SameSide (joined_group earlier g) (joined_group replaced.inner g)

  -- Without a change of side nothing is sent before the broadcast.
  quiet :
      SameSide
        (joined_group earlier (group_id group.id))
        (joined_group replaced.inner (group_id group.id))
      → Goal replaced
  quiet kept =
      emit-IsStale side r replaced earlier (insert_group-IsIndexed c.inner group v)
        (group_id group.id) listed stale
    where
      stale : IsStale side r replaced earlier (group_id group.id ∷ listed)
      stale g = elim (group_id_key.same (group_id group.id) g) [
        | yes p ↦
            let own = subst KeptAt p (old, kept) in
            inr (
              unfold contains in if_pos (group_id_key.same (group_id group.id) g) p true _,
              own.0,
              own.1,
            )
        | no p ↦ elim (s g) [
          | inl h ↦ inl (rw (joined_group-inserted_ne c.inner group g p) h)
          | inr h ↦ inr (h.0, h.1, rw (joined_group-inserted_ne c.inner group g p) (h.2))
        ]
      ]

  -- With a change of side the removal leaves the group out of date, and the broadcast mends it.
  loud :
      (existing : Group)
      → HashMap.get c.inner.groups (group_id group.id) ≡ some existing
      → int_eq existing.side group.side ≡ false
      → Goal (send_group_event replaced (group_removed group.id))
  unfolding contains
  loud existing e turned g = elim (group_id_key.same id g) [
    | yes p ↦ inl (
        rw (view g) (
          subst (λ k. Has side r told k (joined_group sent.inner k)) p
            (Has-emit_changed side r sent w id (joined_group earlier id) changed
              (Has-removed_self side r replaced id))))
    | no p ↦ elim (s g) [
      | inl h ↦ inl (
          rw (view g, view_sent g, joined_group-inserted_ne c.inner group g p)
            (keep g (joined_group c.inner g) p h))
      | inr h ↦ inr (
        rw (if_neg (group_id_key.same id g) p) at (h.0),
        keep g (joined_group earlier g) p h.1,
        rw (view g, view_sent g, joined_group-inserted_ne c.inner group g p) (h.2),
      )
    ]
  ]
    where
      id : GroupId
      id = group_id group.id

      sent : StateCache
      sent = send_group_event replaced (group_removed group.id)

      told : StateCache
      told = emit_if_changed sent id (joined_group earlier id)

      w : IsIndexed sent.inner
      w =
          SameTables-IsIndexed replaced.inner sent.inner
            (send-SameTables replaced (group_removed group.id))
            (insert_group-IsIndexed c.inner group v)

      view_sent : (k : GroupId) → joined_group sent.inner k ≡ joined_group replaced.inner k
      view_sent k =
          joined_group-SameTables replaced.inner sent.inner k
            (send-SameTables replaced (group_removed group.id))

      view : (k : GroupId) → joined_group told.inner k ≡ joined_group sent.inner k
      view k =
          joined_group-SameTables sent.inner told.inner k
            (emit-SameTables sent id (joined_group earlier id))

      changed : (joined_group sent.inner id == joined_group earlier id) ≡ false
      changed =
          rw (view_sent id) (view_changes c.inner group earlier existing (sym same ∙ e) turned)

      keep : (k : GroupId) (o : Option Group) → id ≢ k → Has side r c k o → Has side r told k o
      keep k o p h =
          Has-emit_ne side r sent w id (joined_group earlier id) k o p
            (Has-removed_ne side r replaced id k o p h)

  kept_none :
      HashMap.get c.inner.groups (group_id group.id) ≡ none
      → SameSide
          (joined_group earlier (group_id group.id))
          (joined_group replaced.inner (group_id group.id))
  kept_none e = rw (joined_group-absent earlier (group_id group.id) (sym same ∙ e)) tt

  kept_same :
      (existing : Group)
      → HashMap.get c.inner.groups (group_id group.id) ≡ some existing
      → int_eq existing.side group.side ≡ true
      → SameSide
          (joined_group earlier (group_id group.id))
          (joined_group replaced.inner (group_id group.id))
  kept_same existing e keeps =
      rw
        (
          joined_group-stored earlier (group_id group.id) existing (sym same ∙ e),
          joined_group-inserted c.inner group,
        )
        ((int_eq_iff existing.side group.side).0 keeps)

  -- Replacing a group's fields and broadcasting it brings the group up to date.
  pub replace-IsStale : Goal (replace_group_fields c (group_id group.id) group)
  replace-IsStale = elim (Option-cases (HashMap.get c.inner.groups (group_id group.id))) [
    | inl e ↦ subst Goal (sym (replace_none c group e)) (quiet (kept_none e))
    | inr (existing, e) ↦ elim (Bool-cases (int_eq existing.side group.side)) [
      | inl keeps ↦
          subst Goal (sym (replace_same c group existing e keeps))
            (quiet (kept_same existing e keeps))
      | inr turned ↦
          subst Goal (sym (replace_other c group existing e turned)) (loud existing e turned)
    ]
  ]
