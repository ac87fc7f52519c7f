-- ===== src/Cache/Passage.antt =====
-- A write to units and groups is a change of the tables and some messages to the subscribers of
-- groups, so a relation that these satisfy, with the number of messages as its index, holds across
-- the write.
use minerva_server.Std.PartialEq.{◌==◌, option_partial_eq}
use minerva_server.Std.Num.{int_eq}
use minerva_server.Std.HashMap
use minerva_server.Std.HashMap.{HashMap}
use minerva_server.Ids.{UnitId, GroupId, unit_id, group_id, unit_id_key, group_id_key}
use minerva_server.Proto.Units.{ProtoUnit}
use minerva_server.Proto.Groups.{Group, group_partial_eq, SubscribeGroupUpdatesResponse}
use minerva_server.Cache.Inner.{Inner, joined_group, unlink_member}
use minerva_server.Cache.Writes.{
  StateCache, upsert_unit, remove_unit, upsert_group, move_unit, group_left, emit_if_changed,
  emit_left, replace_group_fields, group_removed, changed_response, send_group_event,
}
use minerva_server.Cache.Groups.{
  upsert_group_with_units, remove_group, replace_members, claim_units, erase_group, emit_others,
  snapshot_others,
}
use minerva_server.Cache.Resets.{send_removals}
use minerva_server.Cache.Tables.{
  Untouched, Untouched-refl, Untouched-trans, remove-Untouched, unlink_member-Untouched,
  replace_members-Untouched, erase_group-Untouched, move_unit-Untouched,
}
use minerva_server.Prelude.{
  ℕ, ◌+◌, ◌≤◌, Option, none, some, Option-cases, List, [], ◌∷◌, inl, inr, Bool-cases, arith, length,
}

pub record Passage (R : ℕ → StateCache → StateCache → Type 0) : Type 0 where
  pub tables : (c : StateCache) (i : Inner) → Untouched c.inner i → R 0 c (record c { inner = i })
  pub sends :
      (c : StateCache) (response : SubscribeGroupUpdatesResponse)
      → R 1 c (send_group_event c response)
  pub joins : (m n : ℕ) (c d e : StateCache) → R m c d → R n d e → R (m + n) c e
  pub loosens : (m n : ℕ) (c d : StateCache) → m ≤ n → R m c d → R n c d

-- The other groups that a group takes units from.
abbrev pub robbed : StateCache → Group → List ProtoUnit → HashMap GroupId (Option Group)
robbed c group listed =
    snapshot_others c.inner (group_id group.id) (claim_units (group_id group.id) listed) []

module _ {R : ℕ → StateCache → StateCache → Type 0} (p : Passage R) where
  pub stays : (c : StateCache) → R 0 c c
  stays c = p.tables c c.inner (Untouched-refl c.inner)

  pub emits :
      (c : StateCache) (id : GroupId) (before : Option Group) → R 1 c (emit_if_changed c id before)
  unfolding emit_if_changed
  emits c id before = elim (Bool-cases (joined_group c.inner id == before)) [
    | inl same ↦ rw same (p.loosens 0 1 c c (omega arith) (stays c))
    | inr changed ↦ rw changed (p.sends c (changed_response (joined_group c.inner id) id))
  ]

  -- A change of the tables, and the broadcast of a group after it.
  tells :
      (c : StateCache) (i : Inner) (id : GroupId) (before : Option Group)
      → Untouched c.inner i
      → R 1 c (emit_if_changed (record c { inner = i }) id before)
  tells c i id before u =
      let moved = record c { inner = i } in
      p.joins 0 1 c moved (emit_if_changed moved id before) (p.tables c i u) (emits moved id before)

  replaces :
      (c : StateCache) (id : GroupId) (group : Group) → R 1 c (replace_group_fields c id group)
  unfolding replace_group_fields
  replaces c id group =
      let stored = record c {
        inner = record c.inner { groups = HashMap.insert c.inner.groups id group };
      } in
      let silent = p.tables c stored.inner (Untouched-refl c.inner) in
      let quiet = p.loosens 0 1 c stored (omega arith) silent in
      elim (Option-cases (HashMap.get c.inner.groups id)) [
        | inl e ↦ rw (e, replace_group_fields) quiet
        | inr (existing, e) ↦
            rw (e, replace_group_fields)
              (elim (Bool-cases (int_eq existing.side group.side)) [
                | inl same ↦ rw same quiet
                | inr other ↦ rw other (
                    p.joins 0 1 c stored (send_group_event stored (group_removed group.id)) silent
                      (p.sends stored (group_removed group.id)))
              ])
      ]

  emits_left :
      (c : StateCache) (o : Option GroupId) (earlier : Inner) → R 1 c (emit_left c o earlier)
  unfolding emit_left
  emits_left c none earlier = p.loosens 0 1 c c (omega arith) (stays c)
  emits_left c (some old) earlier = emits c old (joined_group earlier old)

  emits_others :
      (c : StateCache) (others : HashMap GroupId (Option Group))
      → R (length others) c (emit_others c others)
  unfolding emit_others
  emits_others c [] = stays c
  emits_others c ((id, before) ∷ others) =
      let next = emit_if_changed c id before in
      p.loosens (1 + length others) (length ((id, before) ∷ others)) c (emit_others next others)
        (omega arith)
        (p.joins 1 (length others) c next (emit_others next others) (emits c id before)
          (emits_others next others))

  pub sends_removals :
      (c : StateCache) (ids : List GroupId) → R (length ids) c (send_removals c ids)
  unfolding send_removals
  sends_removals c [] = stays c
  sends_removals c (id ∷ ids) =
      let next = send_group_event c (group_removed id.as_str) in
      p.loosens (1 + length ids) (length (id ∷ ids)) c (send_removals next ids) (omega arith) (
        p.joins 1 (length ids) c next (send_removals next ids) (p.sends c (group_removed id.as_str))
          (sends_removals next ids))

  pub upserts_unit : (c : StateCache) (unit : ProtoUnit) → R 2 c (upsert_unit c unit)
  unfolding upsert_unit
  upserts_unit c unit =
      let id = group_id unit.group_id in
      let leaving = group_left c.inner (unit_id unit.id) id in
      let moved = move_unit c.inner leaving unit in
      let told = emit_if_changed (record c { inner = moved }) id (joined_group c.inner id) in
      p.joins 1 1 c told (emit_left told leaving c.inner)
        (tells c moved id (joined_group c.inner id) (move_unit-Untouched c.inner leaving unit))
        (emits_left told leaving c.inner)

  pub removes_unit : (c : StateCache) (id : UnitId) → R 1 c (remove_unit c id).0
  unfolding remove_unit
  removes_unit c id =
      let removed = record c.inner { units = HashMap.remove c.inner.units id } in
      elim (Option-cases (HashMap.get c.inner.units id)) [
        | inl e ↦
            rw (e, remove_unit)
              (p.loosens 0 1 c (record c { inner = removed }) (omega arith)
                (p.tables c removed (remove-Untouched c.inner id)))
        | inr (x, e) ↦
            let group = group_id x.group_id in
            rw (e, remove_unit)
              (tells c (unlink_member removed group id) group (joined_group c.inner group) (
                Untouched-trans c.inner removed (unlink_member removed group id)
                  (remove-Untouched c.inner id) (unlink_member-Untouched removed group id)))
      ]

  pub upserts_group : (c : StateCache) (group : Group) → R 2 c (upsert_group c group)
  unfolding upsert_group
  upserts_group c group =
      let bare = record group { units = [] } in
      let id = group_id group.id in
      let stored = replace_group_fields c id bare in
      p.joins 1 1 c stored (emit_if_changed stored id (joined_group c.inner id))
        (replaces c id bare) (emits stored id (joined_group c.inner id))

  pub upserts_group_with_units :
      (c : StateCache) (group : Group) (listed : List ProtoUnit)
      → R (2 + length (robbed c group listed)) c (upsert_group_with_units c group listed)
  unfolding upsert_group_with_units
  upserts_group_with_units c group listed =
      let bare = record group { units = [] } in
      let id = group_id group.id in
      let units = claim_units id listed in
      let others = robbed c group listed in
      let moved = record c { inner = replace_members c.inner id units } in
      let stored = replace_group_fields moved id bare in
      let told = emit_if_changed stored id (joined_group c.inner id) in
      p.joins 2 (length others) c told (emit_others told others)
        (p.joins 1 1 c stored told
          (p.joins 0 1 c moved stored
            (p.tables c moved.inner (replace_members-Untouched c.inner id units))
            (replaces moved id bare))
          (emits stored id (joined_group c.inner id)))
        (emits_others told others)

  pub removes_group : (c : StateCache) (id : GroupId) → R 1 c (remove_group c id).0
  unfolding remove_group
  removes_group c id =
      let erased = record c { inner = erase_group c.inner id } in
      elim (Option-cases (HashMap.get c.inner.groups id)) [
        | inl e ↦ rw (e, remove_group) (p.loosens 0 1 c c (omega arith) (stays c))
        | inr (x, e) ↦
            rw (e, remove_group)
              (p.joins 0 1 c erased (send_group_event erased (group_removed id.as_str))
                (p.tables c erased.inner (erase_group-Untouched c.inner id))
                (p.sends erased (group_removed id.as_str)))
      ]
