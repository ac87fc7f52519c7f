-- ===== src/Cache/Emit.antt =====
-- What the broadcasts of a write do to the tables: only the sequence number moves.
use minerva_server.Std.PartialEq.{◌==◌, option_partial_eq}
use minerva_server.Std.Num.{int_eq}
use minerva_server.Std.HashMap
use minerva_server.Std.HashMap.{HashMap}
use minerva_server.Ids.{GroupId, group_id_key}
use minerva_server.Proto.Groups.{Group, group_partial_eq, SubscribeGroupUpdatesResponse}
use minerva_server.Cache.Inner.{Inner, joined_group, next_sequence}
use minerva_server.Cache.Writes.{
  StateCache, send_group_event, emit_if_changed, replace_group_fields, changed_response,
  group_removed,
}
use minerva_server.Cache.Groups.{emit_others}
use minerva_server.Cache.Resets.{send_removals}
use minerva_server.Prelude.{
  ℕ, ◌≡◌, refl, ap, ◌∙◌, Option, List, [], ◌∷◌, Bool-cases, Option-cases, inl, inr,
}

-- The second is the first but for the sequence number.
abbrev pub SameTables : Inner → Inner → Type 0
SameTables i j = (n : ℕ) × (j ≡ record i { sequence = n })

pub SameTables-refl : (i : Inner) → SameTables i i
SameTables-refl i = (i.sequence, refl)

pub SameTables-trans : (i j k : Inner) → SameTables i j → SameTables j k → SameTables i k
SameTables-trans i j k s t = (t.0, t.1 ∙ ap (λ (x : Inner). record x { sequence = t.0 }) s.1)

pub send-SameTables :
    (c : StateCache) (r : SubscribeGroupUpdatesResponse)
    → SameTables c.inner (send_group_event c r).inner
unfolding send_group_event next_sequence
send-SameTables c r = (_, refl)

pub emit-SameTables :
    (c : StateCache) (id : GroupId) (before : Option Group)
    → SameTables c.inner (emit_if_changed c id before).inner
unfolding emit_if_changed
emit-SameTables c id before = elim (Bool-cases (joined_group c.inner id == before)) [
  | inl same ↦ rw same (SameTables-refl c.inner)
  | inr changed ↦ rw changed (send-SameTables c (changed_response (joined_group c.inner id) id))
]

pub emit_others-SameTables :
    (c : StateCache) (others : HashMap GroupId (Option Group))
    → SameTables c.inner (emit_others c others).inner
unfolding emit_others
emit_others-SameTables c [] = SameTables-refl c.inner
emit_others-SameTables c ((id, before) ∷ others) =
    let next = emit_if_changed c id before in
    SameTables-trans c.inner next.inner (emit_others next others).inner
      (emit-SameTables c id before) (emit_others-SameTables next others)

pub send_removals-SameTables :
    (c : StateCache) (ids : List GroupId) → SameTables c.inner (send_removals c ids).inner
unfolding send_removals
send_removals-SameTables c [] = SameTables-refl c.inner
send_removals-SameTables c (id ∷ ids) =
    let next = send_group_event c (group_removed id.as_str) in
    SameTables-trans c.inner next.inner (send_removals next ids).inner
      (send-SameTables c (group_removed id.as_str)) (send_removals-SameTables next ids)

pub replace-SameTables :
    (c : StateCache) (id : GroupId) (group : Group)
    → SameTables
        (record c.inner { groups = HashMap.insert c.inner.groups id group })
        (replace_group_fields c id group).inner
unfolding replace_group_fields
replace-SameTables c id group =
    let inserted = record c.inner { groups = HashMap.insert c.inner.groups id group } in
    elim (Option-cases (HashMap.get c.inner.groups id)) [
      | inl e ↦ rw (e, replace_group_fields) (SameTables-refl inserted)
      | inr (existing, e) ↦
          rw (e, replace_group_fields)
            (elim (Bool-cases (int_eq existing.side group.side)) [
              | inl same ↦ rw same (SameTables-refl inserted)
              | inr other ↦
                  rw other
                    (send-SameTables (record c { inner = inserted }) (group_removed group.id))
            ])
    ]
