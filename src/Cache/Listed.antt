-- ===== src/Cache/Listed.antt =====
-- The units that `list_units` returns.
pub mod Groups
pub mod Order
use minerva_server.Std.HashMap
use minerva_server.Std.HashMap.{HashMap, Distinct}
use minerva_server.Ids.{UnitId, GroupId, unit_id, unit_id_key}
use minerva_server.Proto.Side.{Side}
use minerva_server.Proto.Units.{ProtoUnit}
use minerva_server.Cache.Inner.{default, next_sequence}
use minerva_server.Cache.Writes.{StateCache, new, send_group_event, send_simulation_event}
use minerva_server.Cache.Resets.{set_simulation_info, set_simulation_state, set_locations, clear}
use minerva_server.Cache.Step.{
  Write, upserts_unit, removes_unit, upserts_group, upserts_group_with_units, removes_group,
  sets_info, sets_state, sets_locations, clears, step, run,
}
use minerva_server.Cache.Passage
use minerva_server.Cache.Passage.{Passage}
use minerva_server.Cache.Index.Writes.{run-new-IsIndexed}
use minerva_server.Cache.Reads.{get_unit, list_units, unit_has_side}
use minerva_server.Prelude.{
  ◌≡◌, ◌&&◌, refl, sym, ap, ite, if_pos, Bool, Bool-cases, true, false, Option, none, some, List,
  [], ◌∷◌, ◌≢◌, ◌∙◌, if_neg, filter, is_none_or, string_eq, inl, inr, arith, if◌then◌else◌,
}

-- No unit comes to stand twice.
Distinct-Passage : Passage (λ n c d. Distinct c.inner.units → Distinct d.inner.units)
unfolding send_group_event next_sequence
Distinct-Passage = record {
  tables = λ c i u. u.4;
  sends = λ c response d. d;
  joins = λ m n c d e f g u. g (f u);
  loosens = λ m n c d h f. f;
}

step-Distinct :
    (c : StateCache) (w : Write) → Distinct c.inner.units → Distinct (step c w).inner.units
unfolding step set_simulation_info set_simulation_state set_locations clear send_simulation_event
    next_sequence
step-Distinct c (upserts_unit unit) = Passage.upserts_unit Distinct-Passage c unit
step-Distinct c (removes_unit id) = Passage.removes_unit Distinct-Passage c id
step-Distinct c (upserts_group group) = Passage.upserts_group Distinct-Passage c group
step-Distinct c (upserts_group_with_units group units) =
    Passage.upserts_group_with_units Distinct-Passage c group units
step-Distinct c (removes_group id) = Passage.removes_group Distinct-Passage c id
step-Distinct c (sets_info info) = λ d. d
step-Distinct c (sets_state state) = λ d. d
step-Distinct c (sets_locations locations) = λ d. d
step-Distinct c clears = λ d.
    Passage.sends_removals Distinct-Passage
      (record c { inner = record default { sequence = c.inner.sequence } })
      (HashMap.keys c.inner.groups) tt

run-Distinct :
    (c : StateCache) (ws : List Write) → Distinct c.inner.units → Distinct (run c ws).inner.units
unfolding run
run-Distinct c [] d = d
run-Distinct c (w ∷ ws) d = run-Distinct (step c w) ws (step-Distinct c w d)

abbrev pub has_id : UnitId → ProtoUnit → Bool
has_id id unit = ite (unit_id_key.same (unit_id unit.id) id) true false

-- The unit, if there is one and it passes.
abbrev pub passing : (ProtoUnit → Bool) → Option ProtoUnit → List ProtoUnit
passing p none = []
passing p (some unit) = if p unit then unit ∷ [] else []

-- Three filters of a list that starts with `x`.
filters :
    {A : Type 0} (h p q : A → Bool) (x : A) (xs : List A)
    → let tail = filter h (filter p (filter q xs)) in
      filter h (filter p (filter q (x ∷ xs))) ≡ (if (p x && q x) && h x then x ∷ tail else tail)
filters h p q x xs = elim (Bool-cases (q x)) [
  | inr b ↦ elim (Bool-cases (p x)) [ inl a ↦ rw (b, a) refl | inr a ↦ rw (b, a) refl ]
  | inl b ↦ elim (Bool-cases (p x)) [
    | inr a ↦ rw (b, a) refl
    | inl a ↦ elim (Bool-cases (h x)) [ inl c ↦ rw (b, a, c) refl | inr c ↦ rw (b, a, c) refl ]
  ]
]

has_id-own : (id : UnitId) (x : ProtoUnit) → unit_id x.id ≡ id → has_id id x ≡ true
has_id-own id x e = if_pos (unit_id_key.same (unit_id x.id) id) e true false

has_id-other : (id : UnitId) (x : ProtoUnit) → unit_id x.id ≢ id → has_id id x ≡ false
has_id-other id x n = if_neg (unit_id_key.same (unit_id x.id) id) n true false

module _ (p q : ProtoUnit → Bool) (id : UnitId) where
  -- What is kept of the entry of `x`, before what is kept of the others.
  abbrev keeps : ProtoUnit → List ProtoUnit → List ProtoUnit
  keeps x tail = if (p x && q x) && has_id id x then x ∷ tail else tail

  keeps-own : (x : ProtoUnit) → has_id id x ≡ true → keeps x [] ≡ passing (λ u. p u && q u) (some x)
  keeps-own x e = elim (Bool-cases (p x)) [
    | inr a ↦ rw a refl
    | inl a ↦ elim (Bool-cases (q x)) [ inl b ↦ rw (a, b, e) refl | inr b ↦ rw (a, b) refl ]
  ]

  keeps-other : (x : ProtoUnit) (tail : List ProtoUnit) → has_id id x ≡ false → keeps x tail ≡ tail
  keeps-other x tail e = elim (Bool-cases (p x)) [
    | inr a ↦ rw a refl
    | inl a ↦ elim (Bool-cases (q x)) [ inl b ↦ rw (a, b, e) refl | inr b ↦ rw (a, b) refl ]
  ]

  filter-values :
      (m : HashMap UnitId ProtoUnit)
      → Distinct m
      → ((u : UnitId) (x : ProtoUnit) → HashMap.get m u ≡ some x → unit_id x.id ≡ u)
      → filter (has_id id) (filter p (filter q (HashMap.values m)))
        ≡ passing (λ u. p u && q u) (HashMap.get m id)
  unfolding HashMap.get
  filter-values [] d keyed = refl
  filter-values ((a, x) ∷ m) d keyed =
      let own = keyed a x (if_pos (unit_id_key.same a a) refl (some x) (HashMap.get m a)) in
      let rest : (u : UnitId) (y : ProtoUnit) → HashMap.get m u ≡ some y → unit_id y.id ≡ u =
        λ u y e. ground (arith, keyed u y) in
      let known = filter-values m d.1 rest in
      let found = λ (o : Option ProtoUnit). passing (λ u. p u && q u) o in
      filters (has_id id) p q x (HashMap.values m)
      ∙ elim (unit_id_key.same a id)
          as (λ s.
            keeps x (filter (has_id id) (filter p (filter q (HashMap.values m))))
            ≡ found (ite s (some x) (HashMap.get m id))) [
              | yes e ↦
                  ap (keeps x) (known ∙ ap found (sym (ap (HashMap.get m) e) ∙ d.0))
                  ∙ keeps-own x (has_id-own id x (own ∙ e))
              | no n ↦
                  keeps-other x (filter (has_id id) (filter p (filter q (HashMap.values m))))
                    (has_id-other id x (λ e. n (sym own ∙ e)))
                  ∙ known
            ]

-- After any writes to a new cache, with or without a filter by side and one by group: a list of
-- units holds each cached unit that passes exactly once, as it is cached, and no other unit.
pub list_units-get :
    (ws : List Write) (side : Option Side) (group : Option GroupId) (id : UnitId)
    → let c = run new ws in
      let passes = λ (u : ProtoUnit).
        is_none_or side (unit_has_side c.inner u)
        && is_none_or group (λ (g : GroupId). string_eq u.group_id g.as_str) in
      filter (has_id id) (list_units c side group) ≡ passing passes (get_unit c id)
unfolding list_units get_unit
list_units-get ws side group id =
    let c = run new ws in
    filter-values (λ u. is_none_or side (unit_has_side c.inner u))
      (λ u. is_none_or group (λ (g : GroupId). string_eq u.group_id g.as_str)) id c.inner.units
      (run-Distinct new ws tt) (run-new-IsIndexed ws).keyed
