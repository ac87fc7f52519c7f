-- ===== src/Cache/Listed/Groups.antt =====
-- The groups that `list_groups` returns.
use minerva_server.Std.HashMap
use minerva_server.Std.HashMap.{HashMap, Distinct}
use minerva_server.Ids.{GroupId, group_id, group_id_key}
use minerva_server.Proto.Side.{Side, has_side}
use minerva_server.Proto.Groups.{Group}
use minerva_server.Cache.Inner.{Inner, joined_group, member_units}
use minerva_server.Cache.Writes.{new}
use minerva_server.Cache.Step.{Write, run}
use minerva_server.Cache.Index.{default-IsIndexed}
use minerva_server.Cache.Index.Writes.{run-new-IsIndexed}
use minerva_server.Cache.Unique.{run-IsUnique}
use minerva_server.Cache.Reads.{get_group, list_groups}
use minerva_server.Prelude.{
  ◌≡◌, ◌≢◌, ◌∙◌, ◌&&◌, refl, sym, ap, ite, if_pos, if_neg, Bool, Bool-cases, true, false, Option,
  none, some, List, [], ◌∷◌, filter, map, is_none_or, inl, inr, arith, if◌then◌else◌,
}

abbrev pub has_name : GroupId → Group → Bool
has_name id group = ite (group_id_key.same (group_id group.id) id) true false

-- The group, if there is one and it passes.
abbrev pub passing : (Group → Bool) → Option Group → List Group
passing p none = []
passing p (some group) = if p group then group ∷ [] else []

-- A filter before a map and one after it, of a list that starts with `x`.
filters :
    {A B : Type 0} (h : B → Bool) (f : A → B) (p : A → Bool) (x : A) (xs : List A)
    → let tail = filter h (map f (filter p xs)) in
      filter h (map f (filter p (x ∷ xs))) ≡ (if p x && h (f x) then f x ∷ tail else tail)
filters h f p x xs = elim (Bool-cases (p x)) [
  | inr a ↦ rw a refl
  | inl a ↦ elim (Bool-cases (h (f x))) [ inl c ↦ rw (a, c) refl | inr c ↦ rw (a, c) refl ]
]

has_name-own : (id : GroupId) (x : Group) → group_id x.id ≡ id → has_name id x ≡ true
has_name-own id x e = if_pos (group_id_key.same (group_id x.id) id) e true false

has_name-other : (id : GroupId) (x : Group) → group_id x.id ≢ id → has_name id x ≡ false
has_name-other id x n = if_neg (group_id_key.same (group_id x.id) id) n true false

module _ (i : Inner) (side : Option Side) (id : GroupId) where
  abbrev passes : Group → Bool
  passes group = is_none_or side (has_side group.side)

  abbrev join : GroupId × Group → Group
  join e = record e.1 { units = member_units i e.0 }

  abbrev kept : HashMap GroupId Group → List Group
  kept m = filter (has_name id) (map join (filter (λ (e : GroupId × Group). passes e.1) m))

  -- The group as it is joined, if it is there and passes.
  abbrev found : Option Group → List Group
  found o =
      passing passes (elim o as (λ y. Option Group) [ none ↦ none | some x ↦ some (join (id, x)) ])

  abbrev keeps : GroupId × Group → List Group → List Group
  keeps e tail = if passes e.1 && has_name id (join e) then join e ∷ tail else tail

  keeps-own : (x : Group) → has_name id x ≡ true → keeps (id, x) [] ≡ found (some x)
  keeps-own x e = elim (Bool-cases (passes x)) [ inr a ↦ rw a refl | inl a ↦ rw (a, e) refl ]

  keeps-other :
      (e : GroupId × Group) (tail : List Group) → has_name id e.1 ≡ false → keeps e tail ≡ tail
  keeps-other e tail other = elim (Bool-cases (passes e.1)) [
    | inr a ↦ rw a refl
    | inl a ↦ rw (a, other) refl
  ]

  kept-get :
      (m : HashMap GroupId Group)
      → Distinct m
      → ((g : GroupId) (x : Group) → HashMap.get m g ≡ some x → group_id x.id ≡ g)
      → kept m ≡ found (HashMap.get m id)
  unfolding HashMap.get
  kept-get [] d named = refl
  kept-get ((a, x) ∷ m) d named =
      let own = named a x (if_pos (group_id_key.same a a) refl (some x) (HashMap.get m a)) in
      let rest : (g : GroupId) (y : Group) → HashMap.get m g ≡ some y → group_id y.id ≡ g =
        λ g y e. ground (arith, named g y) in
      let known = kept-get m d.1 rest in
      filters (has_name id) join (λ (e : GroupId × Group). passes e.1) (a, x) m
      ∙ elim (group_id_key.same a id)
          as (λ s. keeps (a, x) (kept m) ≡ found (ite s (some x) (HashMap.get m id))) [
            | yes e ↦
                ap (keeps (a, x)) (known ∙ ap found (sym (ap (HashMap.get m) e) ∙ d.0))
                ∙ ap (λ (g : GroupId). keeps (g, x) []) e
                ∙ keeps-own x (has_name-own id x (own ∙ e))
            | no n ↦
                keeps-other (a, x) (kept m) (has_name-other id x (λ e. n (sym own ∙ e))) ∙ known
          ]

-- After any writes to a new cache, with or without a filter by side: a list of groups holds each
-- cached group that passes exactly once, joined with its units as when it is read alone, and no
-- other group.
pub list_groups-get :
    (ws : List Write) (side : Option Side) (id : GroupId)
    → let c = run new ws in
      let passes = λ (group : Group). is_none_or side (has_side group.side) in
      filter (has_name id) (list_groups c side) ≡ passing passes (get_group c id)
unfolding list_groups get_group joined_group
list_groups-get ws side id =
    let c = run new ws in
    kept-get c.inner side id c.inner.groups
      (run-IsUnique new ws default-IsIndexed (record { unique = tt })).unique
      (run-new-IsIndexed ws).named
