-- ===== src/Cache/Repeat.antt =====
-- A write that is repeated at once.
pub mod Writes
use minerva_server.Std.PartialEq.{◌==◌, option_partial_eq}
use minerva_server.Std.Num.{int_eq_iff}
use minerva_server.Std.HashMap
use minerva_server.Std.HashMap.{HashMap, get-remove, get-insert}
use minerva_server.Ids.{UnitId, GroupId, unit_id, group_id, unit_id_key, group_id_key}
use minerva_server.Proto.Units.{ProtoUnit}
use minerva_server.Proto.Groups.{Group, group_partial_eq}
use minerva_server.Cache.Inner.{Inner, joined_group}
use minerva_server.Cache.Writes.{
  StateCache, upsert_unit, upsert_group, move_unit, group_left, emit_if_changed, emit_left,
  replace_group_fields,
}
use minerva_server.Cache.Groups.{
  upsert_group_with_units, remove_group, replace_members, claim_units, emit_others, snapshot_others,
}
use minerva_server.Cache.Loops.{listed, listed-claim_units}
use minerva_server.Cache.Index.{IsIndexed, in_group}
use minerva_server.Cache.Index.Units.{get-move_unit, groups-move_unit, move_unit-IsIndexed}
use minerva_server.Cache.Index.Groups.{
  get-replace_members, groups-replaced, replace_members-IsIndexed,
}
use minerva_server.Cache.Index.Writes.{insert_group-IsIndexed}
use minerva_server.Cache.Frame.{restrict, joined_group_frame}
use minerva_server.Prelude.{
  ◌≡◌, ◌≢◌, refl, ◌∙◌, ap, true, Option, Option-cases, none, some, List, [], ◌∷◌, inl, inr, arith,
  if◌then◌else◌,
}

-- Every view equals itself: no float in it is NaN.
abbrev pub IsReflexive : Inner → Type 0
IsReflexive i = (g : GroupId) → (joined_group i g == joined_group i g) ≡ true

-- A view that has not changed is not sent.
emit_quiet :
    (c : StateCache) (id : GroupId) (before : Option Group)
    → joined_group c.inner id ≡ before
    → (before == before) ≡ true
    → emit_if_changed c id before ≡ c
unfolding emit_if_changed
emit_quiet c id before same self = rw (same, self) refl

-- A unit that is cached is written again.
module _ (c : StateCache) (v : IsIndexed c.inner) (self : IsReflexive c.inner) (unit : ProtoUnit)
    (held : HashMap.get c.inner.units (unit_id unit.id) ≡ some unit) where
  abbrev leaving : Option GroupId
  leaving = group_left c.inner (unit_id unit.id) (group_id unit.group_id)

  leaves_none : leaving ≡ none
  unfolding group_left
  leaves_none = ground arith

  view-moved :
      (g : GroupId) → joined_group (move_unit c.inner leaving unit) g ≡ joined_group c.inner g
  view-moved g =
      joined_group_frame (move_unit c.inner leaving unit) c.inner
        (move_unit-IsIndexed c.inner v unit) v g
        (λ u. ground (arith, get-move_unit c.inner leaving unit u))
        (ap (λ m. HashMap.get m g) (groups-move_unit c.inner leaving unit))

  pub upsert_unit_again : (upsert_unit c unit).group_updates ≡ c.group_updates
  unfolding upsert_unit emit_left
  upsert_unit_again =
      let id = group_id unit.group_id in
      let moved = record c { inner = move_unit c.inner leaving unit } in
      ap (λ (x : StateCache). (emit_left x leaving c.inner).group_updates)
        (emit_quiet moved id (joined_group c.inner id) (view-moved id) (self id))
      ∙ ap (λ o. (emit_left moved o c.inner).group_updates) leaves_none

-- A group that is cached is stored again.
module _ (c : StateCache) (v : IsIndexed c.inner) (group : Group)
    (held : HashMap.get c.inner.groups (group_id group.id)
      ≡ some (record group { units = [] })) where
  abbrev bare : Group
  bare = record group { units = [] }

  abbrev stored : StateCache
  stored = record c {
    inner = record c.inner { groups = HashMap.insert c.inner.groups (group_id group.id) bare };
  }

  replace_again : replace_group_fields c (group_id group.id) bare ≡ stored
  unfolding replace_group_fields
  replace_again = rw (held, replace_group_fields, (int_eq_iff group.side group.side).1 refl) refl

  view-stored : (g : GroupId) → joined_group stored.inner g ≡ joined_group c.inner g
  view-stored g =
      joined_group_frame stored.inner c.inner (insert_group-IsIndexed c.inner bare v) v g
        (λ u. refl) (ground (arith, get-insert c.inner.groups (group_id group.id) g bare))

  store_again :
      (before : Option Group)
      → joined_group c.inner (group_id group.id) ≡ before
      → (before == before) ≡ true
      → emit_if_changed (replace_group_fields c (group_id group.id) bare) (group_id group.id) before
        ≡ stored
  store_again before same self =
      ap (λ (x : StateCache). emit_if_changed x (group_id group.id) before) replace_again
      ∙ emit_quiet stored (group_id group.id) before (view-stored (group_id group.id) ∙ same) self

  pub upsert_group_again :
      IsReflexive c.inner → (upsert_group c group).group_updates ≡ c.group_updates
  unfolding upsert_group
  upsert_group_again self =
      ap (λ (x : StateCache). x.group_updates)
        (store_again (joined_group c.inner (group_id group.id)) refl (self (group_id group.id)))

-- Units that leave no other group: none is looked at.
snapshot_others-none :
    (inner : Inner) (g : GroupId) (units : List ProtoUnit) (before : HashMap GroupId (Option Group))
    → ((u : UnitId) → listed units u ≢ none → group_left inner u g ≡ none)
    → snapshot_others inner g units before ≡ before
unfolding snapshot_others
snapshot_others-none inner g [] before stay = refl
snapshot_others-none inner g (x ∷ xs) before stay =
    rw (stay (unit_id x.id) (ground arith))
      (snapshot_others-none inner g xs before (λ u l. stay u (ground arith)))

-- A group that is cached with exactly the listed units is written again with them.
module _ (c : StateCache) (v : IsIndexed c.inner) (group : Group) (units : List ProtoUnit)
    (held : HashMap.get c.inner.groups (group_id group.id) ≡ some (record group { units = [] }))
    (lists : (u : UnitId)
      → HashMap.get c.inner.units u ≡ (elim (listed (claim_units (group_id group.id) units) u) [
        | none ↦
            if in_group (HashMap.get c.inner.units u) (group_id group.id)
            then none
            else HashMap.get c.inner.units u
        | some y ↦ some y
      ])) where
  abbrev own : GroupId
  own = group_id group.id

  abbrev claimed : List ProtoUnit
  claimed = claim_units own units

  abbrev moved : StateCache
  moved = record c { inner = replace_members c.inner own claimed }

  get-moved : (u : UnitId) → HashMap.get moved.inner.units u ≡ HashMap.get c.inner.units u
  get-moved u = ground (arith, get-replace_members c.inner own claimed u, lists u, v.index own u)

  view-replaced : (g : GroupId) → joined_group moved.inner g ≡ joined_group c.inner g
  view-replaced g =
      joined_group_frame moved.inner c.inner (replace_members-IsIndexed c.inner v own units) v g
        (λ u. ap (λ o. restrict o g) (get-moved u))
        (ap (λ m. HashMap.get m g) (groups-replaced c.inner v own units))

  stays : (u : UnitId) → listed claimed u ≢ none → group_left c.inner u own ≡ none
  unfolding group_left
  stays u l = elim (Option-cases (listed claimed u)) [
    | inl e ↦ absurd (l e)
    | inr (y, e) ↦ ground (arith, lists u, listed-claim_units own units u y)
  ]

  pub upsert_group_with_units_again :
      IsReflexive c.inner → (upsert_group_with_units c group units).group_updates ≡ c.group_updates
  unfolding upsert_group_with_units emit_others
  upsert_group_with_units_again self =
      let still = ap (λ m. HashMap.get m own) (groups-replaced c.inner v own units) ∙ held in
      ap
        (λ o.
          (emit_others
            (emit_if_changed (replace_group_fields moved own (record group { units = [] })) own
              (joined_group c.inner own))
            o).group_updates)
        (snapshot_others-none c.inner own claimed [] stays)
      ∙ ap (λ (x : StateCache). x.group_updates)
          (store_again moved (replace_members-IsIndexed c.inner v own units) group still
            (joined_group c.inner own) (view-replaced own) (self own))
