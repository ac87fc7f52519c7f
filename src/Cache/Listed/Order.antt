-- ===== src/Cache/Listed/Order.antt =====
-- The order of the groups that `list_groups` returns is the table's.
use mathlib.Core.List.{Permᴰ, Perm}
use minerva_server.Std.HashMap
use minerva_server.Std.HashMap.{HashMap, Distinct}
use minerva_server.Std.Reorder.{get-Perm, map-Perm, filter-Perm}
use minerva_server.Ids.{GroupId, group_id_key}
use minerva_server.Proto.Side.{Side, has_side}
use minerva_server.Proto.Groups.{Group}
use minerva_server.Cache.Inner.{Inner, joined_group, member_units}
use minerva_server.Cache.Writes.{StateCache}
use minerva_server.Cache.Unique.{IsUnique}
use minerva_server.Cache.Reads.{get_group, list_groups}
use minerva_server.Prelude.{
  ◌≡◌, refl, sym, ◌∙◌, ap, Bool, Bool-cases, Option, none, some, [], ◌∷◌, filter, map, is_none_or,
  inl, inr, arith,
}

abbrev admits : Option Side → GroupId × Group → Bool
admits side e = is_none_or side (has_side (e.1).side)

module _ (i : Inner) where
  -- The table with the joined views in place of the stored groups.
  abbrev views : HashMap GroupId Group → HashMap GroupId Group
  views = map (λ e. (e.0, record e.1 { units = member_units i e.0 }))

  get-views :
      (m : HashMap GroupId Group) (g : GroupId)
      → HashMap.get (views m) g ≡ (elim (HashMap.get m g) as (λ o. Option Group) [
        | none ↦ none
        | some group ↦ some (record group { units = member_units i g })
      ])
  unfolding HashMap.get
  get-views [] g = refl
  get-views ((h, group) ∷ m) g = ground (arith, get-views m g)

  views-Distinct : (m : HashMap GroupId Group) → Distinct m → Distinct (views m)
  views-Distinct [] d = tt
  views-Distinct ((h, group) ∷ m) d = (ground (arith, get-views m h, d.0), views-Distinct m d.1)

  list-views :
      (side : Option Side) (m : HashMap GroupId Group)
      → map
          (λ e. record e.1 { units = member_units i e.0 })
          (filter (λ e. is_none_or side (has_side (e.1).side)) m)
        ≡ map (λ e. e.1) (filter (admits side) (views m))
  list-views side [] = refl
  list-views side ((h, group) ∷ m) = elim (Bool-cases (is_none_or side (has_side group.side))) [
    | inl p ↦ rw p (ap (λ l. record group { units = member_units i h } ∷ l) (list-views side m))
    | inr p ↦ rw p (list-views side m)
  ]

same_views :
    (i j : Inner)
    → IsUnique i
    → IsUnique j
    → ((g : GroupId) → joined_group i g ≡ joined_group j g)
    → Permᴰ (views i i.groups) (views j j.groups)
unfolding joined_group
same_views i j u v same =
    get-Perm (views i i.groups) (views j j.groups) (views-Distinct i i.groups u.unique)
      (views-Distinct j j.groups v.unique)
      (λ g. get-views i i.groups g ∙ same g ∙ sym (get-views j j.groups g))

-- Two caches with no group stored twice, whose tables may hold and visit the groups in any order,
-- and which give the same joined view of every group: their lists of groups, with any side filter,
-- are the same up to order.
pub list_groups-Perm :
    (c d : StateCache) (side : Option Side)
    → IsUnique c.inner
    → IsUnique d.inner
    → ((g : GroupId) → get_group c g ≡ get_group d g)
    → Perm (list_groups c side) (list_groups d side)
unfolding get_group list_groups
list_groups-Perm c d side u v same =
    let permuted =
      map-Perm (λ (e : GroupId × Group). e.1)
        (filter-Perm (admits side) (same_views c.inner d.inner u v same)) in
    rw (list-views c.inner side c.inner.groups, list-views d.inner side d.inner.groups)
      (∣ permuted ∣₁)
