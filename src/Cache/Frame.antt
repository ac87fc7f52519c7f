-- ===== src/Cache/Frame.antt =====
-- What a group's joined view depends on: its stored fields, and the units that name it.
use minerva_server.Std.HashMap
use minerva_server.Std.BTreeSet.{BTreeSet, contains, Sorted-ext}
use minerva_server.Ids.{UnitId, GroupId, group_id, unit_id_key, group_id_key}
use minerva_server.Proto.Units.{ProtoUnit}
use minerva_server.Proto.Groups.{Group}
use minerva_server.Cache.Inner.{Inner, member_ids, member_units, joined_group}
use minerva_server.Cache.Index.{IsIndexed, in_group, belongs}
use minerva_server.Prelude.{
  ℕ, Option-cases, inl, inr, ◌≡◌, refl, sym, ◌∙◌, true, Option, none, some, [], ◌∷◌, filter_map,
  if◌then◌else◌, arith,
}

-- The unit, if it is in the group.
abbrev pub restrict : Option ProtoUnit → GroupId → Option ProtoUnit
restrict o g = if in_group o g then o else none

filter_map_congr :
    (f h : UnitId → Option ProtoUnit) (s : BTreeSet UnitId)
    → ((u : UnitId) → contains s u ≡ true → f u ≡ h u)
    → filter_map f s ≡ filter_map h s
unfolding contains
filter_map_congr f h [] e = refl
filter_map_congr f h (x ∷ s) e =
    ground (arith, e x, filter_map_congr f h s (λ u m. e u (ground arith)))

module _ (i j : Inner) (v : IsIndexed i) (w : IsIndexed j) (g : GroupId)
    (same : (u : UnitId)
      → restrict (HashMap.get i.units u) g ≡ restrict (HashMap.get j.units u) g) where
  same_belongs : (u : UnitId) → belongs i u g ≡ belongs j u g
  same_belongs u = ground (arith, same u)

  pub member_ids_frame : member_ids i g ≡ member_ids j g
  member_ids_frame =
      Sorted-ext (member_ids i g) (member_ids j g) (v.sorted g) (w.sorted g)
        (λ u. v.index g u ∙ same_belongs u ∙ sym (w.index g u))

  pub member_units_frame : member_units i g ≡ member_units j g
  unfolding member_units
  member_units_frame = rw member_ids_frame (
      filter_map_congr (HashMap.get i.units) (HashMap.get j.units) (member_ids j g)
        (λ u m. ground (arith, same u, same_belongs u, w.index g u)))

  -- With the same stored fields and the same units that name it, a group has the same view.
  pub joined_group_frame :
      HashMap.get i.groups g ≡ HashMap.get j.groups g → joined_group i g ≡ joined_group j g
  unfolding joined_group
  joined_group_frame e = ground (arith, member_units_frame)

-- The sequence number is not part of a view.
pub joined_group-sequence :
    (i : Inner) (n : ℕ) (g : GroupId)
    → joined_group (record i { sequence = n }) g ≡ joined_group i g
unfolding joined_group member_units member_ids
joined_group-sequence i n g = refl

pub joined_group-name :
    (i : Inner) (v : IsIndexed i) (g : GroupId) (group : Group)
    → joined_group i g ≡ some group
    → group_id group.id ≡ g
unfolding joined_group
joined_group-name i v g group e = elim (Option-cases (HashMap.get i.groups g)) [
  | inl absent ↦ ground arith
  | inr (x, stored) ↦ ground (arith, v.named g x stored)
]

pub joined_group-stored :
    (i : Inner) (g : GroupId) (x : Group)
    → HashMap.get i.groups g ≡ some x
    → joined_group i g ≡ some (record x { units = member_units i g })
unfolding joined_group
joined_group-stored i g x e = ground arith

pub joined_group-absent :
    (i : Inner) (g : GroupId) → HashMap.get i.groups g ≡ none → joined_group i g ≡ none
unfolding joined_group
joined_group-absent i g e = ground arith
