-- ===== src/Cache/Tables.antt =====
-- What the changes of the tables do to the other fields.
use minerva_server.Std.PartialEq.{option_partial_eq}
use minerva_server.Std.HashMap
use minerva_server.Std.HashMap.{HashMap, Distinct, remove-Distinct, insert-Distinct}
use minerva_server.Std.BTreeSet
use minerva_server.Ids.{UnitId, GroupId, unit_id, unit_id_key, group_id_key}
use minerva_server.Proto.Units.{ProtoUnit}
use minerva_server.Proto.Groups.{group_partial_eq}
use minerva_server.Cache.Inner.{Inner, unlink_member, link_member, member_ids}
use minerva_server.Cache.Index.{units-unlink_member}
use minerva_server.Cache.Writes.{move_unit, detach, group_left}
use minerva_server.Cache.Groups.{
  replace_members, erase_group, drop_units, detach_units, insert_units, unit_ids,
}
use minerva_server.Prelude.{◌≡◌, refl, sym, subst, ◌∙◌, Option, none, some, List, [], ◌∷◌, arith}

-- Only units, groups and the index differ, and no unit comes to stand twice.
abbrev pub Untouched : Inner → Inner → Type 0
Untouched i j =
    (j.sequence ≡ i.sequence)
    × (j.simulation_info ≡ i.simulation_info)
    × (j.simulation_state ≡ i.simulation_state)
    × (j.locations ≡ i.locations)
    × (Distinct i.units → Distinct j.units)

pub Untouched-refl : (i : Inner) → Untouched i i
Untouched-refl i = (refl, refl, refl, refl, λ d. d)

pub Untouched-trans : (i j k : Inner) → Untouched i j → Untouched j k → Untouched i k
Untouched-trans i j k a b = (b.0 ∙ a.0, b.1 ∙ a.1, b.2 ∙ a.2, b.3 ∙ a.3, λ d. b.4 (a.4 d))

pub remove-Untouched :
    (i : Inner) (u : UnitId) → Untouched i (record i { units = HashMap.remove i.units u })
remove-Untouched i u = (refl, refl, refl, refl, λ d. remove-Distinct i.units u d)

insert-Untouched :
    (i : Inner) (x : ProtoUnit)
    → Untouched i (record i { units = HashMap.insert i.units (unit_id x.id) x })
insert-Untouched i x = (refl, refl, refl, refl, λ d. insert-Distinct i.units (unit_id x.id) x d)

pub unlink_member-Untouched :
    (i : Inner) (g : GroupId) (u : UnitId) → Untouched i (unlink_member i g u)
unfolding unlink_member
unlink_member-Untouched i g u = (
  ground arith,
  ground arith,
  ground arith,
  ground arith,
  λ d. subst (λ m. Distinct m) (sym (units-unlink_member i g u)) d,
)

detach-Untouched : (i : Inner) (o : Option GroupId) (u : UnitId) → Untouched i (detach i o u)
unfolding detach
detach-Untouched i none u = Untouched-refl i
detach-Untouched i (some g) u = unlink_member-Untouched i g u

drop_units-Untouched : (i : Inner) (ids : List UnitId) → Untouched i (drop_units i ids)
unfolding drop_units
drop_units-Untouched i [] = Untouched-refl i
drop_units-Untouched i (u ∷ us) =
    let next = record i { units = HashMap.remove i.units u } in
    Untouched-trans i next (drop_units next us) (remove-Untouched i u)
      (drop_units-Untouched next us)

insert_units-Untouched : (i : Inner) (xs : List ProtoUnit) → Untouched i (insert_units i xs)
unfolding insert_units
insert_units-Untouched i [] = Untouched-refl i
insert_units-Untouched i (x ∷ xs) =
    let next = record i { units = HashMap.insert i.units (unit_id x.id) x } in
    Untouched-trans i next (insert_units next xs) (insert-Untouched i x)
      (insert_units-Untouched next xs)

detach_units-Untouched :
    (i : Inner) (g : GroupId) (xs : List ProtoUnit) → Untouched i (detach_units i g xs)
unfolding detach_units
detach_units-Untouched i g [] = Untouched-refl i
detach_units-Untouched i g (x ∷ xs) =
    let leaving = group_left i (unit_id x.id) g in
    let next = detach i leaving (unit_id x.id) in
    Untouched-trans i next (detach_units next g xs) (detach-Untouched i leaving (unit_id x.id))
      (detach_units-Untouched next g xs)

pub replace_members-Untouched :
    (i : Inner) (g : GroupId) (xs : List ProtoUnit) → Untouched i (replace_members i g xs)
unfolding replace_members
replace_members-Untouched i g xs =
    let rest = BTreeSet.difference (member_ids i g) (unit_ids xs) in
    let dropped = drop_units i rest in
    let detached = detach_units dropped g xs in
    let linked = record detached { members = HashMap.insert detached.members g (unit_ids xs) } in
    Untouched-trans i dropped (insert_units linked xs) (drop_units-Untouched i rest) (
      Untouched-trans dropped detached (insert_units linked xs)
        (detach_units-Untouched dropped g xs) (insert_units-Untouched linked xs))

pub erase_group-Untouched : (i : Inner) (g : GroupId) → Untouched i (erase_group i g)
unfolding erase_group
erase_group-Untouched i g =
    drop_units-Untouched
      (record i { groups = HashMap.remove i.groups g; members = HashMap.remove i.members g })
      (member_ids i g)

pub move_unit-Untouched :
    (i : Inner) (o : Option GroupId) (x : ProtoUnit) → Untouched i (move_unit i o x)
unfolding move_unit link_member
move_unit-Untouched i o x =
    let left = detach i o (unit_id x.id) in
    let stored = record left { units = HashMap.insert left.units (unit_id x.id) x } in
    Untouched-trans i left stored (detach-Untouched i o (unit_id x.id)) (insert-Untouched left x)
