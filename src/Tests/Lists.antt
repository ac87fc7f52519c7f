-- ===== src/Tests/Lists.antt =====
-- The list reads of a small mission.
use mathlib.Core.List.{Perm}
use minerva_server.Std.HashMap
use minerva_server.Ids.{GroupId, unit_id, group_id, unit_id_key, group_id_key}
use minerva_server.Proto.Side
use minerva_server.Proto.Side.{has_side}
use minerva_server.Proto.Units.{ProtoUnit}
use minerva_server.Proto.Groups.{Group}
use minerva_server.Cache.Inner.{default, joined_group, member_units, member_ids}
use minerva_server.Cache.Writes
use minerva_server.Cache.Writes.{StateCache}
use minerva_server.Cache.Reads.{get_unit, get_group, list_units, list_groups, unit_has_side}
use minerva_server.Cache.Step.{run}
use minerva_server.Cache.Unique.{IsUnique}
use minerva_server.Cache.Listed.{list_units-get, has_id, passing}
use minerva_server.Cache.Listed.Groups
use minerva_server.Cache.Listed.Groups.{list_groups-get, has_name}
use minerva_server.Cache.Listed.Order.{list_groups-Perm}
use minerva_server.Tests.{opening, alpha, bravo}
use minerva_server.Prelude.{
  ◌≡◌, ◌≢◌, refl, ap, ◌&&◌, false≢true, some, List, [], ◌∷◌, filter, is_none_or, string_eq, arith,
}

list_units-get_example :
    let c = run Writes.new opening in
    filter (has_id (unit_id "u1")) (list_units c (some Side.blufor) (some (group_id "alpha")))
    ≡ passing
        (λ (u : ProtoUnit).
          is_none_or (some Side.blufor) (unit_has_side c.inner u)
          && is_none_or (some (group_id "alpha")) (λ (g : GroupId). string_eq u.group_id g.as_str))
        (get_unit c (unit_id "u1"))
list_units-get_example =
    list_units-get opening (some Side.blufor) (some (group_id "alpha")) (unit_id "u1")

list_groups-get_example :
    let c = run Writes.new opening in
    filter (has_name (group_id "alpha")) (list_groups c (some Side.blufor))
    ≡ Groups.passing
        (λ (group : Group). is_none_or (some Side.blufor) (has_side group.side))
        (get_group c (group_id "alpha"))
list_groups-get_example = list_groups-get opening (some Side.blufor) (group_id "alpha")

-- Two groups, stored in either order.
abbrev stored : List (GroupId × Group) → StateCache
stored groups = record Writes.new { inner = record default { groups = groups } }

abbrev one_way : StateCache
one_way = stored ((group_id "alpha", alpha) ∷ (group_id "bravo", bravo) ∷ [])

abbrev other_way : StateCache
other_way = stored ((group_id "bravo", bravo) ∷ (group_id "alpha", alpha) ∷ [])

alpha-bravo : group_id "alpha" ≢ group_id "bravo"
alpha-bravo e = false≢true (ap (λ (g : GroupId). string_eq g.as_str "bravo") e)

same_groups : (g : GroupId) → get_group one_way g ≡ get_group other_way g
unfolding get_group joined_group member_units member_ids HashMap.get
same_groups g = ground (arith, alpha-bravo)

one_way-IsUnique : IsUnique one_way.inner
unfolding HashMap.get
one_way-IsUnique = record { unique = (ground (arith, alpha-bravo), (refl, tt)) }

other_way-IsUnique : IsUnique other_way.inner
unfolding HashMap.get
other_way-IsUnique = record { unique = (ground (arith, alpha-bravo), (refl, tt)) }

list_groups-Perm_example :
    Perm (list_groups one_way (some Side.blufor)) (list_groups other_way (some Side.blufor))
list_groups-Perm_example =
    list_groups-Perm one_way other_way (some Side.blufor) one_way-IsUnique other_way-IsUnique
      same_groups
