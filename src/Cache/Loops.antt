-- ===== src/Cache/Loops.antt =====
-- What the loops of the group writes, and the unlinking of a unit, do to the tables.
use minerva_server.Std.HashMap
use minerva_server.Std.HashMap.{get-remove, get-insert}
use minerva_server.Std.BTreeSet
use minerva_server.Std.BTreeSet.{contains, Sorted, contains-insert, contains-remove, remove-Sorted}
use minerva_server.Ids.{UnitId, GroupId, unit_id, group_id, unit_id_key, group_id_key}
use minerva_server.Proto.Units.{ProtoUnit}
use minerva_server.Cache.Inner.{Inner, member_ids}
use minerva_server.Cache.Writes.{detach, group_left}
use minerva_server.Cache.Groups.{claim_units, unit_ids, drop_units, detach_units, insert_units}
use minerva_server.Cache.Index.{member_ids-unlink_member, units-unlink_member, groups-unlink_member}
use minerva_server.Prelude.{
  ◌≡◌, refl, ◌∙◌, ite, Bool, true, false, not, ◌&&◌, Option, none, some, List, [], ◌∷◌, arith,
  is_none, if◌then◌else◌,
}

module _ (inner : Inner) where
  pub member_ids-detach :
      (leaving : Option GroupId) (u : UnitId) (g : GroupId) (v : UnitId)
      → contains (member_ids (detach inner leaving u) g) v ≡ (elim leaving [
        | none ↦ contains (member_ids inner g) v
        | some old ↦
            ite
              (group_id_key.same old g)
              (ite (unit_id_key.same u v) false (contains (member_ids inner g) v))
              (contains (member_ids inner g) v)
      ])
  unfolding detach
  member_ids-detach none u g v = refl
  member_ids-detach (some old) u g v =
      ground
        (arith, member_ids-unlink_member inner old u g, contains-remove (member_ids inner old) u v)

  pub detach-Sorted :
      (leaving : Option GroupId) (u : UnitId)
      → ((g : GroupId) → Sorted (member_ids inner g))
      → (g : GroupId) → Sorted (member_ids (detach inner leaving u) g)
  unfolding detach
  detach-Sorted none u s g = s g
  detach-Sorted (some old) u s g = ground (
    arith,
    member_ids-unlink_member inner old u g,
    remove-Sorted (member_ids inner old) u (s old),
    s g,
  )

  pub units-detach :
      (leaving : Option GroupId) (u : UnitId) → (detach inner leaving u).units ≡ inner.units
  unfolding detach
  units-detach none u = refl
  units-detach (some old) u = units-unlink_member inner old u

  pub groups-detach :
      (leaving : Option GroupId) (u : UnitId) → (detach inner leaving u).groups ≡ inner.groups
  unfolding detach
  groups-detach none u = refl
  groups-detach (some old) u = groups-unlink_member inner old u

-- The last listed unit with the id: the one that is stored.
abbrev pub listed : List ProtoUnit → UnitId → Option ProtoUnit
listed [] v = none
listed (x ∷ xs) v = elim (listed xs v) [
  | none ↦ ite (unit_id_key.same (unit_id x.id) v) (some x) none
  | some y ↦ some y
]

pub contains-unit_ids :
    (xs : List ProtoUnit) (v : UnitId) → contains (unit_ids xs) v ≡ not (is_none (listed xs v))
unfolding unit_ids BTreeSet.collect contains
contains-unit_ids [] v = refl
contains-unit_ids (x ∷ xs) v =
    ground (arith, contains-insert (unit_ids xs) (unit_id x.id) v, contains-unit_ids xs v)

pub listed-claim_units :
    (g : GroupId) (xs : List ProtoUnit) (v : UnitId) (y : ProtoUnit)
    → listed (claim_units g xs) v ≡ some y
    → (unit_id y.id ≡ v) × (group_id y.group_id ≡ g)
unfolding claim_units
listed-claim_units g [] v y h = cc
listed-claim_units g (x ∷ xs) v y h = ground (arith, listed-claim_units g xs v y)

pub get-insert_units :
    (inner : Inner) (xs : List ProtoUnit) (v : UnitId)
    → HashMap.get (insert_units inner xs).units v
      ≡ (elim (listed xs v) [ none ↦ HashMap.get inner.units v | some y ↦ some y ])
unfolding insert_units
get-insert_units inner [] v = refl
get-insert_units inner (x ∷ xs) v = ground (
  arith,
  get-insert_units (record inner { units = HashMap.insert inner.units (unit_id x.id) x }) xs v,
  get-insert inner.units (unit_id x.id) v x,
)

pub members-insert_units :
    (inner : Inner) (xs : List ProtoUnit) → (insert_units inner xs).members ≡ inner.members
unfolding insert_units
members-insert_units inner [] = refl
members-insert_units inner (x ∷ xs) =
    members-insert_units (record inner { units = HashMap.insert inner.units (unit_id x.id) x }) xs

pub groups-insert_units :
    (inner : Inner) (xs : List ProtoUnit) → (insert_units inner xs).groups ≡ inner.groups
unfolding insert_units
groups-insert_units inner [] = refl
groups-insert_units inner (x ∷ xs) =
    groups-insert_units (record inner { units = HashMap.insert inner.units (unit_id x.id) x }) xs

pub get-drop_units :
    (inner : Inner) (ids : List UnitId) (v : UnitId)
    → HashMap.get (drop_units inner ids).units v
      ≡ (if contains ids v then none else HashMap.get inner.units v)
unfolding drop_units contains
get-drop_units inner [] v = refl
get-drop_units inner (i ∷ ids) v = ground (
  arith,
  get-drop_units (record inner { units = HashMap.remove inner.units i }) ids v,
  get-remove inner.units i v,
)

pub members-drop_units :
    (inner : Inner) (ids : List UnitId) → (drop_units inner ids).members ≡ inner.members
unfolding drop_units
members-drop_units inner [] = refl
members-drop_units inner (i ∷ ids) =
    members-drop_units (record inner { units = HashMap.remove inner.units i }) ids

pub groups-drop_units :
    (inner : Inner) (ids : List UnitId) → (drop_units inner ids).groups ≡ inner.groups
unfolding drop_units
groups-drop_units inner [] = refl
groups-drop_units inner (i ∷ ids) =
    groups-drop_units (record inner { units = HashMap.remove inner.units i }) ids

-- The unit is cached in the group `h`, and a write to `g` takes it from there.
abbrev pub leaves : Inner → GroupId → UnitId → GroupId → Bool
leaves inner g v h = elim (group_left inner v g) [
  | none ↦ false
  | some previous ↦ ite (group_id_key.same previous h) true false
]

pub units-detach_units :
    (inner : Inner) (g : GroupId) (xs : List ProtoUnit)
    → (detach_units inner g xs).units ≡ inner.units
unfolding detach_units
units-detach_units inner g [] = refl
units-detach_units inner g (x ∷ xs) =
    units-detach_units (detach inner (group_left inner (unit_id x.id) g) (unit_id x.id)) g xs
    ∙ units-detach inner (group_left inner (unit_id x.id) g) (unit_id x.id)

pub groups-detach_units :
    (inner : Inner) (g : GroupId) (xs : List ProtoUnit)
    → (detach_units inner g xs).groups ≡ inner.groups
unfolding detach_units
groups-detach_units inner g [] = refl
groups-detach_units inner g (x ∷ xs) =
    groups-detach_units (detach inner (group_left inner (unit_id x.id) g) (unit_id x.id)) g xs
    ∙ groups-detach inner (group_left inner (unit_id x.id) g) (unit_id x.id)

pub detach_units-Sorted :
    (inner : Inner) (g : GroupId) (xs : List ProtoUnit)
    → ((h : GroupId) → Sorted (member_ids inner h))
    → (h : GroupId) → Sorted (member_ids (detach_units inner g xs) h)
unfolding detach_units
detach_units-Sorted inner g [] s h = s h
detach_units-Sorted inner g (x ∷ xs) s h =
    let leaving = group_left inner (unit_id x.id) g in
    detach_units-Sorted (detach inner leaving (unit_id x.id)) g xs
      (detach-Sorted inner leaving (unit_id x.id) s) h

group_left-units :
    (i j : Inner) (v : UnitId) (g : GroupId)
    → i.units ≡ j.units
    → group_left i v g ≡ group_left j v g
unfolding group_left
group_left-units i j v g e = rw e

pub contains-detach_units :
    (inner : Inner) (g : GroupId) (xs : List ProtoUnit) (h : GroupId) (v : UnitId)
    → contains (member_ids (detach_units inner g xs) h) v ≡ (
        if not (is_none (listed xs v)) && leaves inner g v h
        then false
        else contains (member_ids inner h) v)
unfolding detach_units
contains-detach_units inner g [] h v = refl
contains-detach_units inner g (x ∷ xs) h v =
    let leaving = group_left inner (unit_id x.id) g in
    let next = detach inner leaving (unit_id x.id) in
    ground (
      arith,
      contains-detach_units next g xs h v,
      group_left-units next inner v g (units-detach inner leaving (unit_id x.id)),
      member_ids-detach inner leaving (unit_id x.id) h v,
    )
