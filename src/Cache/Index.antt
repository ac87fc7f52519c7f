-- ===== src/Cache/Index.antt =====
-- What the cache's tables owe one another, and how the small steps on the index change it.
pub mod Units
pub mod Groups
pub mod Erase
pub mod Writes
use minerva_server.Std.HashMap
use minerva_server.Std.HashMap.{get-remove, get-insert}
use minerva_server.Std.BTreeSet
use minerva_server.Std.BTreeSet.{BTreeSet, contains, Sorted}
use minerva_server.Ids.{UnitId, GroupId, unit_id, group_id, unit_id_key, group_id_key}
use minerva_server.Proto.Units.{ProtoUnit}
use minerva_server.Proto.Groups.{Group}
use minerva_server.Cache.Inner.{Inner, default, member_ids, unlink_member, link_member}
use minerva_server.Prelude.{ℕ, ◌≡◌, refl, ite, Bool, true, false, Option, none, some, arith}

-- The unit that is stored, if any, names the group.
abbrev pub in_group : Option ProtoUnit → GroupId → Bool
in_group none g = false
in_group (some x) g = ite (group_id_key.same (group_id x.group_id) g) true false

abbrev pub belongs : Inner → UnitId → GroupId → Bool
belongs inner u g = in_group (HashMap.get inner.units u) g

pub record IsIndexed (inner : Inner) : Type 0 where
  -- The index is derived from the units' `group_id`, in both directions.
  pub index : (g : GroupId) (u : UnitId) → contains (member_ids inner g) u ≡ belongs inner u g
  pub sorted : (g : GroupId) → Sorted (member_ids inner g)
  -- Every unit and group is stored under its own id.
  pub keyed : (u : UnitId) (x : ProtoUnit) → HashMap.get inner.units u ≡ some x → unit_id x.id ≡ u
  pub named : (g : GroupId) (x : Group) → HashMap.get inner.groups g ≡ some x → group_id x.id ≡ g

pub default-IsIndexed : IsIndexed default
unfolding member_ids HashMap.get contains
default-IsIndexed = record {
  index = λ g u. refl;
  sorted = λ g. tt;
  keyed = λ u x h. ground arith;
  named = λ g x h. ground arith;
}

module _ (inner : Inner) (g : GroupId) (u : UnitId) where
  pub member_ids-unlink_member :
      (h : GroupId)
      → member_ids (unlink_member inner g u) h
        ≡ ite (group_id_key.same g h) (BTreeSet.remove (member_ids inner g) u) (member_ids inner h)
  unfolding unlink_member member_ids BTreeSet.remove
  member_ids-unlink_member h = ground (
    arith,
    get-remove inner.members g h,
    get-insert inner.members g h (BTreeSet.remove (member_ids inner g) u),
  )

  pub units-unlink_member : (unlink_member inner g u).units ≡ inner.units
  unfolding unlink_member
  units-unlink_member = ground arith

  pub groups-unlink_member : (unlink_member inner g u).groups ≡ inner.groups
  unfolding unlink_member
  groups-unlink_member = ground arith

  pub member_ids-link_member :
      (h : GroupId)
      → member_ids (link_member inner g u) h
        ≡ ite (group_id_key.same g h) (BTreeSet.insert (member_ids inner g) u) (member_ids inner h)
  unfolding link_member member_ids
  member_ids-link_member h =
      ground (arith, get-insert inner.members g h (BTreeSet.insert (member_ids inner g) u))

-- Facts about the tables do not depend on the sequence number.
pub sequence-IsIndexed :
    (inner : Inner) (n : ℕ) → IsIndexed inner → IsIndexed (record inner { sequence = n })
unfolding member_ids
sequence-IsIndexed inner n v = record {
  index = v.index;
  sorted = v.sorted;
  keyed = v.keyed;
  named = v.named;
}
