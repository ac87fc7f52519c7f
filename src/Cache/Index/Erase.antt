-- ===== src/Cache/Index/Erase.antt =====
-- The member index under `remove_group`.
use minerva_server.Std.HashMap
use minerva_server.Std.HashMap.{get-remove}
use minerva_server.Std.BTreeSet.{contains, Sorted}
use minerva_server.Ids.{UnitId, GroupId, unit_id_key, group_id_key}
use minerva_server.Cache.Inner.{Inner, member_ids}
use minerva_server.Cache.Groups.{erase_group}
use minerva_server.Cache.Loops.{get-drop_units, members-drop_units, groups-drop_units}
use minerva_server.Cache.Index.{IsIndexed, belongs}
use minerva_server.Prelude.{
  ◌≡◌, refl, ite, if_pos, if_neg, false, none, [], arith, if◌then◌else◌, Bool-cases, inl, inr,
}

module _ (inner : Inner) (g : GroupId) where
  pub member_ids-erase_group :
      (h : GroupId)
      → member_ids (erase_group inner g) h ≡ ite (group_id_key.same g h) [] (member_ids inner h)
  unfolding erase_group member_ids
  member_ids-erase_group h =
      let base = record inner {
        groups = HashMap.remove inner.groups g;
        members = HashMap.remove inner.members g;
      } in
      ground (arith, members-drop_units base (member_ids inner g), get-remove inner.members g h)

  pub get-erase_group :
      (v : UnitId)
      → HashMap.get (erase_group inner g).units v
        ≡ (if contains (member_ids inner g) v then none else HashMap.get inner.units v)
  unfolding erase_group
  get-erase_group v =
      get-drop_units
        (record inner {
          groups = HashMap.remove inner.groups g;
          members = HashMap.remove inner.members g;
        })
        (member_ids inner g) v

  pub groups-erase_group : (erase_group inner g).groups ≡ HashMap.remove inner.groups g
  unfolding erase_group
  groups-erase_group =
      groups-drop_units
        (record inner {
          groups = HashMap.remove inner.groups g;
          members = HashMap.remove inner.members g;
        })
        (member_ids inner g)

module _ (inner : Inner) (valid : IsIndexed inner) (g : GroupId) where
  belongs-erase_group :
      (h : GroupId) (v : UnitId)
      → belongs (erase_group inner g) v h
        ≡ (if contains (member_ids inner g) v then false else belongs inner v h)
  belongs-erase_group h v =
      rw (get-erase_group inner g v) (elim (Bool-cases (contains (member_ids inner g) v)) [
        | inl b ↦ rw b refl
        | inr b ↦ rw b refl
      ])

  erased-index :
      (h : GroupId) (v : UnitId)
      → contains (member_ids (erase_group inner g) h) v ≡ belongs (erase_group inner g) v h
  unfolding contains
  erased-index h v = elim (group_id_key.same g h) [
    | yes p ↦
        rw (member_ids-erase_group inner g h, if_pos _ p)
          (ground (arith, belongs-erase_group h v, valid.index h v))
    | no p ↦
        rw (member_ids-erase_group inner g h, if_neg _ p)
          (ground (arith, belongs-erase_group h v, valid.index h v, valid.index g v))
  ]

  erased-Sorted : (h : GroupId) → Sorted (member_ids (erase_group inner g) h)
  erased-Sorted h = ground (arith, member_ids-erase_group inner g h, valid.sorted h)

  pub erase_group-IsIndexed : IsIndexed (erase_group inner g)
  erase_group-IsIndexed = record {
    index = erased-index;
    sorted = erased-Sorted;
    keyed = λ u x e. ground (arith, get-erase_group inner g u, valid.keyed u x);
    named = λ h x e.
        ground (arith, groups-erase_group inner g, get-remove inner.groups g h, valid.named h x);
  }
