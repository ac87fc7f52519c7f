-- ===== src/Cache/Index/Groups.antt =====
-- The member index under `upsert_group_with_units`.
use minerva_server.Std.HashMap
use minerva_server.Std.HashMap.{get-remove, get-insert}
use minerva_server.Std.BTreeSet
use minerva_server.Std.BTreeSet.{contains, Sorted, contains-difference, collect-Sorted}
use minerva_server.Ids.{UnitId, GroupId, unit_id, unit_id_key, group_id_key}
use minerva_server.Proto.Units.{ProtoUnit}
use minerva_server.Cache.Inner.{Inner, member_ids}
use minerva_server.Cache.Writes.{group_left}
use minerva_server.Cache.Groups.{claim_units, unit_ids, drop_units, detach_units, replace_members}
use minerva_server.Cache.Loops.{
  listed, leaves, contains-unit_ids, listed-claim_units, get-insert_units, members-insert_units,
  groups-insert_units, get-drop_units, members-drop_units, groups-drop_units, units-detach_units,
  groups-detach_units, detach_units-Sorted, contains-detach_units,
}
use minerva_server.Cache.Index.{IsIndexed, in_group, belongs}
use minerva_server.Prelude.{
  ◌≡◌, ◌≢◌, refl, ◌∙◌, ap, ite, true, false, not, ◌&&◌, none, some, List, arith, is_none, map,
  subst, sym, Option-cases, Bool-cases, if_pos, if_neg, inl, inr, if◌then◌else◌,
}

-- The index reads one table only.
pub member_ids-members :
    (i j : Inner) (h : GroupId) → i.members ≡ j.members → member_ids i h ≡ member_ids j h
unfolding member_ids
member_ids-members i j h e = rw e

module _ (inner : Inner) (g : GroupId) (xs : List ProtoUnit) where
  pub dropped : Inner
  dropped = drop_units inner (BTreeSet.difference (member_ids inner g) (unit_ids xs))

  -- A unit is stored afterwards if it is listed, or was stored and not an unlisted member.
  pub get-replace_members :
      (v : UnitId)
      → HashMap.get (replace_members inner g xs).units v ≡ (elim (listed xs v) [
        | none ↦ if contains (member_ids inner g) v then none else HashMap.get inner.units v
        | some y ↦ some y
      ])
  unfolding replace_members dropped
  get-replace_members v =
      let linked = record (detach_units dropped g xs) {
        members = HashMap.insert (detach_units dropped g xs).members g (unit_ids xs);
      } in
      ground (
        arith,
        get-insert_units linked xs v,
        units-detach_units dropped g xs,
        get-drop_units inner (BTreeSet.difference (member_ids inner g) (unit_ids xs)) v,
        contains-difference (member_ids inner g) (unit_ids xs) v,
        contains-unit_ids xs v,
      )

  leaves-dropped :
      (h : GroupId) (v : UnitId) → listed xs v ≢ none → leaves dropped g v h ≡ leaves inner g v h
  unfolding dropped group_left
  leaves-dropped h v l = ground (
    arith,
    get-drop_units inner (BTreeSet.difference (member_ids inner g) (unit_ids xs)) v,
    contains-difference (member_ids inner g) (unit_ids xs) v,
    contains-unit_ids xs v,
  )

  -- The group's members are those listed; another group loses the listed units.
  pub contains-replace_members :
      (h : GroupId) (v : UnitId)
      → contains (member_ids (replace_members inner g xs) h) v
        ≡ ite (group_id_key.same g h) (not (is_none (listed xs v))) (
            if not (is_none (listed xs v)) && leaves inner g v h
            then false
            else contains (member_ids inner h) v)
  unfolding replace_members dropped member_ids
  contains-replace_members h v =
      let detached = detach_units dropped g xs in
      let linked = record detached { members = HashMap.insert detached.members g (unit_ids xs) } in
      ground (
        arith,
        members-insert_units linked xs,
        get-insert detached.members g h (unit_ids xs),
        contains-unit_ids xs v,
        contains-detach_units dropped g xs h v,
        members-drop_units inner (BTreeSet.difference (member_ids inner g) (unit_ids xs)),
        leaves-dropped h v,
      )

-- A claimed unit is in the group that claimed it, and in no other.
pub in_group-claim_units :
    (g : GroupId) (xs : List ProtoUnit) (v : UnitId) (h : GroupId)
    → in_group (listed (claim_units g xs) v) h ≡ (
        if is_none (listed (claim_units g xs) v)
        then false
        else ite (group_id_key.same g h) true false)
in_group-claim_units g xs v h = elim (Option-cases (listed (claim_units g xs) v)) [
  | inl e ↦ rw e refl
  | inr (y, e) ↦
      rw e (ap (λ k. ite (group_id_key.same k h) true false) (listed-claim_units g xs v y e).1)
]

module _ (inner : Inner) (valid : IsIndexed inner) (g : GroupId) (listing : List ProtoUnit) where
  abbrev pub replaced : Inner
  replaced = replace_members inner g (claim_units g listing)

  belongs-replaced :
      (h : GroupId) (v : UnitId)
      → belongs replaced v h ≡ (
          if is_none (listed (claim_units g listing) v)
          then (if contains (member_ids inner g) v then false else belongs inner v h)
          else ite (group_id_key.same g h) true false)
  belongs-replaced h v =
      let xs = claim_units g listing in
      elim (Option-cases (listed xs v)) [
        | inl e ↦
            rw (get-replace_members inner g xs v, e)
              (elim (Bool-cases (contains (member_ids inner g) v)) [
                | inl b ↦ rw b refl
                | inr b ↦ rw b refl
              ])
        | inr (y, e) ↦
            rw (get-replace_members inner g xs v, e)
              (ap (λ k. ite (group_id_key.same k h) true false)
                (listed-claim_units g listing v y e).1)
      ]

  replaced-index_self : (v : UnitId) → contains (member_ids replaced g) v ≡ belongs replaced v g
  replaced-index_self v =
      let xs = claim_units g listing in
      let same = group_id_key.same g g in
      ground (
        arith,
        rw (if_pos same refl) at (contains-replace_members inner g xs g v),
        rw (if_pos same refl) at (belongs-replaced g v),
        valid.index g v,
      )

  replaced-index_ne :
      (h : GroupId) (v : UnitId) → g ≢ h → contains (member_ids replaced h) v ≡ belongs replaced v h
  unfolding group_left
  replaced-index_ne h v p =
      let xs = claim_units g listing in
      let same = group_id_key.same g h in
      ground (
        arith,
        rw (if_neg same p) at (contains-replace_members inner g xs h v),
        rw (if_neg same p) at (belongs-replaced h v),
        valid.index h v,
        valid.index g v,
      )

  replaced-index :
      (h : GroupId) (v : UnitId) → contains (member_ids replaced h) v ≡ belongs replaced v h
  replaced-index h v = elim (group_id_key.same g h) [
    | yes p ↦
        subst (λ k. contains (member_ids replaced k) v ≡ belongs replaced v k) p
          (replaced-index_self v)
    | no p ↦ replaced-index_ne h v p
  ]

  replaced-Sorted : (h : GroupId) → Sorted (member_ids replaced h)
  unfolding replace_members member_ids unit_ids
  replaced-Sorted h =
      let xs = claim_units g listing in
      let ids = map (λ (u : ProtoUnit). unit_id u.id) xs in
      let rest = BTreeSet.difference (member_ids inner g) (unit_ids xs) in
      let detached = detach_units (drop_units inner rest) g xs in
      let linked = record detached { members = HashMap.insert detached.members g (unit_ids xs) } in
      ground (
        arith,
        members-insert_units linked xs,
        get-insert detached.members g h (unit_ids xs),
        collect-Sorted ids,
        detach_units-Sorted (drop_units inner rest) g xs
            (λ k.
              subst Sorted
                (sym (
                  member_ids-members (drop_units inner rest) inner k
                    (members-drop_units inner rest)))
                (valid.sorted k))
            h,
      )

  replaced-keyed :
      (u : UnitId) (x : ProtoUnit) → HashMap.get replaced.units u ≡ some x → unit_id x.id ≡ u
  replaced-keyed u x h = ground (
    arith,
    get-replace_members inner g (claim_units g listing) u,
    listed-claim_units g listing u x,
    valid.keyed u x,
  )

  pub groups-replaced : replaced.groups ≡ inner.groups
  unfolding replace_members
  groups-replaced =
      let xs = claim_units g listing in
      let rest = BTreeSet.difference (member_ids inner g) (unit_ids xs) in
      let detached = detach_units (drop_units inner rest) g xs in
      let linked = record detached { members = HashMap.insert detached.members g (unit_ids xs) } in
      groups-insert_units linked xs
      ∙ groups-detach_units (drop_units inner rest) g xs
      ∙ groups-drop_units inner rest

  pub replace_members-IsIndexed : IsIndexed replaced
  replace_members-IsIndexed = record {
    index = replaced-index;
    sorted = replaced-Sorted;
    keyed = replaced-keyed;
    named = λ h x. rw groups-replaced (valid.named h x);
  }
