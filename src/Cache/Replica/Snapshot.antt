-- ===== src/Cache/Replica/Snapshot.antt =====
-- `other_before` of `upsert_group_with_units`: it holds the view of each other group that loses a
-- listed unit, and of no further group.
use minerva_server.Std.HashMap
use minerva_server.Std.HashMap.{HashMap, get-or_insert}
use minerva_server.Std.BTreeSet.{contains}
use minerva_server.Ids.{UnitId, GroupId, unit_id, unit_id_key, group_id_key}
use minerva_server.Proto.Units.{ProtoUnit}
use minerva_server.Proto.Groups.{Group}
use minerva_server.Cache.Inner.{Inner, joined_group}
use minerva_server.Cache.Writes.{group_left}
use minerva_server.Cache.Groups.{snapshot_others, claim_units}
use minerva_server.Cache.Loops.{listed, leaves, listed-claim_units}
use minerva_server.Cache.Index.{IsIndexed, in_group}
use minerva_server.Cache.Index.Groups.{
  replaced, get-replace_members, groups-replaced, replace_members-IsIndexed,
}
use minerva_server.Cache.Frame.{restrict, joined_group_frame}
use minerva_server.Cache.Replica.Stale.{AreViews}
use minerva_server.Prelude.{
  ◌≡◌, ◌≢◌, refl, ap, ite, if_neg, subst, sym, true, false, Bool-cases, Option, none, some,
  Option-cases, List, [], ◌∷◌, inl, inr, arith,
}

pub contains-keys :
    {V : Type 0} (m : HashMap GroupId V) (g : GroupId)
    → contains (HashMap.keys m) g ≡ HashMap.contains_key m g
unfolding contains HashMap.get
contains-keys [] g = refl
contains-keys ((h, o) ∷ m) g = ground (arith, contains-keys m g)

remove-AreViews :
    (i : Inner) (m : HashMap GroupId (Option Group)) (g : GroupId)
    → AreViews i m
    → AreViews i (HashMap.remove m g)
unfolding HashMap.remove
remove-AreViews i [] g a = tt
remove-AreViews i ((h, o) ∷ m) g a = ground (arith, remove-AreViews i m g a.1)

or_insert-AreViews :
    (i : Inner) (m : HashMap GroupId (Option Group)) (g : GroupId)
    → AreViews i m
    → AreViews i (HashMap.or_insert m g (joined_group i g))
unfolding HashMap.or_insert HashMap.insert
or_insert-AreViews i m g a = ground (arith, remove-AreViews i m g a)

module _ (i : Inner) (group : GroupId) where
  pub snapshot_others-AreViews :
      (xs : List ProtoUnit) (m : HashMap GroupId (Option Group))
      → AreViews i m
      → AreViews i (snapshot_others i group xs m)
  unfolding snapshot_others
  snapshot_others-AreViews [] m a = a
  snapshot_others-AreViews (x ∷ xs) m a = elim (Option-cases (group_left i (unit_id x.id) group)) [
    | inl e ↦ rw (e, snapshot_others) (snapshot_others-AreViews xs m a)
    | inr (previous, e) ↦
        rw (e, snapshot_others)
          (snapshot_others-AreViews xs (HashMap.or_insert m previous (joined_group i previous))
            (or_insert-AreViews i m previous a))
  ]

  -- What is in the snapshot stays, and every group that loses a unit gets in.
  contains_key-or_insert :
      (m : HashMap GroupId (Option Group)) (a g : GroupId) (o : Option Group)
      → HashMap.contains_key (HashMap.or_insert m a o) g
        ≡ ite (group_id_key.same a g) true (HashMap.contains_key m g)
  contains_key-or_insert m a g o = ground (arith, get-or_insert m a g o)

  snapshot_keeps :
      (xs : List ProtoUnit) (m : HashMap GroupId (Option Group)) (g : GroupId)
      → HashMap.contains_key m g ≡ true
      → HashMap.contains_key (snapshot_others i group xs m) g ≡ true
  unfolding snapshot_others
  snapshot_keeps [] m g h = h
  snapshot_keeps (x ∷ xs) m g h = elim (Option-cases (group_left i (unit_id x.id) group)) [
    | inl e ↦ rw (e, snapshot_others) (snapshot_keeps xs m g h)
    | inr (previous, e) ↦
        rw (e, snapshot_others)
          (snapshot_keeps xs (HashMap.or_insert m previous (joined_group i previous)) g
            (ground (arith, contains_key-or_insert m previous g (joined_group i previous))))
  ]

  -- What the loop does to the snapshot for one listed unit.
  abbrev added : HashMap GroupId (Option Group) → UnitId → HashMap GroupId (Option Group)
  added m u = elim (group_left i u group) [
    | none ↦ m
    | some previous ↦ HashMap.or_insert m previous (joined_group i previous)
  ]

  contains_key-added :
      (m : HashMap GroupId (Option Group)) (u : UnitId) (g : GroupId)
      → leaves i group u g ≡ true
      → HashMap.contains_key (added m u) g ≡ true
  contains_key-added m u g e = elim (Option-cases (group_left i u group)) [
    | inl none_left ↦ ground arith
    | inr (previous, left) ↦
        rw (left, added)
          (ground (arith, contains_key-or_insert m previous g (joined_group i previous)))
  ]

  pub snapshot_finds :
      (xs : List ProtoUnit) (m : HashMap GroupId (Option Group)) (g : GroupId) (v : UnitId)
      → listed xs v ≢ none
      → leaves i group v g ≡ true
      → HashMap.contains_key (snapshot_others i group xs m) g ≡ true
  unfolding snapshot_others
  snapshot_finds [] m g v l e = absurd (l refl)
  snapshot_finds (x ∷ xs) m g v l e = elim (Option-cases (listed xs v)) [
    | inr (y, h) ↦ snapshot_finds xs (added m (unit_id x.id)) g v (λ p. cc (h, p)) e
    | inl h ↦ elim (unit_id_key.same (unit_id x.id) v) [
      | yes p ↦
          snapshot_keeps xs (added m (unit_id x.id)) g (
            contains_key-added m (unit_id x.id) g
              (subst (λ u. leaves i group u g ≡ true) (sym p) e))
      | no p ↦ absurd (l (rw (h, if_neg (unit_id_key.same (unit_id x.id) v) p) refl))
    ]
  ]

module _ (i : Inner) (valid : IsIndexed i) (group : GroupId) (listing : List ProtoUnit) where
  abbrev others : HashMap GroupId (Option Group)
  others = snapshot_others i group (claim_units group listing) []

  in_other-leaves :
      (g : GroupId) (u : UnitId)
      → group ≢ g
      → in_group (HashMap.get i.units u) g ≡ true
      → leaves i group u g ≡ true
  unfolding group_left
  in_other-leaves g u p m = ground arith

  restrict-listed :
      (g : GroupId) (u : UnitId) (y : ProtoUnit)
      → group ≢ g
      → listed (claim_units group listing) u ≡ some y
      → restrict (HashMap.get (replaced i valid group listing).units u) g ≡ none
  restrict-listed g u y p l =
      rw (get-replace_members i group (claim_units group listing) u, l)
        (ground (arith, listed-claim_units group listing u y l))

  restrict-unlisted :
      (g : GroupId) (u : UnitId)
      → group ≢ g
      → listed (claim_units group listing) u ≡ none
      → restrict (HashMap.get (replaced i valid group listing).units u) g
        ≡ restrict (HashMap.get i.units u) g
  restrict-unlisted g u p l =
      rw (get-replace_members i group (claim_units group listing) u, l, valid.index group u)
        (ground arith)

  -- A unit of a group outside the snapshot is neither listed nor dropped.
  restrict-replaced :
      (g : GroupId)
      → group ≢ g
      → HashMap.contains_key others g ≡ false
      → (u : UnitId)
      → restrict (HashMap.get (replaced i valid group listing).units u) g
        ≡ restrict (HashMap.get i.units u) g
  restrict-replaced g p out u =
      let xs = claim_units group listing in
      elim (Option-cases (listed xs u)) [
        | inl l ↦ restrict-unlisted g u p l
        | inr (y, l) ↦ elim (Bool-cases (in_group (HashMap.get i.units u) g)) [
          | inl m ↦
              cc (out, snapshot_finds i group xs [] g u (λ e. cc (e, l)) (in_other-leaves g u p m))
          | inr m ↦ rw (restrict-listed g u y p l) (rw m refl)
        ]
      ]

  -- So its view is the one before the write.
  pub joined_group-replaced :
      (g : GroupId)
      → contains (group ∷ HashMap.keys others) g ≡ false
      → joined_group (replaced i valid group listing) g ≡ joined_group i g
  unfolding contains
  joined_group-replaced g out =
      joined_group_frame (replaced i valid group listing) i
        (replace_members-IsIndexed i valid group listing) valid g
        (restrict-replaced g (λ p. ground arith) (ground (arith, contains-keys others g)))
        (ap (λ m. HashMap.get m g) (groups-replaced i valid group listing))
