-- ===== src/Std/BTreeSet.antt =====
-- `std::collections::BTreeSet`: the elements in ascending order, which is the order of iteration.
use minerva_server.Std.Key.{Key}
use minerva_server.Prelude.{
  ◌≡◌, refl, ap, ap₂, sym, ◌∙◌, ite, if_pos, if_neg, Bool, true, false, not, List, [], ◌∷◌, arith,
  Ordering, filter, if◌then◌else◌,
}

abbrev pub BTreeSet {ℓ} : Type ℓ → Type ℓ
BTreeSet K = List K

module _ {ℓ} {K : Type ℓ} ⦃k : Key K⦄ where
  unfoldable pub contains : BTreeSet K → K → Bool
  contains [] a = false
  contains (x ∷ s) a = ite (k.same x a) true (contains s a)

  unfoldable pub insert : BTreeSet K → K → BTreeSet K
  insert [] a = a ∷ []
  insert (x ∷ s) a = elim (k.order a x) [
    | Ordering.lt ↦ a ∷ x ∷ s
    | Ordering.eq ↦ x ∷ s
    | Ordering.gt ↦ x ∷ insert s a
  ]

  unfoldable pub remove : BTreeSet K → K → BTreeSet K
  remove [] a = []
  remove (x ∷ s) a = ite (k.same x a) (remove s a) (x ∷ remove s a)

  abbrev pub is_empty : BTreeSet K → Bool
  is_empty [] = true
  is_empty (x ∷ s) = false

  -- `iter.collect::<BTreeSet<_>>()`.
  unfoldable pub collect : List K → BTreeSet K
  unfolding insert
  collect [] = []
  collect (a ∷ l) = insert (collect l) a

  -- `a.difference(&b)`.
  unfoldable pub difference : BTreeSet K → BTreeSet K → List K
  unfolding contains
  difference s t = filter (λ a. not (contains t a)) s

  pub contains-insert :
      (s : BTreeSet K) (a b : K) → contains (insert s a) b ≡ ite (k.same a b) true (contains s b)
  unfolding contains insert
  contains-insert [] a b = refl
  contains-insert (x ∷ s) a b = ground (arith, contains-insert s a b, k.order_eq a x)

  pub contains-remove :
      (s : BTreeSet K) (a b : K) → contains (remove s a) b ≡ ite (k.same a b) false (contains s b)
  unfolding contains remove
  contains-remove [] a b = ground arith
  contains-remove (x ∷ s) a b = elim (k.same x a) [
    | yes p ↦ rw (if_pos _ p) (ground (arith, contains-remove s a b))
    | no p ↦ rw (if_neg _ p) (ground (arith, contains-remove s a b))
  ]

  pub contains-difference :
      (s t : BTreeSet K) (a : K)
      → contains (difference s t) a ≡ (if contains t a then false else contains s a)
  unfolding contains difference
  contains-difference [] t a = ground arith
  contains-difference (x ∷ s) t a = ground (arith, contains-difference s t a)

  abbrev pub Above : K → BTreeSet K → Type 0
  Above a [] = Unit
  Above a (x ∷ s) = (k.order a x ≡ Ordering.lt) × Above a s

  abbrev pub Sorted : BTreeSet K → Type 0
  Sorted [] = Unit
  Sorted (x ∷ s) = Above x s × Sorted s

  Above-trans : (a b : K) (s : BTreeSet K) → k.order a b ≡ Ordering.lt → Above b s → Above a s
  Above-trans a b [] h w = tt
  Above-trans a b (x ∷ s) h w = (k.order_trans a b x h w.0, Above-trans a b s h w.1)

  insert-Above :
      (x a : K) (s : BTreeSet K) → k.order x a ≡ Ordering.lt → Above x s → Above x (insert s a)
  unfolding insert
  insert-Above x a [] h w = (h, tt)
  insert-Above x a (y ∷ s) h w = ground (arith, insert-Above x a s h w.1)

  pub insert-Sorted : (s : BTreeSet K) (a : K) → Sorted s → Sorted (insert s a)
  unfolding insert
  insert-Sorted [] a w = (tt, tt)
  insert-Sorted (x ∷ s) a w = ground (
    arith,
    insert-Sorted s a w.1,
    Above-trans a x s,
    λ (h : k.order a x ≡ Ordering.gt). insert-Above x a s (k.order_gt a x h) w.0,
  )

  remove-Above : (x a : K) (s : BTreeSet K) → Above x s → Above x (remove s a)
  unfolding remove
  remove-Above x a [] w = tt
  remove-Above x a (y ∷ s) w = ground (arith, remove-Above x a s w.1)

  pub remove-Sorted : (s : BTreeSet K) (a : K) → Sorted s → Sorted (remove s a)
  unfolding remove
  remove-Sorted [] a w = tt
  remove-Sorted (x ∷ s) a w = ground (arith, remove-Sorted s a w.1, remove-Above x a s w.0)

  pub collect-Sorted : (l : List K) → Sorted (collect l)
  unfolding collect
  collect-Sorted [] = tt
  collect-Sorted (a ∷ l) = insert-Sorted (collect l) a (collect-Sorted l)

  contains_nil : (a : K) → contains [] a ≡ false
  unfolding contains
  contains_nil a = refl

  contains-Above : (a : K) (s : BTreeSet K) → Above a s → contains s a ≡ false
  unfolding contains
  contains-Above a [] w = refl
  contains-Above a (x ∷ s) w = ground (arith, contains-Above a s w.1, k.order_refl a)

  contains_least :
      (x y : K) (t : BTreeSet K)
      → k.order x y ≡ Ordering.lt
      → Above y t
      → contains (y ∷ t) x ≡ false
  unfolding contains
  contains_least x y t h w = contains-Above x (y ∷ t) (h, Above-trans x y t h w)

  contains_head : (x : K) (s : BTreeSet K) → contains (x ∷ s) x ≡ true
  unfolding contains
  contains_head x s = if_pos (k.same x x) refl true (contains s x)

  heads_eq :
      (x y : K) (s t : BTreeSet K)
      → Above x s
      → Above y t
      → ((a : K) → contains (x ∷ s) a ≡ contains (y ∷ t) a)
      → (o : Ordering) → k.order x y ≡ o
      → x ≡ y
  heads_eq x y s t v w h Ordering.lt e = cc (h x, contains_least x y t e w, contains_head x s)
  heads_eq x y s t v w h Ordering.eq e = k.order_eq x y e
  heads_eq x y s t v w h Ordering.gt e =
      cc (h y, contains_least y x s (k.order_gt x y e) v, contains_head y t)

  contains_tail :
      (x : K) (s t : BTreeSet K)
      → Above x s
      → Above x t
      → (a : K) → contains (x ∷ s) a ≡ contains (x ∷ t) a
      → contains s a ≡ contains t a
  unfolding contains
  contains_tail x s t v w a h = ground (arith, contains-Above x s v, contains-Above x t w)

  -- A sorted set is determined by its elements.
  pub Sorted-ext :
      (s t : BTreeSet K) → Sorted s → Sorted t → ((a : K) → contains s a ≡ contains t a) → s ≡ t
  Sorted-ext [] [] v w h = refl
  Sorted-ext [] (y ∷ t) v w h = cc (h y, contains_head y t, contains_nil y)
  Sorted-ext (x ∷ s) [] v w h = cc (h x, contains_head x s, contains_nil x)
  Sorted-ext (x ∷ s) (y ∷ t) v w h =
      let e : x ≡ y = heads_eq x y s t v.0 w.0 h (k.order x y) refl in
      ap₂ (λ a l. a ∷ l) e
        (Sorted-ext s t v.1 w.1
          (λ a. contains_tail x s t v.0 (rw e w.0) a (h a ∙ ap (λ b. contains (b ∷ t) a) (sym e))))
