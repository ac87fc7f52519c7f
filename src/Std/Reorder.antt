-- ===== src/Std/Reorder.antt =====
-- `HashMap` visits its entries in any order: two tables with the same contents hold the same entries,
-- up to order.
use mathlib.Core.List.Permᴰ as Reorder
use mathlib.Core.List.{Permᴰ}
use mathlib.Core.List.Permᴰ.{nil, cons, swap, trans}
use minerva_server.Std.Key.{Key}
use minerva_server.Std.HashMap.{HashMap, Distinct, get, remove, get-remove, remove-Distinct}
use minerva_server.Prelude.{
  ◌≡◌, refl, sym, ◌∙◌, ap, subst, Bool, true, false, Bool-cases, inl, inr, none, some, List, [],
  ◌∷◌, map, filter, arith, if◌then◌else◌,
}

module _ {ℓ} {K V : Type ℓ} ⦃k : Key K⦄ where
  remove_missing : (m : HashMap K V) (a : K) → get m a ≡ none → remove m a ≡ m
  unfolding get remove
  remove_missing [] a e = refl
  remove_missing ((b, w) ∷ m) a e = ground (arith, remove_missing m a)

  remove-found :
      (m : HashMap K V) (a b : K) (v w : V)
      → b ≡ a
      → get m b ≡ none
      → get ((b, w) ∷ m) a ≡ some v
      → (a, v) ∷ remove ((b, w) ∷ m) a ≡ (b, w) ∷ m
  unfolding get remove
  remove-found m a b v w p d e = ground (arith, remove_missing m a)

  remove-other :
      (m : HashMap K V) (a b : K) (w : V) → ¬ (b ≡ a) → remove ((b, w) ∷ m) a ≡ (b, w) ∷ remove m a
  unfolding remove
  remove-other m a b w n = ground arith

  get-other : (m : HashMap K V) (a b : K) (w : V) → ¬ (b ≡ a) → get ((b, w) ∷ m) a ≡ get m a
  unfolding get
  get-other m a b w n = ground arith

  -- The entry of a key, put in front.
  front :
      (m : HashMap K V) (a : K) (v : V)
      → Distinct m
      → get m a ≡ some v
      → Permᴰ m ((a, v) ∷ remove m a)
  front [] a v d e = absurd (unfold get in ground arith)
  front ((b, w) ∷ m) a v d e = elim (k.same b a) [
    | yes p ↦
        subst (λ t. Permᴰ t ((a, v) ∷ remove ((b, w) ∷ m) a)) (remove-found m a b v w p d.0 e)
          (Reorder.refl _)
    | no n ↦
        subst (λ t. Permᴰ ((b, w) ∷ m) ((a, v) ∷ t)) (sym (remove-other m a b w n))
          (trans (cons refl (front m a v d.1 (sym (get-other m a b w n) ∙ e))) (swap refl refl))
  ]

  empty_table : (m : HashMap K V) → ((a : K) → get m a ≡ none) → m ≡ []
  unfolding get
  empty_table [] e = refl
  empty_table ((a, v) ∷ m) e = absurd (ground (arith, e a))

  get-rest :
      (m n : HashMap K V) (a : K) (v : V)
      → get m a ≡ none
      → ((b : K) → get ((a, v) ∷ m) b ≡ get n b)
      → (b : K) → get m b ≡ get (remove n a) b
  unfolding get
  get-rest m n a v d same b = ground (arith, same b, get-remove n a b)

  pub get-Perm :
      (m n : HashMap K V) → Distinct m → Distinct n → ((a : K) → get m a ≡ get n a) → Permᴰ m n
  get-Perm [] n d f same =
      subst (λ t. Permᴰ [] t) (sym (empty_table n (λ a. sym (same a) ∙ (unfold get in refl)))) nil
  get-Perm ((a, v) ∷ m) n d f same =
      trans
        (cons refl
          (get-Perm m (remove n a) d.1 (remove-Distinct n a f) (get-rest m n a v d.0 same)))
        (Reorder.symm (front n a v f (sym (same a) ∙ (unfold get in ground arith))))

-- Filtering and mapping keep that.
pub map-Perm {ℓ κ} :
    {A : Type ℓ} {B : Type κ} (f : A → B) {xs ys : List A}
    → Permᴰ xs ys
    → Permᴰ (map f xs) (map f ys)
map-Perm f nil = nil
map-Perm f (cons e h) = cons (ap f e) (map-Perm f h)
map-Perm f (swap p q) = swap (ap f p) (ap f q)
map-Perm f (trans g h) = trans (map-Perm f g) (map-Perm f h)

module _ {ℓ} {A : Type ℓ} (p : A → Bool) where
  keeps :
      (x y : A) (xs ys : List A)
      → x ≡ y
      → Permᴰ xs ys
      → Permᴰ (if p x then x ∷ xs else xs) (if p y then y ∷ ys else ys)
  keeps x y xs ys e h = elim (Bool-cases (p x)) [
    | inl t ↦ rw (t, sym (ap p e) ∙ t) (cons e h)
    | inr f ↦ rw (f, sym (ap p e) ∙ f) h
  ]

  both :
      (x y : A) (l : List A) (s t : Bool)
      → Permᴰ
          (if s then x ∷ (if t then y ∷ l else l) else (if t then y ∷ l else l))
          (if t then y ∷ (if s then x ∷ l else l) else (if s then x ∷ l else l))
  both x y l true true = swap refl refl
  both x y l true false = Reorder.refl _
  both x y l false t = Reorder.refl _

  keeps_swapped :
      (x y z w : A) (l : List A)
      → x ≡ w
      → y ≡ z
      → Permᴰ (filter p (x ∷ y ∷ l)) (filter p (z ∷ w ∷ l))
  keeps_swapped x y z w l e f =
      subst (λ u. Permᴰ (filter p (x ∷ y ∷ l)) (filter p (z ∷ u ∷ l))) e
        (subst (λ u. Permᴰ (filter p (x ∷ y ∷ l)) (filter p (u ∷ x ∷ l))) f
          (both x y (filter p l) (p x) (p y)))

  pub filter-Perm : {xs ys : List A} → Permᴰ xs ys → Permᴰ (filter p xs) (filter p ys)
  filter-Perm nil = nil
  filter-Perm (cons {a = a} {b = b} {l₁ = xs} {l₂ = ys} e h) =
      keeps a b (filter p xs) (filter p ys) e (filter-Perm h)
  filter-Perm (swap {a = a} {b = b} {a' = c} {b' = d} {l = l} e f) = keeps_swapped a b c d l e f
  filter-Perm (trans g h) = trans (filter-Perm g) (filter-Perm h)
