-- ===== src/Std/HashMap.antt =====
-- `std::collections::HashMap`: `get`, `insert`, `remove`, `contains_key`, `entry` and iteration.
-- Iteration visits the entries in the order of the list; a table may hold them in any order, and
-- so theorems range over every such list.
use minerva_server.Std.Key.{Key}
use minerva_server.Prelude.{
  ◌≡◌, ite, Bool, true, false, Option, none, some, List, [], ◌∷◌, arith, map, get_or, length, ◌+◌,
  ◌≤◌,
}

abbrev pub HashMap {ℓ} : Type ℓ → Type ℓ → Type ℓ
HashMap K V = List (K × V)

module _ {ℓ} {K V : Type ℓ} where
  abbrev pub keys : HashMap K V → List K
  keys = map (λ e. e.0)

  abbrev pub values : HashMap K V → List V
  values = map (λ e. e.1)

module _ {ℓ} {K V : Type ℓ} ⦃k : Key K⦄ where
  unfoldable pub get : HashMap K V → K → Option V
  get [] a = none
  get ((b, v) ∷ m) a = ite (k.same b a) (some v) (get m a)

  unfoldable pub remove : HashMap K V → K → HashMap K V
  remove [] a = []
  remove ((b, v) ∷ m) a = ite (k.same b a) (remove m a) ((b, v) ∷ remove m a)

  unfoldable pub insert : HashMap K V → K → V → HashMap K V
  unfolding remove
  insert m a v = (a, v) ∷ remove m a

  abbrev pub contains_key : HashMap K V → K → Bool
  contains_key m a = elim (get m a) [ none ↦ false | some _ ↦ true ]

  -- `m.entry(a).or_insert_with(..)`: nothing happens to a key that is there.
  unfoldable pub or_insert : HashMap K V → K → V → HashMap K V
  unfolding insert
  or_insert m a v = elim (get m a) [ none ↦ insert m a v | some _ ↦ m ]

  pub get-remove :
      (m : HashMap K V) (a b : K) → get (remove m a) b ≡ ite (k.same a b) none (get m b)
  unfolding get remove
  get-remove [] a b = ground arith
  get-remove ((c, v) ∷ m) a b = ground (arith, get-remove m a b)

  pub get-insert :
      (m : HashMap K V) (a b : K) (v : V)
      → get (insert m a v) b ≡ ite (k.same a b) (some v) (get m b)
  unfolding get insert
  get-insert m a b v = ground (arith, get-remove m a b)

  pub get-or_insert :
      (m : HashMap K V) (a b : K) (v : V)
      → get (or_insert m a v) b ≡ ite (k.same a b) (some (get_or (get m a) v)) (get m b)
  unfolding or_insert
  get-or_insert m a b v = ground (arith, get-insert m a b v)

  -- No key stands twice.
  abbrev pub Distinct : HashMap K V → Type ℓ
  Distinct [] = Unit
  Distinct ((a, v) ∷ m) = (get m a ≡ none) × Distinct m

  pub remove-Distinct : (m : HashMap K V) (a : K) → Distinct m → Distinct (remove m a)
  unfolding remove
  remove-Distinct [] a d = tt
  remove-Distinct ((b, v) ∷ m) a d = ground (arith, remove-Distinct m a d.1, get-remove m a b)

  pub insert-Distinct : (m : HashMap K V) (a : K) (v : V) → Distinct m → Distinct (insert m a v)
  unfolding insert
  insert-Distinct m a v d = (ground (arith, get-remove m a a), remove-Distinct m a d)

  length-remove : (m : HashMap K V) (a : K) → length (remove m a) ≤ length m
  unfolding remove
  length-remove [] a = omega arith
  length-remove ((b, v) ∷ m) a = ground (arith, length-remove m a)

  pub length-or_insert : (m : HashMap K V) (a : K) (v : V) → length (or_insert m a v) ≤ length m + 1
  unfolding or_insert insert
  length-or_insert m a v = ground (arith, length-remove m a)
