-- ===== src/Std/Key.antt =====
-- `Eq`, `Hash` and `Ord` of a map's or a set's key: decidable equality and a strict total order.
use Prim.Native.Char.{code}
use Prim.Native.String.compare as compare_clauses
use Prim.Native.String.{[] as empty, ◌∷◌ as ◌∷ₛ◌, compare as compare_string, then}
use text.Mathlib.TextPositions.{compare_refl}
use text.Mathlib.TextEquality.{path_by_compare}
use minerva_server.Prelude.{
  ℕ, ◌≡◌, refl, ap, sym, ◌∙◌, ◌↔◌, Bool, true, false, false≢true, String, string_eq, eq_iff,
  Ordering, compare, arith, ℕ_discrete,
}

pub record Key {ℓ} (K : Type ℓ) : Type ℓ where
  pub same : Discrete K
  pub order : K → K → Ordering
  pub order_refl : (a : K) → order a a ≡ Ordering.eq
  pub order_eq : (a b : K) → order a b ≡ Ordering.eq → a ≡ b
  pub order_gt : (a b : K) → order a b ≡ Ordering.gt → order b a ≡ Ordering.lt
  pub order_trans :
      (a b c : K) → order a b ≡ Ordering.lt → order b c ≡ Ordering.lt → order a c ≡ Ordering.lt

decide_by {ℓ} : {P : Type ℓ} (b : Bool) → (b ≡ true) ↔ P → Dec P
decide_by true e = yes (e.0 refl)
decide_by false e = no (λ p. false≢true (e.1 p))

unfoldable pub String_discrete : Discrete String
unfolding decide_by
String_discrete s t = decide_by (string_eq s t) (eq_iff s t)

-- `compare` is `Ord` of `str`: code points in order, which is the order of the UTF-8 bytes.
then_gt :
    (m n : ℕ) (o p : Ordering)
    → (o ≡ Ordering.gt → p ≡ Ordering.lt)
    → then (compare m n) o ≡ Ordering.gt
    → then (compare n m) p ≡ Ordering.lt
then_gt m n o p f h = ground arith

then_trans :
    (l m n : ℕ) (o p q : Ordering)
    → (o ≡ Ordering.lt → p ≡ Ordering.lt → q ≡ Ordering.lt)
    → then (compare l m) o ≡ Ordering.lt
    → then (compare m n) p ≡ Ordering.lt
    → then (compare l n) q ≡ Ordering.lt
then_trans l m n o p q f h k = ground arith

pub string_gt : (s t : String) → compare_string s t ≡ Ordering.gt → compare_string t s ≡ Ordering.lt
string_gt empty empty h = cc (compare_clauses.nil-nil)
string_gt empty (d ∷ₛ t) h = cc (compare_clauses.nil-cons d t)
string_gt (c ∷ₛ s) empty h = compare_clauses.nil-cons c s
string_gt (c ∷ₛ s) (d ∷ₛ t) h =
    compare_clauses.cons-cons d c t s
    ∙ then_gt (code c) (code d) (compare_string s t) (compare_string t s) (string_gt s t)
        (sym (compare_clauses.cons-cons c d s t) ∙ h)

pub string_trans :
    (s t u : String)
    → compare_string s t ≡ Ordering.lt
    → compare_string t u ≡ Ordering.lt
    → compare_string s u ≡ Ordering.lt
string_trans empty empty u h k = k
string_trans (c ∷ₛ s) empty u h k = cc (compare_clauses.cons-nil c s)
string_trans s (d ∷ₛ t) empty h k = cc (compare_clauses.cons-nil d t)
string_trans empty (d ∷ₛ t) (e ∷ₛ u) h k = compare_clauses.nil-cons e u
string_trans (c ∷ₛ s) (d ∷ₛ t) (e ∷ₛ u) h k =
    compare_clauses.cons-cons c e s u
    ∙ then_trans (code c) (code d) (code e) (compare_string s t) (compare_string t u)
        (compare_string s u) (string_trans s t u) (sym (compare_clauses.cons-cons c d s t) ∙ h)
        (sym (compare_clauses.cons-cons d e t u) ∙ k)

instance abbrev pub String_key : Key String
String_key = record {
  same = String_discrete;
  order = compare_string;
  order_refl = compare_refl;
  order_eq = path_by_compare;
  order_gt = string_gt;
  order_trans = string_trans;
}

pub nat_gt : (m n : ℕ) → compare m n ≡ Ordering.gt → compare n m ≡ Ordering.lt
nat_gt m n h = ground arith

pub nat_trans :
    (l m n : ℕ) → compare l m ≡ Ordering.lt → compare m n ≡ Ordering.lt → compare l n ≡ Ordering.lt
nat_trans l m n h k = ground arith

pub nat_eq : (m n : ℕ) → compare m n ≡ Ordering.eq → m ≡ n
nat_eq m n h = ground arith

pub nat_refl : (n : ℕ) → compare n n ≡ Ordering.eq
nat_refl n = ground arith

instance abbrev pub nat_key : Key ℕ
nat_key = record {
  same = ℕ_discrete;
  order = compare;
  order_refl = nat_refl;
  order_eq = nat_eq;
  order_gt = nat_gt;
  order_trans = nat_trans;
}

-- A newtype over a key is a key: `#[derive(PartialEq, Eq, Hash, PartialOrd, Ord)]`.
module _ {ℓ κ} {A : Type ℓ} {K : Type κ} (k : Key K) (inner : A → K)
    (inj : (a b : A) → inner a ≡ inner b → a ≡ b) where
  unfoldable pub newtype_discrete : Discrete A
  newtype_discrete a b = elim (k.same (inner a) (inner b)) [
    | yes p ↦ yes (inj a b p)
    | no p ↦ no (λ e. p (ap inner e))
  ]

  abbrev pub newtype_key : Discrete A → Key A
  newtype_key same = record {
    same = same;
    order = λ a b. k.order (inner a) (inner b);
    order_refl = λ a. k.order_refl (inner a);
    order_eq = λ a b h. inj a b (k.order_eq (inner a) (inner b) h);
    order_gt = λ a b. k.order_gt (inner a) (inner b);
    order_trans = λ a b c. k.order_trans (inner a) (inner b) (inner c);
  }
