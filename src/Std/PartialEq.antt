-- ===== src/Std/PartialEq.antt =====
-- `PartialEq`, as `#[derive(PartialEq)]` builds it: symmetric and transitive. It need not be
-- reflexive, since a float is not equal to itself when it is NaN.
use minerva_server.Prelude.{
  ◌≡◌, sym, ◌∙◌, ◌↔◌, ◌⊎◌, inl, inr, Bool, true, false, ◌&&◌, Option, none, some, List, [], ◌∷◌,
  arith, String, string_eq, eq_iff,
}

pub record PartialEq {ℓ} (A : Type ℓ) : Type ℓ where
  pub eq : A → A → Bool
  pub eq_symm : (a b : A) → eq a b ≡ true → eq b a ≡ true
  pub eq_trans : (a b c : A) → eq a b ≡ true → eq b c ≡ true → eq a c ≡ true

infix 50 ◌==◌
abbrev pub ◌==◌ {ℓ} : {A : Type ℓ} ⦃e : PartialEq A⦄ → A → A → Bool
◌==◌ ⦃e⦄ = e.eq

-- A test that decides equality.
abbrev pub from_iff {ℓ} :
    {A : Type ℓ} (eq : A → A → Bool) → ((a b : A) → (eq a b ≡ true) ↔ (a ≡ b)) → PartialEq A
from_iff eq iff = record {
  eq = eq;
  eq_symm = λ a b h. (iff b a).1 (sym ((iff a b).0 h));
  eq_trans = λ a b c h k. (iff a c).1 ((iff a b).0 h ∙ (iff b c).0 k);
}

instance abbrev pub string_partial_eq : PartialEq String
string_partial_eq = from_iff string_eq eq_iff

module _ {ℓ} {A : Type ℓ} ⦃e : PartialEq A⦄ where
  abbrev pub option_eq : Option A → Option A → Bool
  option_eq none none = true
  option_eq none (some b) = false
  option_eq (some a) none = false
  option_eq (some a) (some b) = a == b

  abbrev pub list_eq : List A → List A → Bool
  list_eq [] [] = true
  list_eq [] (b ∷ bs) = false
  list_eq (a ∷ xs) [] = false
  list_eq (a ∷ xs) (b ∷ bs) = a == b && list_eq xs bs

  pub option_eq_symm : (a b : Option A) → option_eq a b ≡ true → option_eq b a ≡ true
  option_eq_symm (some a) (some b) h = e.eq_symm a b h
  option_eq_symm none b h = ground arith
  option_eq_symm a none h = ground arith

  pub option_eq_trans :
      (a b c : Option A) → option_eq a b ≡ true → option_eq b c ≡ true → option_eq a c ≡ true
  option_eq_trans (some a) (some b) (some c) h k = e.eq_trans a b c h k
  option_eq_trans a b c h k = ground arith

  pub list_eq_symm : (a b : List A) → list_eq a b ≡ true → list_eq b a ≡ true
  list_eq_symm (a ∷ l) (b ∷ m) h = ground (arith, e.eq_symm a b, list_eq_symm l m)
  list_eq_symm a b h = ground arith

  pub list_eq_trans :
      (a b c : List A) → list_eq a b ≡ true → list_eq b c ≡ true → list_eq a c ≡ true
  list_eq_trans (a ∷ l) (b ∷ m) (c ∷ n) h k = ground (arith, e.eq_trans a b c, list_eq_trans l m n)
  list_eq_trans a b c h k = ground arith

  instance abbrev pub option_partial_eq : PartialEq (Option A)
  option_partial_eq = record {
    eq = option_eq;
    eq_symm = option_eq_symm;
    eq_trans = option_eq_trans;
  }

  instance abbrev pub list_partial_eq : PartialEq (List A)
  list_partial_eq = record { eq = list_eq; eq_symm = list_eq_symm; eq_trans = list_eq_trans }

  -- The same value, or two that compare equal.
  abbrev pub Agrees : A → A → Type ℓ
  Agrees a b = (a ≡ b) ⊎ ((a == b) ≡ true)

  pub Agrees-trans : (a b c : A) → Agrees a b → Agrees b c → Agrees a c
  Agrees-trans a b c (inl p) k = rw p k
  Agrees-trans a b c (inr h) (inl q) = inr (rw (← q) h)
  Agrees-trans a b c (inr h) (inr k) = inr (e.eq_trans a b c h k)

module _ {ℓ} {A : Type ℓ} ⦃e : PartialEq A⦄ where
  pub symm : (a b : A) → (a == b) ≡ true → (b == a) ≡ true
  symm = e.eq_symm

  pub trans : (a b c : A) → (a == b) ≡ true → (b == c) ≡ true → (a == c) ≡ true
  trans = e.eq_trans

-- The laws of a conjunction, from those of its parts.
pub and_trans :
    {p q r p' q' r' : Bool}
    → (p ≡ true → q ≡ true → r ≡ true)
    → (p' ≡ true → q' ≡ true → r' ≡ true)
    → (p && p') ≡ true
    → (q && q') ≡ true
    → (r && r') ≡ true
and_trans {p} {q} {r} {p'} {q'} {r'} f g h k = ground arith
