-- ===== src/Std/Num.antt =====
-- The numbers of messages: signed integers, and floats by their bits.
use minerva_server.Std.PartialEq.{PartialEq, from_iff}
use minerva_server.Prelude.{
  ℕ, ◌^◌, ◌%◌, ◌≡◌, ◌↔◌, Bool, true, false, ◌&&◌, ◌||◌, compare, Ordering, ltb, if◌then◌else◌,
  arith,
}

-- `negsuc n` is -(n + 1). The source only stores and compares `i32` and `i64` values.
pub data ℤ : Type 0 where
  pos : ℕ → ℤ
  negsuc : ℕ → ℤ

abbrev pub nat_eq : ℕ → ℕ → Bool
nat_eq a b = elim (compare a b) [ Ordering.eq ↦ true | _ ↦ false ]

abbrev pub int_eq : ℤ → ℤ → Bool
int_eq (pos a) (pos b) = nat_eq a b
int_eq (negsuc a) (negsuc b) = nat_eq a b
int_eq _ _ = false

pub int_eq_iff : (a b : ℤ) → (int_eq a b ≡ true) ↔ (a ≡ b)
int_eq_iff a b = ground arith

instance abbrev pub int_partial_eq : PartialEq ℤ
int_partial_eq = from_iff int_eq int_eq_iff

abbrev pub bool_eq : Bool → Bool → Bool
bool_eq true b = b
bool_eq false true = false
bool_eq false false = true

pub bool_eq_iff : (a b : Bool) → (bool_eq a b ≡ true) ↔ (a ≡ b)
bool_eq_iff a b = ground arith

instance abbrev pub bool_partial_eq : PartialEq Bool
bool_partial_eq = from_iff bool_eq bool_eq_iff

-- IEEE 754: the sign is the top bit, `modulus` is its weight and `infinity` the bits of +∞.
is_nan : ℕ → ℕ → ℕ → Bool
is_nan modulus infinity bits = ltb infinity (bits % modulus)

is_zero : ℕ → ℕ → Bool
is_zero modulus bits = nat_eq (bits % modulus) 0

-- NaN equals nothing, and +0 equals -0.
unfoldable pub float_eq : ℕ → ℕ → ℕ → ℕ → Bool
unfolding is_nan is_zero
float_eq modulus infinity a b =
    if is_nan modulus infinity a || is_nan modulus infinity b
    then false
    else nat_eq a b || (is_zero modulus a && is_zero modulus b)

float_eq_symm : (m i a b : ℕ) → float_eq m i a b ≡ true → float_eq m i b a ≡ true
unfolding float_eq
float_eq_symm m i a b h = ground arith

float_eq_trans :
    (m i a b c : ℕ) → float_eq m i a b ≡ true → float_eq m i b c ≡ true → float_eq m i a c ≡ true
unfolding float_eq
float_eq_trans m i a b c h k = ground arith

pub record F32 : Type 0 where
  pub bits : ℕ

pub record F64 : Type 0 where
  pub bits : ℕ

unfoldable pub f32_eq : F32 → F32 → Bool
unfolding float_eq
f32_eq a b = float_eq (2 ^ 31) 0x7f800000 a.bits b.bits

unfoldable pub f64_eq : F64 → F64 → Bool
unfolding float_eq
f64_eq a b = float_eq (2 ^ 63) 0x7ff0000000000000 a.bits b.bits

pub f32_eq_symm : (a b : F32) → f32_eq a b ≡ true → f32_eq b a ≡ true
unfolding f32_eq
f32_eq_symm a b = float_eq_symm _ _ a.bits b.bits

pub f32_eq_trans : (a b c : F32) → f32_eq a b ≡ true → f32_eq b c ≡ true → f32_eq a c ≡ true
unfolding f32_eq
f32_eq_trans a b c = float_eq_trans _ _ a.bits b.bits c.bits

pub f64_eq_symm : (a b : F64) → f64_eq a b ≡ true → f64_eq b a ≡ true
unfolding f64_eq
f64_eq_symm a b = float_eq_symm _ _ a.bits b.bits

pub f64_eq_trans : (a b c : F64) → f64_eq a b ≡ true → f64_eq b c ≡ true → f64_eq a c ≡ true
unfolding f64_eq
f64_eq_trans a b c = float_eq_trans _ _ a.bits b.bits c.bits

instance abbrev pub f32_partial_eq : PartialEq F32
f32_partial_eq = record { eq = f32_eq; eq_symm = f32_eq_symm; eq_trans = f32_eq_trans }

instance abbrev pub f64_partial_eq : PartialEq F64
f64_partial_eq = record { eq = f64_eq; eq_symm = f64_eq_symm; eq_trans = f64_eq_trans }
