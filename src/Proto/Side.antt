-- ===== src/Proto/Side.antt =====
-- The enum `Side`.
use minerva_server.Std.Num.{ℤ, pos, int_eq, int_eq_iff}
use minerva_server.Prelude.{
  ◌≡◌, refl, ◌↔◌, Bool, true, false, Option, none, some, Result, ok, err, String, string_eq, eq_iff,
  if◌then◌else◌, arith,
}
use minerva_server.Proto.Unknown.{UnknownEnumValue}

pub data Side : Type 0 where
  unspecified blufor opfor independent civilian : Side

-- `as i32`.
unfoldable pub to_i32 : Side → ℤ
to_i32 unspecified = pos 0
to_i32 blufor = pos 1
to_i32 opfor = pos 2
to_i32 independent = pos 3
to_i32 civilian = pos 4

-- `TryFrom<i32>` as prost documents it for the derived `Enumeration`: the variant with that number.
unfoldable pub try_from : ℤ → Result Side UnknownEnumValue
unfolding to_i32
try_from n =
    if int_eq n (to_i32 unspecified)
    then ok unspecified
    else if int_eq n (to_i32 blufor)
    then ok blufor
    else if int_eq n (to_i32 opfor)
    then ok opfor
    else if int_eq n (to_i32 independent)
    then ok independent
    else if int_eq n (to_i32 civilian)
    then ok civilian
    else err (record { value = n })

unfoldable pub as_str_name : Side → String
as_str_name unspecified = "SIDE_UNSPECIFIED"
as_str_name blufor = "SIDE_BLUFOR"
as_str_name opfor = "SIDE_OPFOR"
as_str_name independent = "SIDE_INDEPENDENT"
as_str_name civilian = "SIDE_CIVILIAN"

unfoldable pub from_str_name : String → Option Side
from_str_name value =
    if string_eq value "SIDE_UNSPECIFIED"
    then some unspecified
    else if string_eq value "SIDE_BLUFOR"
    then some blufor
    else if string_eq value "SIDE_OPFOR"
    then some opfor
    else if string_eq value "SIDE_INDEPENDENT"
    then some independent
    else if string_eq value "SIDE_CIVILIAN"
    then some civilian
    else none

named : (value : String) (v : Side) → from_str_name value ≡ some v → value ≡ as_str_name v
unfolding from_str_name as_str_name
named value unspecified h = ground (
  arith,
  eq_iff value "SIDE_UNSPECIFIED",
  eq_iff value "SIDE_BLUFOR",
  eq_iff value "SIDE_OPFOR",
  eq_iff value "SIDE_INDEPENDENT",
  eq_iff value "SIDE_CIVILIAN",
)
named value blufor h = ground (
  arith,
  eq_iff value "SIDE_UNSPECIFIED",
  eq_iff value "SIDE_BLUFOR",
  eq_iff value "SIDE_OPFOR",
  eq_iff value "SIDE_INDEPENDENT",
  eq_iff value "SIDE_CIVILIAN",
)
named value opfor h = ground (
  arith,
  eq_iff value "SIDE_UNSPECIFIED",
  eq_iff value "SIDE_BLUFOR",
  eq_iff value "SIDE_OPFOR",
  eq_iff value "SIDE_INDEPENDENT",
  eq_iff value "SIDE_CIVILIAN",
)
named value independent h = ground (
  arith,
  eq_iff value "SIDE_UNSPECIFIED",
  eq_iff value "SIDE_BLUFOR",
  eq_iff value "SIDE_OPFOR",
  eq_iff value "SIDE_INDEPENDENT",
  eq_iff value "SIDE_CIVILIAN",
)
named value civilian h = ground (
  arith,
  eq_iff value "SIDE_UNSPECIFIED",
  eq_iff value "SIDE_BLUFOR",
  eq_iff value "SIDE_OPFOR",
  eq_iff value "SIDE_INDEPENDENT",
  eq_iff value "SIDE_CIVILIAN",
)

-- A text names a variant exactly when it is the variant's name.
pub from_str_name_iff :
    (value : String) (v : Side) → (from_str_name value ≡ some v) ↔ (value ≡ as_str_name v)
unfolding from_str_name as_str_name
from_str_name_iff value unspecified = (λ h. named value unspecified h, λ e. rw e refl)
from_str_name_iff value blufor = (λ h. named value blufor h, λ e. rw e refl)
from_str_name_iff value opfor = (λ h. named value opfor h, λ e. rw e refl)
from_str_name_iff value independent = (λ h. named value independent h, λ e. rw e refl)
from_str_name_iff value civilian = (λ h. named value civilian h, λ e. rw e refl)

-- `Side::try_from(n) == Ok(side)`.
unfoldable pub has_side : ℤ → Side → Bool
unfolding try_from
has_side n side = elim (try_from n) [ ok s ↦ int_eq (to_i32 s) (to_i32 side) | err _ ↦ false ]

pub has_side_iff : (n : ℤ) (side : Side) → (has_side n side ≡ true) ↔ (n ≡ to_i32 side)
unfolding has_side
has_side_iff n unspecified = ground (
  arith,
  int_eq_iff n (pos 0),
  int_eq_iff n (pos 1),
  int_eq_iff n (pos 2),
  int_eq_iff n (pos 3),
  int_eq_iff n (pos 4),
)
has_side_iff n blufor = ground (
  arith,
  int_eq_iff n (pos 0),
  int_eq_iff n (pos 1),
  int_eq_iff n (pos 2),
  int_eq_iff n (pos 3),
  int_eq_iff n (pos 4),
)
has_side_iff n opfor = ground (
  arith,
  int_eq_iff n (pos 0),
  int_eq_iff n (pos 1),
  int_eq_iff n (pos 2),
  int_eq_iff n (pos 3),
  int_eq_iff n (pos 4),
)
has_side_iff n independent = ground (
  arith,
  int_eq_iff n (pos 0),
  int_eq_iff n (pos 1),
  int_eq_iff n (pos 2),
  int_eq_iff n (pos 3),
  int_eq_iff n (pos 4),
)
has_side_iff n civilian = ground (
  arith,
  int_eq_iff n (pos 0),
  int_eq_iff n (pos 1),
  int_eq_iff n (pos 2),
  int_eq_iff n (pos 3),
  int_eq_iff n (pos 4),
)
