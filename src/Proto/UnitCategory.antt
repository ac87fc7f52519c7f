-- ===== src/Proto/UnitCategory.antt =====
-- The enum `UnitCategory`.
use minerva_server.Std.Num.{ℤ, pos}
use minerva_server.Prelude.{
  ◌≡◌, refl, ◌↔◌, Option, none, some, String, string_eq, eq_iff, if◌then◌else◌, arith,
}

pub data UnitCategory : Type 0 where
  unspecified infantry vehicle plane helicopter : UnitCategory

-- `as i32`.
unfoldable pub to_i32 : UnitCategory → ℤ
to_i32 unspecified = pos 0
to_i32 infantry = pos 1
to_i32 vehicle = pos 2
to_i32 plane = pos 3
to_i32 helicopter = pos 4

unfoldable pub as_str_name : UnitCategory → String
as_str_name unspecified = "UNIT_CATEGORY_UNSPECIFIED"
as_str_name infantry = "UNIT_CATEGORY_INFANTRY"
as_str_name vehicle = "UNIT_CATEGORY_VEHICLE"
as_str_name plane = "UNIT_CATEGORY_PLANE"
as_str_name helicopter = "UNIT_CATEGORY_HELICOPTER"

unfoldable pub from_str_name : String → Option UnitCategory
from_str_name value =
    if string_eq value "UNIT_CATEGORY_UNSPECIFIED"
    then some unspecified
    else if string_eq value "UNIT_CATEGORY_INFANTRY"
    then some infantry
    else if string_eq value "UNIT_CATEGORY_VEHICLE"
    then some vehicle
    else if string_eq value "UNIT_CATEGORY_PLANE"
    then some plane
    else if string_eq value "UNIT_CATEGORY_HELICOPTER"
    then some helicopter
    else none

named : (value : String) (v : UnitCategory) → from_str_name value ≡ some v → value ≡ as_str_name v
unfolding from_str_name as_str_name
named value unspecified h = ground (
  arith,
  eq_iff value "UNIT_CATEGORY_UNSPECIFIED",
  eq_iff value "UNIT_CATEGORY_INFANTRY",
  eq_iff value "UNIT_CATEGORY_VEHICLE",
  eq_iff value "UNIT_CATEGORY_PLANE",
  eq_iff value "UNIT_CATEGORY_HELICOPTER",
)
named value infantry h = ground (
  arith,
  eq_iff value "UNIT_CATEGORY_UNSPECIFIED",
  eq_iff value "UNIT_CATEGORY_INFANTRY",
  eq_iff value "UNIT_CATEGORY_VEHICLE",
  eq_iff value "UNIT_CATEGORY_PLANE",
  eq_iff value "UNIT_CATEGORY_HELICOPTER",
)
named value vehicle h = ground (
  arith,
  eq_iff value "UNIT_CATEGORY_UNSPECIFIED",
  eq_iff value "UNIT_CATEGORY_INFANTRY",
  eq_iff value "UNIT_CATEGORY_VEHICLE",
  eq_iff value "UNIT_CATEGORY_PLANE",
  eq_iff value "UNIT_CATEGORY_HELICOPTER",
)
named value plane h = ground (
  arith,
  eq_iff value "UNIT_CATEGORY_UNSPECIFIED",
  eq_iff value "UNIT_CATEGORY_INFANTRY",
  eq_iff value "UNIT_CATEGORY_VEHICLE",
  eq_iff value "UNIT_CATEGORY_PLANE",
  eq_iff value "UNIT_CATEGORY_HELICOPTER",
)
named value helicopter h = ground (
  arith,
  eq_iff value "UNIT_CATEGORY_UNSPECIFIED",
  eq_iff value "UNIT_CATEGORY_INFANTRY",
  eq_iff value "UNIT_CATEGORY_VEHICLE",
  eq_iff value "UNIT_CATEGORY_PLANE",
  eq_iff value "UNIT_CATEGORY_HELICOPTER",
)

-- A text names a variant exactly when it is the variant's name.
pub from_str_name_iff :
    (value : String) (v : UnitCategory) → (from_str_name value ≡ some v) ↔ (value ≡ as_str_name v)
unfolding from_str_name as_str_name
from_str_name_iff value unspecified = (λ h. named value unspecified h, λ e. rw e refl)
from_str_name_iff value infantry = (λ h. named value infantry h, λ e. rw e refl)
from_str_name_iff value vehicle = (λ h. named value vehicle h, λ e. rw e refl)
from_str_name_iff value plane = (λ h. named value plane h, λ e. rw e refl)
from_str_name_iff value helicopter = (λ h. named value helicopter h, λ e. rw e refl)
