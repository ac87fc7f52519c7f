-- ===== src/Proto/Capability.antt =====
-- The enum `Capability`.
use minerva_server.Std.Num.{ℤ, pos}
use minerva_server.Prelude.{
  ◌≡◌, refl, ◌↔◌, Option, none, some, String, string_eq, eq_iff, if◌then◌else◌, arith,
}

pub data Capability : Type 0 where
  unspecified airport seaport factory : Capability

-- `as i32`.
unfoldable pub to_i32 : Capability → ℤ
to_i32 unspecified = pos 0
to_i32 airport = pos 1
to_i32 seaport = pos 2
to_i32 factory = pos 3

unfoldable pub as_str_name : Capability → String
as_str_name unspecified = "CAPABILITY_UNSPECIFIED"
as_str_name airport = "CAPABILITY_AIRPORT"
as_str_name seaport = "CAPABILITY_SEAPORT"
as_str_name factory = "CAPABILITY_FACTORY"

unfoldable pub from_str_name : String → Option Capability
from_str_name value =
    if string_eq value "CAPABILITY_UNSPECIFIED"
    then some unspecified
    else if string_eq value "CAPABILITY_AIRPORT"
    then some airport
    else if string_eq value "CAPABILITY_SEAPORT"
    then some seaport
    else if string_eq value "CAPABILITY_FACTORY"
    then some factory
    else none

named : (value : String) (v : Capability) → from_str_name value ≡ some v → value ≡ as_str_name v
unfolding from_str_name as_str_name
named value unspecified h = ground (
  arith,
  eq_iff value "CAPABILITY_UNSPECIFIED",
  eq_iff value "CAPABILITY_AIRPORT",
  eq_iff value "CAPABILITY_SEAPORT",
  eq_iff value "CAPABILITY_FACTORY",
)
named value airport h = ground (
  arith,
  eq_iff value "CAPABILITY_UNSPECIFIED",
  eq_iff value "CAPABILITY_AIRPORT",
  eq_iff value "CAPABILITY_SEAPORT",
  eq_iff value "CAPABILITY_FACTORY",
)
named value seaport h = ground (
  arith,
  eq_iff value "CAPABILITY_UNSPECIFIED",
  eq_iff value "CAPABILITY_AIRPORT",
  eq_iff value "CAPABILITY_SEAPORT",
  eq_iff value "CAPABILITY_FACTORY",
)
named value factory h = ground (
  arith,
  eq_iff value "CAPABILITY_UNSPECIFIED",
  eq_iff value "CAPABILITY_AIRPORT",
  eq_iff value "CAPABILITY_SEAPORT",
  eq_iff value "CAPABILITY_FACTORY",
)

-- A text names a variant exactly when it is the variant's name.
pub from_str_name_iff :
    (value : String) (v : Capability) → (from_str_name value ≡ some v) ↔ (value ≡ as_str_name v)
unfolding from_str_name as_str_name
from_str_name_iff value unspecified = (λ h. named value unspecified h, λ e. rw e refl)
from_str_name_iff value airport = (λ h. named value airport h, λ e. rw e refl)
from_str_name_iff value seaport = (λ h. named value seaport h, λ e. rw e refl)
from_str_name_iff value factory = (λ h. named value factory h, λ e. rw e refl)
