-- ===== src/Proto/WaypointType.antt =====
-- The enum `WaypointType`.
use minerva_server.Std.Num.{ℤ, pos}
use minerva_server.Prelude.{
  ◌≡◌, refl, ◌↔◌, Option, none, some, String, string_eq, eq_iff, if◌then◌else◌, arith,
}

pub data WaypointType : Type 0 where
  unspecified move attack guard loiter : WaypointType

-- `as i32`.
unfoldable pub to_i32 : WaypointType → ℤ
to_i32 unspecified = pos 0
to_i32 move = pos 1
to_i32 attack = pos 2
to_i32 guard = pos 3
to_i32 loiter = pos 4

unfoldable pub as_str_name : WaypointType → String
as_str_name unspecified = "WAYPOINT_TYPE_UNSPECIFIED"
as_str_name move = "WAYPOINT_TYPE_MOVE"
as_str_name attack = "WAYPOINT_TYPE_ATTACK"
as_str_name guard = "WAYPOINT_TYPE_GUARD"
as_str_name loiter = "WAYPOINT_TYPE_LOITER"

unfoldable pub from_str_name : String → Option WaypointType
from_str_name value =
    if string_eq value "WAYPOINT_TYPE_UNSPECIFIED"
    then some unspecified
    else if string_eq value "WAYPOINT_TYPE_MOVE"
    then some move
    else if string_eq value "WAYPOINT_TYPE_ATTACK"
    then some attack
    else if string_eq value "WAYPOINT_TYPE_GUARD"
    then some guard
    else if string_eq value "WAYPOINT_TYPE_LOITER"
    then some loiter
    else none

named : (value : String) (v : WaypointType) → from_str_name value ≡ some v → value ≡ as_str_name v
unfolding from_str_name as_str_name
named value unspecified h = ground (
  arith,
  eq_iff value "WAYPOINT_TYPE_UNSPECIFIED",
  eq_iff value "WAYPOINT_TYPE_MOVE",
  eq_iff value "WAYPOINT_TYPE_ATTACK",
  eq_iff value "WAYPOINT_TYPE_GUARD",
  eq_iff value "WAYPOINT_TYPE_LOITER",
)
named value move h = ground (
  arith,
  eq_iff value "WAYPOINT_TYPE_UNSPECIFIED",
  eq_iff value "WAYPOINT_TYPE_MOVE",
  eq_iff value "WAYPOINT_TYPE_ATTACK",
  eq_iff value "WAYPOINT_TYPE_GUARD",
  eq_iff value "WAYPOINT_TYPE_LOITER",
)
named value attack h = ground (
  arith,
  eq_iff value "WAYPOINT_TYPE_UNSPECIFIED",
  eq_iff value "WAYPOINT_TYPE_MOVE",
  eq_iff value "WAYPOINT_TYPE_ATTACK",
  eq_iff value "WAYPOINT_TYPE_GUARD",
  eq_iff value "WAYPOINT_TYPE_LOITER",
)
named value guard h = ground (
  arith,
  eq_iff value "WAYPOINT_TYPE_UNSPECIFIED",
  eq_iff value "WAYPOINT_TYPE_MOVE",
  eq_iff value "WAYPOINT_TYPE_ATTACK",
  eq_iff value "WAYPOINT_TYPE_GUARD",
  eq_iff value "WAYPOINT_TYPE_LOITER",
)
named value loiter h = ground (
  arith,
  eq_iff value "WAYPOINT_TYPE_UNSPECIFIED",
  eq_iff value "WAYPOINT_TYPE_MOVE",
  eq_iff value "WAYPOINT_TYPE_ATTACK",
  eq_iff value "WAYPOINT_TYPE_GUARD",
  eq_iff value "WAYPOINT_TYPE_LOITER",
)

-- A text names a variant exactly when it is the variant's name.
pub from_str_name_iff :
    (value : String) (v : WaypointType) → (from_str_name value ≡ some v) ↔ (value ≡ as_str_name v)
unfolding from_str_name as_str_name
from_str_name_iff value unspecified = (λ h. named value unspecified h, λ e. rw e refl)
from_str_name_iff value move = (λ h. named value move h, λ e. rw e refl)
from_str_name_iff value attack = (λ h. named value attack h, λ e. rw e refl)
from_str_name_iff value guard = (λ h. named value guard h, λ e. rw e refl)
from_str_name_iff value loiter = (λ h. named value loiter h, λ e. rw e refl)
