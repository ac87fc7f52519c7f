-- ===== src/Proto/CommandResult.antt =====
-- The enum `CommandResult`.
use minerva_server.Std.Num.{ℤ, pos}
use minerva_server.Prelude.{
  ◌≡◌, refl, ◌↔◌, Option, none, some, String, string_eq, eq_iff, if◌then◌else◌, arith,
}

pub data CommandResult : Type 0 where
  unspecified success failure : CommandResult

-- `as i32`.
unfoldable pub to_i32 : CommandResult → ℤ
to_i32 unspecified = pos 0
to_i32 success = pos 1
to_i32 failure = pos 2

unfoldable pub as_str_name : CommandResult → String
as_str_name unspecified = "COMMAND_RESULT_UNSPECIFIED"
as_str_name success = "COMMAND_RESULT_SUCCESS"
as_str_name failure = "COMMAND_RESULT_FAILURE"

unfoldable pub from_str_name : String → Option CommandResult
from_str_name value =
    if string_eq value "COMMAND_RESULT_UNSPECIFIED"
    then some unspecified
    else if string_eq value "COMMAND_RESULT_SUCCESS"
    then some success
    else if string_eq value "COMMAND_RESULT_FAILURE"
    then some failure
    else none

named : (value : String) (v : CommandResult) → from_str_name value ≡ some v → value ≡ as_str_name v
unfolding from_str_name as_str_name
named value unspecified h = ground (
  arith,
  eq_iff value "COMMAND_RESULT_UNSPECIFIED",
  eq_iff value "COMMAND_RESULT_SUCCESS",
  eq_iff value "COMMAND_RESULT_FAILURE",
)
named value success h = ground (
  arith,
  eq_iff value "COMMAND_RESULT_UNSPECIFIED",
  eq_iff value "COMMAND_RESULT_SUCCESS",
  eq_iff value "COMMAND_RESULT_FAILURE",
)
named value failure h = ground (
  arith,
  eq_iff value "COMMAND_RESULT_UNSPECIFIED",
  eq_iff value "COMMAND_RESULT_SUCCESS",
  eq_iff value "COMMAND_RESULT_FAILURE",
)

-- A text names a variant exactly when it is the variant's name.
pub from_str_name_iff :
    (value : String) (v : CommandResult) → (from_str_name value ≡ some v) ↔ (value ≡ as_str_name v)
unfolding from_str_name as_str_name
from_str_name_iff value unspecified = (λ h. named value unspecified h, λ e. rw e refl)
from_str_name_iff value success = (λ h. named value success h, λ e. rw e refl)
from_str_name_iff value failure = (λ h. named value failure h, λ e. rw e refl)
