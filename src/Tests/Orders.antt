-- ===== src/Tests/Orders.antt =====
-- The theorems about ids, messages and commands applied to small inputs.
use minerva_server.Std.HashMap
use minerva_server.Std.Status.{invalid, invalid_argument}
use minerva_server.Std.Key.{nat_key}
use minerva_server.Ids.{
  UnitId_discrete, command_id_key, CommandId, command_id, u64, group_id, CommandId_discrete,
  GroupId_discrete, next,
}
use minerva_server.Ids.Alloc.{nth, nth-distinct}
use minerva_server.Proto.Side
use minerva_server.Proto.Side.{Side}
use minerva_server.Proto.UnitCategory
use minerva_server.Proto.UnitCategory.{UnitCategory}
use minerva_server.Proto.WaypointType
use minerva_server.Proto.WaypointType.{WaypointType}
use minerva_server.Proto.Capability
use minerva_server.Proto.Capability.{Capability}
use minerva_server.Proto.CommandResult
use minerva_server.Proto.CommandResult.{CommandResult}
use minerva_server.Proto.Enums.{name_iff}
use minerva_server.Proto.Commands.{CommandTarget}
use minerva_server.Cache.Inner.{
  joined_group, next_sequence, member_units, member_ids, link_member, unlink_member,
}
use minerva_server.Cache.Writes.{
  upsert_unit, upsert_group, emit_if_changed, emit_left, send_group_event, replace_group_fields,
  move_unit, detach, group_left,
}
use minerva_server.Cache.Groups.{
  upsert_group_with_units, emit_others, snapshot_others, replace_members, drop_units, detach_units,
  insert_units, unit_ids, claim_units,
}
use minerva_server.Cache.Step.{run, step}
use minerva_server.Std.BTreeSet
use minerva_server.Proto.Groups.{group_eq}
use minerva_server.Proto.Units.{proto_unit_eq}
use minerva_server.Cache.Reads.{get_group}
use minerva_server.Commands.{
  Command, patrol, CommandOutcome, success, failure, from_proto, from_oneof, require_group_id,
  ordered_group,
}
use minerva_server.Commands.Decode.{encode, encode_request, IsComplete, from_proto_iff}
use minerva_server.Commands.Dispatcher.{
  new, begin, complete, cancel_all, begins, completes, cancels, perform, perform_all,
}
use minerva_server.Commands.Pending.{
  count, used, answered_once, complete-complete, cancel_all-fails,
}
use minerva_server.Services.Orders.{
  send_command, order, reply, send_command-guarded, send_command-refuses,
}
use minerva_server.Tests.{mission}
use minerva_server.Prelude.{
  ◌+◌, ◌-◌, ◌^◌, arith, ◌≤◌, ◌≡◌, ◌≢◌, ◌↔◌, refl, none, some, List, [], ◌∷◌, ◌++◌, true, false, ok,
  err, ℕ_discrete,
}

name_iff_example :
    ((v : Side) → (Side.from_str_name "SIDE_OPFOR" ≡ some v) ↔ ("SIDE_OPFOR" ≡ Side.as_str_name v))
    × ((v : UnitCategory)
        → (UnitCategory.from_str_name "SIDE_OPFOR" ≡ some v)
          ↔ ("SIDE_OPFOR" ≡ UnitCategory.as_str_name v))
    × ((v : WaypointType)
        → (WaypointType.from_str_name "SIDE_OPFOR" ≡ some v)
          ↔ ("SIDE_OPFOR" ≡ WaypointType.as_str_name v))
    × ((v : Capability)
        → (Capability.from_str_name "SIDE_OPFOR" ≡ some v)
          ↔ ("SIDE_OPFOR" ≡ Capability.as_str_name v))
    × ((v : CommandResult)
        → (CommandResult.from_str_name "SIDE_OPFOR" ≡ some v)
          ↔ ("SIDE_OPFOR" ≡ CommandResult.as_str_name v))
name_iff_example = name_iff "SIDE_OPFOR"

abbrev here : CommandTarget
here = record { x = record { bits = 0 }; y = record { bits = 0 }; z = none }

abbrev pub order_to_alpha : Command
order_to_alpha = patrol (group_id "alpha") (here ∷ []) true

from_proto_iff_example :
    (from_proto (encode_request order_to_alpha) ≡ ok order_to_alpha)
    ↔ ((encode_request order_to_alpha ≡ encode_request order_to_alpha) × IsComplete order_to_alpha)
from_proto_iff_example = from_proto_iff (encode_request order_to_alpha) order_to_alpha

abbrev pub first_id : CommandId
first_id = record { value = 0 }

answered_once_example :
    count 0 (
      used (
        perform_all new
          (begins first_id order_to_alpha ∷ completes first_id success ∷ cancels ∷ [])))
    ≤ 1
answered_once_example =
    answered_once (begins first_id order_to_alpha ∷ completes first_id success ∷ cancels ∷ []) 0

first_pending :
    HashMap.get (perform_all new (begins first_id order_to_alpha ∷ [])).pending first_id ≡ some 0
unfolding perform_all perform begin next HashMap.insert HashMap.get HashMap.remove
    CommandId_discrete ℕ_discrete
first_pending = refl

complete-complete_example :
    let d = perform_all new (begins first_id order_to_alpha ∷ []) in
    let done = complete d (command_id (u64 first_id)) success in
    let again = complete done.0 (command_id (u64 first_id)) (failure "late") in
    (done.1 ≡ true)
    × (done.0.answers ≡ d.answers ++ (0, success) ∷ [])
    × (again.1 ≡ false)
    × (again.0.answers ≡ done.0.answers)
    × (HashMap.get again.0.pending first_id ≡ none)
complete-complete_example =
    complete-complete (begins first_id order_to_alpha ∷ []) first_id 0 success (failure "late")
      first_pending

cancel_all-fails_example :
    (HashMap.get (cancel_all (perform_all new (begins first_id order_to_alpha ∷ []))).answers 0
      ≡ some (failure "cancelled"))
    × (count 0 (used (cancel_all (perform_all new (begins first_id order_to_alpha ∷ [])))) ≡ 1)
    × ((cancel_all (perform_all new (begins first_id order_to_alpha ∷ []))).pending ≡ [])
cancel_all-fails_example =
    cancel_all-fails (begins first_id order_to_alpha ∷ []) first_id 0 first_pending

-- A dispatcher that logs what it is given.
abbrev pub log_order : List Command → Command → CommandOutcome × List Command
log_order log command = (success, command ∷ log)

order_sent :
    (send_command log_order mission (encode_request order_to_alpha) []).1 ≡ order_to_alpha ∷ []
unfolding send_command order get_group from_proto from_oneof require_group_id encode_request encode
    ordered_group joined_group HashMap.get run step upsert_unit upsert_group upsert_group_with_units
    emit_if_changed emit_left emit_others send_group_event next_sequence replace_group_fields
    member_units member_ids move_unit detach link_member unlink_member group_left snapshot_others
    replace_members drop_units detach_units insert_units unit_ids claim_units HashMap.remove
    HashMap.insert HashMap.or_insert BTreeSet.insert BTreeSet.remove BTreeSet.collect
    BTreeSet.difference BTreeSet.contains group_eq proto_unit_eq UnitId_discrete GroupId_discrete
order_sent = refl

send_command-guarded_example :
    (command : Command) × (encode_request order_to_alpha ≡ encode_request command)
    × IsComplete command
    × (get_group mission (ordered_group command) ≢ none)
    × (send_command log_order mission (encode_request order_to_alpha) []
        ≡ (ok (reply (log_order [] command).0), (log_order [] command).1))
send_command-guarded_example =
    send_command-guarded log_order mission (encode_request order_to_alpha) []
      (λ e. cc (e, order_sent))

empty_refused :
    (send_command log_order mission (record { command = none }) []).0
    ≡ err (invalid "command is required")
unfolding send_command from_proto
empty_refused = refl

send_command-refuses_example :
    ((invalid "command is required").code ≡ invalid_argument)
    × ((send_command log_order mission (record { command = none }) []).1 ≡ [])
    × ((command : Command)
        → IsComplete command
        → record { command = none } ≢ encode_request command)
send_command-refuses_example =
    send_command-refuses log_order mission (record { command = none }) []
      (invalid "command is required") empty_refused

-- The counter wraps between the two allocations.
nth-distinct_example :
    nth 3 (record { counter = 2 ^ 64 - 5 }) ≢ nth (3 + 4) (record { counter = 2 ^ 64 - 5 })
nth-distinct_example =
    nth-distinct (record { counter = 2 ^ 64 - 5 }) 3 4 (omega arith) (omega arith) (omega arith)
