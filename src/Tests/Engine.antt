-- ===== src/Tests/Engine.antt =====
-- A command from its request to its answer, on a small mission.
use minerva_server.Std.HashMap
use minerva_server.Std.Key.{nat_key}
use minerva_server.Ids.{UnitId_discrete, command_id_key, CommandId_discrete, GroupId_discrete, next}
use minerva_server.Cache.Inner.{
  joined_group, next_sequence, member_units, member_ids, link_member, unlink_member,
}
use minerva_server.Cache.Writes.{
  upsert_unit, upsert_group, emit_if_changed, emit_left, send_group_event, replace_group_fields,
  move_unit, detach, group_left,
}
use minerva_server.Cache.Groups.{
  upsert_group_with_units, emit_others, snapshot_others, replace_members, drop_units, detach_units,
  insert_units, unit_ids, claim_units,
}
use minerva_server.Cache.Step.{run, step}
use minerva_server.Std.BTreeSet
use minerva_server.Proto.Groups.{group_eq}
use minerva_server.Proto.Units.{proto_unit_eq}
use minerva_server.Cache.Reads.{get_group}
use minerva_server.Commands.{CommandOutcome, success, failure, ordered_group}
use minerva_server.Commands.Decode.{encode_request, IsComplete, filled}
use minerva_server.Commands.Dispatcher.{
  new, allocate, begin, complete, completes, cancels, perform_all, Dispatcher, Waited, answered,
  elapsed, Action,
}
use minerva_server.Commands.Send.{Meanwhile, begun, send, send-answered}
use minerva_server.Commands.Late.{complete-late}
use minerva_server.Services.Engine.{acknowledged}
use minerva_server.Services.Orders.{send_command, reply}
use minerva_server.Tests.{mission}
use minerva_server.Prelude.{
  true, false, ◌≡◌, ◌≢◌, refl, none, some, List, [], ◌∷◌, ◌++◌, arith, ok, ℕ, ℕ_discrete,
}
use minerva_server.Tests.Orders.{order_to_alpha}

-- A wait that reports the answer in the channel, and times out without one.
abbrev pub timed_wait : Dispatcher → ℕ → Waited
timed_wait d channel = elim (HashMap.get d.answers channel) [ none ↦ elapsed | some o ↦ answered o ]

timed_wait-answered :
    (d : Dispatcher) (channel : ℕ) (o : CommandOutcome)
    → HashMap.get d.answers channel ≡ some o
    → timed_wait d channel ≡ answered o
timed_wait-answered d channel o e = rw (e, timed_wait) refl

begun_pending :
    HashMap.get (perform_all (begun new order_to_alpha []) []).pending (allocate new).0 ≡ some 0
unfolding perform_all allocate begin next HashMap.insert HashMap.get HashMap.remove
    CommandId_discrete ℕ_discrete
begun_pending = refl

-- Nothing happens before the lock is taken or after the wait ends.
abbrev waits_through : List Action → Meanwhile
waits_through during = record { queued = []; during = during; closing = [] }

send-answered_example :
    ((o : CommandOutcome) (closing : List Action)
      → (send timed_wait new order_to_alpha (record {
        queued = [];
        during = [] ++ completes (allocate new).0 o ∷ [];
        closing = closing;
      })).0
        ≡ o)
    × ((closing : List Action)
        → (send timed_wait new order_to_alpha
            (record { queued = []; during = [] ++ cancels ∷ []; closing = closing })).0
          ≡ failure "cancelled")
    × ((others : Meanwhile)
        → HashMap.get (send timed_wait new order_to_alpha others).1.pending (allocate new).0 ≡ none)
unfolding perform_all allocate
send-answered_example =
    send-answered timed_wait timed_wait-answered [] order_to_alpha [] [] [] begun_pending

not_answered : timed_wait (begun new order_to_alpha []) 0 ≡ elapsed
unfolding perform_all allocate begin next HashMap.get
not_answered = refl

-- The engine acknowledges right after the timeout.
complete-late_example :
    let own = (allocate new).0 in
    let others : Meanwhile = record {
      queued = [];
      during = [];
      closing = [] ++ completes own success ∷ [];
    } in
    ((complete (begun new order_to_alpha []) own success).1 ≡ true)
    × ((send timed_wait new order_to_alpha others).0 ≡ failure "timeout")
    × ((complete (send timed_wait new order_to_alpha others).1 own success).1 ≡ false)
unfolding perform_all allocate
complete-late_example =
    complete-late timed_wait new order_to_alpha [] [] [] [] 0 success not_answered begun_pending

order_to_alpha-IsComplete : IsComplete order_to_alpha
unfolding IsComplete
order_to_alpha-IsComplete = (filled "alpha" refl, λ p. grind arith)

alpha_cached : get_group mission (ordered_group order_to_alpha) ≢ none
unfolding get_group ordered_group joined_group HashMap.get run step upsert_unit upsert_group
    upsert_group_with_units emit_if_changed emit_left emit_others send_group_event next_sequence
    replace_group_fields member_units member_ids move_unit detach link_member unlink_member
    group_left snapshot_others replace_members drop_units detach_units insert_units unit_ids
    claim_units HashMap.remove HashMap.insert HashMap.or_insert BTreeSet.insert BTreeSet.remove
    BTreeSet.collect BTreeSet.difference BTreeSet.contains group_eq proto_unit_eq UnitId_discrete
    GroupId_discrete
alpha_cached p = grind (arith, p)

acknowledged_example :
    let handler = λ (during : List Action).
      (send_command
        (λ d x. send timed_wait d x (waits_through during))
        mission
        (encode_request order_to_alpha)
        new).0 in
    ((o : CommandOutcome) → handler ([] ++ completes (allocate new).0 o ∷ []) ≡ ok (reply o))
    × (handler ([] ++ cancels ∷ []) ≡ ok (reply (failure "cancelled")))
unfolding perform_all allocate
acknowledged_example =
    acknowledged timed_wait timed_wait-answered mission [] order_to_alpha [] [] [] []
      order_to_alpha-IsComplete alpha_cached begun_pending
