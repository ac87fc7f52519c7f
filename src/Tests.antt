-- ===== src/Tests.antt =====
-- The theorems about the cache applied to a small mission, and runs of the model.
mod Orders
mod Engine
mod Rpc
mod Server
mod Streams
mod Lists
mod Spec
mod Routes
mod Repeat
mod Dispatch
use minerva_server.Std.Num.{pos}
use minerva_server.Std.HashMap
use minerva_server.Std.PartialEq.{Agrees, option_partial_eq}
use minerva_server.Std.Status.{invalid}
use minerva_server.Ids.{
  UnitId, GroupId, UnitId_discrete, GroupId_discrete, CommandIdAllocator, unit_id, group_id,
  unit_id_key, group_id_key, next,
}
use minerva_server.Proto.Side
use minerva_server.Proto.Enums.{name_iff}
use minerva_server.Proto.Units.{ProtoUnit, proto_unit_eq}
use minerva_server.Proto.Groups.{Group, group_eq, group_partial_eq}
use minerva_server.Proto.Commands.{SendCommandRequest}
use minerva_server.Std.BTreeSet
use minerva_server.Cache.Inner.{
  joined_group, next_sequence, member_units, member_ids, link_member, unlink_member,
}
use minerva_server.Cache.Writes
use minerva_server.Cache.Writes.{
  StateCache, GroupEvent, SimulationEvent, upsert_unit, remove_unit, upsert_group, emit_if_changed,
  emit_left, send_group_event, replace_group_fields, move_unit, detach, group_left,
}
use minerva_server.Cache.Groups.{
  remove_group, erase_group, upsert_group_with_units, emit_others, snapshot_others, replace_members,
  drop_units, detach_units, insert_units, unit_ids, claim_units,
}
use minerva_server.Cache.Reads.{subscribe_groups, get_unit, get_group, list_groups}
use minerva_server.Cache.Step.{
  Write, upserts_unit, removes_unit, upserts_group, upserts_group_with_units, removes_group, clears,
  run, step,
}
use minerva_server.Cache.Index.{IsIndexed, in_group, default-IsIndexed}
use minerva_server.Cache.Index.Writes.{run-new-IsIndexed, run-IsIndexed}
use minerva_server.Cache.Lookup.{upsert_unit-get, remove_unit-get, remove_group-get}
use minerva_server.Cache.Sequence.{total, group_number, simulation_number, Between}
use minerva_server.Cache.Sequence.Writes.{sequence_splits}
use minerva_server.Cache.Replica.{visible, IsCurrent}
use minerva_server.Cache.Replica.Writes.{step-IsCurrent}
use minerva_server.Cache.Replica.Subscriber.{nothing}
use minerva_server.Services.Client.{receive_items}
use minerva_server.Services.Subscription.{stream, in_time, updates, stream-current, new-IsCurrent}
use minerva_server.Commands.{Command, move, patrol, success, failure, from_proto}
use minerva_server.Commands.Decode.{encode_request, IsComplete, from_proto_iff}
use minerva_server.Prelude.{
  ◌++◌, ite, ◌+◌, ◌^◌, ◌≢◌, if◌then◌else◌, ◌≡◌, ◌<◌, ◌≤◌, refl, none, some, [], ◌∷◌, length, take,
  drop, List, ℕ, arith, false, ok, ◌↔◌,
}

abbrev pub alpha : Group
alpha = record {
  id = "alpha";
  side = pos 1;
  readiness = none;
  has_task = false;
  waypoints = [];
  units = [];
}

abbrev pub bravo : Group
bravo = record alpha { id = "bravo"; side = pos 2 }

abbrev pub rifleman : ProtoUnit
rifleman = record {
  id = "u1";
  group_id = "alpha";
  category = pos 1;
  type = "B_Soldier_F";
  state = none;
}

-- The rifleman joins a group that is cached, and its group is replaced by another.
abbrev pub opening : List Write
opening = upserts_group alpha ∷ upserts_unit rifleman ∷ []

abbrev change : List Write
change = upserts_group_with_units bravo (rifleman ∷ []) ∷ []

-- Both, as one sequence.
abbrev start : List Write
start = opening ++ change

abbrev ending : List Write
ending = removes_unit (unit_id "u1") ∷ removes_group (group_id "alpha") ∷ []

abbrev pub mission : StateCache
mission = run Writes.new opening

run-new-IsIndexed_example : IsIndexed (run Writes.new opening).inner
run-new-IsIndexed_example = run-new-IsIndexed opening

step-IsCurrent_example : IsCurrent (some Side.opfor) nothing (step Writes.new (upserts_group alpha))
step-IsCurrent_example =
    step-IsCurrent (some Side.opfor) nothing Writes.new (upserts_group alpha) default-IsIndexed
      (new-IsCurrent (some Side.opfor))

remove_unit-get_example :
    ((remove_unit mission (unit_id "u1")).1 ≡ get_unit mission (unit_id "u1"))
    × (get_unit (remove_unit mission (unit_id "u1")).0 (unit_id "u2")
        ≡ ite
            (unit_id_key.same (unit_id "u1") (unit_id "u2"))
            none
            (get_unit mission (unit_id "u2")))
remove_unit-get_example = remove_unit-get mission (unit_id "u1") (unit_id "u2")

remove_group-get_example :
    let removed = remove_group mission (group_id "alpha") in
    (removed.1 ≡ get_group mission (group_id "alpha"))
    × (get_group removed.0 (group_id "bravo")
        ≡ ite
            (group_id_key.same (group_id "alpha") (group_id "bravo"))
            none
            (get_group mission (group_id "bravo")))
    × (get_unit removed.0 (unit_id "u1") ≡ (elim (get_group mission (group_id "alpha")) [
      | none ↦ get_unit mission (unit_id "u1")
      | some _ ↦
          if in_group (get_unit mission (unit_id "u1")) (group_id "alpha")
          then none
          else get_unit mission (unit_id "u1")
    ]))
remove_group-get_example =
    remove_group-get mission (group_id "alpha") (group_id "bravo") (unit_id "u1")
      (run-new-IsIndexed opening)

-- Both broadcasts of the opening, and those for both groups of the change.
messages : total (run (run Writes.new opening) change) ≡ 4
unfolding run step upsert_unit upsert_group upsert_group_with_units emit_if_changed emit_left
    emit_others send_group_event next_sequence replace_group_fields joined_group member_units
    member_ids move_unit detach link_member unlink_member group_left snapshot_others replace_members
    drop_units detach_units insert_units unit_ids claim_units HashMap.get HashMap.remove
    HashMap.insert HashMap.or_insert BTreeSet.insert BTreeSet.remove BTreeSet.collect
    BTreeSet.difference BTreeSet.contains group_eq proto_unit_eq UnitId_discrete GroupId_discrete
messages = refl

-- And two more at the end, for the group that loses its unit and the one that is removed.
all_messages : total (run (run Writes.new start) ending) ≡ 6
unfolding run step upsert_unit upsert_group upsert_group_with_units emit_if_changed emit_left
    emit_others send_group_event next_sequence replace_group_fields joined_group member_units
    member_ids move_unit detach link_member unlink_member group_left snapshot_others replace_members
    drop_units detach_units insert_units unit_ids claim_units HashMap.get HashMap.remove
    HashMap.insert HashMap.or_insert BTreeSet.insert BTreeSet.remove BTreeSet.collect
    BTreeSet.difference BTreeSet.contains group_eq proto_unit_eq UnitId_discrete GroupId_discrete
    remove_unit remove_group erase_group
all_messages = refl

-- A receiver that is made between the two broadcasts of the change.
abbrev made : StateCache
made = record (run Writes.new start) { group_updates = take 3 (run Writes.new start).group_updates }

abbrev unseen : List GroupEvent
unseen = drop 3 (run Writes.new start).group_updates

grown : (run Writes.new start).group_updates ≡ made.group_updates ++ unseen
unfolding run step upsert_unit upsert_group upsert_group_with_units emit_if_changed emit_left
    emit_others send_group_event next_sequence replace_group_fields joined_group member_units
    member_ids move_unit detach link_member unlink_member group_left snapshot_others replace_members
    drop_units detach_units insert_units unit_ids claim_units HashMap.get HashMap.remove
    HashMap.insert HashMap.or_insert BTreeSet.insert BTreeSet.remove BTreeSet.collect
    BTreeSet.difference BTreeSet.contains group_eq proto_unit_eq UnitId_discrete GroupId_discrete
    remove_unit remove_group erase_group
grown = refl

-- The snapshot of the only group of the side, and the three messages after the subscription.
room_needed :
    length (list_groups (run Writes.new start) (some Side.opfor))
      + length (updates made (run (run Writes.new start) ending))
    ≡ 4
unfolding run step upsert_unit upsert_group upsert_group_with_units emit_if_changed emit_left
    emit_others send_group_event next_sequence replace_group_fields joined_group member_units
    member_ids move_unit detach link_member unlink_member group_left snapshot_others replace_members
    drop_units detach_units insert_units unit_ids claim_units HashMap.get HashMap.remove
    HashMap.insert HashMap.or_insert BTreeSet.insert BTreeSet.remove BTreeSet.collect
    BTreeSet.difference BTreeSet.contains group_eq proto_unit_eq UnitId_discrete GroupId_discrete
    remove_unit remove_group erase_group list_groups subscribe_groups Side.has_side
room_needed = refl

sequence_splits_example :
    let middle = run Writes.new opening in
    let final = run middle change in
    (news : List GroupEvent) × (simulation_news : List SimulationEvent) × (final.group_updates
      ≡ middle.group_updates ++ news)
    × (final.simulation_updates ≡ middle.simulation_updates ++ simulation_news)
    × Between group_number 0 middle.inner.sequence middle.group_updates
    × Between simulation_number 0 middle.inner.sequence middle.simulation_updates
    × Between group_number middle.inner.sequence final.inner.sequence news
    × Between simulation_number middle.inner.sequence final.inner.sequence simulation_news
sequence_splits_example = sequence_splits opening change (omega (arith, messages))

stream-current_example :
    Agrees
      (receive_items nothing
        (stream
          (some Side.opfor)
          made
          (run Writes.new start)
          ending
          (in_time (some Side.opfor) made (run Writes.new start) ending)
          4)
        (group_id "bravo"))
      (visible
        (some Side.opfor)
        (joined_group (run (run Writes.new start) ending).inner (group_id "bravo")))
stream-current_example =
    stream-current (some Side.opfor) start ending made unseen
      (in_time (some Side.opfor) made (run Writes.new start) ending) 4 grown
      (omega (arith, all_messages)) refl (omega (arith, room_needed)) (group_id "bravo")
