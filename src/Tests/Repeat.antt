-- ===== src/Tests/Repeat.antt =====
-- A write of a small mission, made twice.
use minerva_server.Std.HashMap
use minerva_server.Std.PartialEq.{option_partial_eq}
use minerva_server.Ids.{
  UnitId, GroupId, UnitId_discrete, GroupId_discrete, group_id, unit_id_key, group_id_key,
}
use minerva_server.Proto.Units.{proto_unit_eq}
use minerva_server.Proto.Groups.{group_eq, group_partial_eq}
use minerva_server.Std.BTreeSet
use minerva_server.Cache.Inner.{
  joined_group, next_sequence, member_units, member_ids, link_member, unlink_member,
}
use minerva_server.Cache.Writes.{
  StateCache, upsert_unit, upsert_group, emit_if_changed, emit_left, send_group_event,
  replace_group_fields, move_unit, detach, group_left,
}
use minerva_server.Cache.Groups.{
  upsert_group_with_units, emit_others, snapshot_others, replace_members, drop_units, detach_units,
  insert_units, unit_ids, claim_units,
}
use minerva_server.Cache.Reads.{get_unit, get_group}
use minerva_server.Cache.Step.{upserts_group_with_units, run, step}
use minerva_server.Cache.Index.Writes.{run-new-IsIndexed}
use minerva_server.Cache.Repeat.{IsReflexive}
use minerva_server.Cache.Repeat.Writes.{step-step}
use minerva_server.Tests.{mission, opening, bravo, rifleman}
use minerva_server.Std.PartialEq.{◌==◌}
use minerva_server.Prelude.{subst, true, ◌≢◌, ◌≡◌, refl, none, [], ◌∷◌, arith}

abbrev changed : StateCache
changed = step mission (upserts_group_with_units bravo (rifleman ∷ []))

bravo_again :
    (joined_group changed.inner (group_id "bravo") == joined_group changed.inner (group_id "bravo"))
    ≡ true
unfolding run step upsert_unit upsert_group upsert_group_with_units emit_if_changed emit_left
    emit_others send_group_event next_sequence replace_group_fields joined_group member_units
    member_ids move_unit detach link_member unlink_member group_left snapshot_others replace_members
    drop_units detach_units insert_units unit_ids claim_units HashMap.get HashMap.remove
    HashMap.insert HashMap.or_insert BTreeSet.insert BTreeSet.remove BTreeSet.collect
    BTreeSet.difference BTreeSet.contains group_eq proto_unit_eq UnitId_discrete GroupId_discrete
bravo_again = refl

alpha_again :
    (joined_group changed.inner (group_id "alpha") == joined_group changed.inner (group_id "alpha"))
    ≡ true
unfolding run step upsert_unit upsert_group upsert_group_with_units emit_if_changed emit_left
    emit_others send_group_event next_sequence replace_group_fields joined_group member_units
    member_ids move_unit detach link_member unlink_member group_left snapshot_others replace_members
    drop_units detach_units insert_units unit_ids claim_units HashMap.get HashMap.remove
    HashMap.insert HashMap.or_insert BTreeSet.insert BTreeSet.remove BTreeSet.collect
    BTreeSet.difference BTreeSet.contains group_eq proto_unit_eq UnitId_discrete GroupId_discrete
alpha_again = refl

missing :
    (g : GroupId)
    → group_id "bravo" ≢ g
    → group_id "alpha" ≢ g
    → HashMap.get changed.inner.groups g ≡ none
unfolding run step upsert_unit upsert_group upsert_group_with_units emit_if_changed emit_left
    emit_others send_group_event next_sequence replace_group_fields joined_group member_units
    member_ids move_unit detach link_member unlink_member group_left snapshot_others replace_members
    drop_units detach_units insert_units unit_ids claim_units HashMap.get HashMap.remove
    HashMap.insert HashMap.or_insert BTreeSet.insert BTreeSet.remove BTreeSet.collect
    BTreeSet.difference BTreeSet.contains group_eq proto_unit_eq UnitId_discrete GroupId_discrete
missing g b a = ground arith

changed-IsReflexive : IsReflexive changed.inner
unfolding joined_group
changed-IsReflexive g = elim (group_id_key.same (group_id "bravo") g) [
  | yes e ↦
      subst (λ h. (joined_group changed.inner h == joined_group changed.inner h) ≡ true) e
        bravo_again
  | no b ↦ elim (group_id_key.same (group_id "alpha") g) [
    | yes e ↦
        subst (λ h. (joined_group changed.inner h == joined_group changed.inner h) ≡ true) e
          alpha_again
    | no a ↦ rw (joined_group, missing g b a) refl
  ]
]

step-step_example :
    let x = upserts_group_with_units bravo (rifleman ∷ []) in
    ((u : UnitId) → get_unit (step changed x) u ≡ get_unit changed u)
    × ((g : GroupId) → get_group (step changed x) g ≡ get_group changed g)
    × ((step changed x).group_updates ≡ changed.group_updates)
step-step_example =
    step-step mission (upserts_group_with_units bravo (rifleman ∷ [])) (run-new-IsIndexed opening)
      changed-IsReflexive
