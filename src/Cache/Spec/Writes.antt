-- ===== src/Cache/Spec/Writes.antt =====
-- All writes, on the cache and in the world.
use minerva_server.Std.HashMap
use minerva_server.Std.BTreeSet
use minerva_server.Ids.{UnitId, GroupId, group_id_key, unit_id_key}
use minerva_server.Proto.Groups.{Group}
use minerva_server.Cache.Inner.{default, joined_group, member_ids, member_units, next_sequence}
use minerva_server.Cache.Writes.{StateCache, new, send_simulation_event}
use minerva_server.Cache.Resets.{
  set_simulation_info, set_simulation_state, set_locations, clear, send_removals,
}
use minerva_server.Cache.Step.{
  Write, upserts_unit, removes_unit, upserts_group, upserts_group_with_units, removes_group,
  sets_info, sets_state, sets_locations, clears, step, run,
}
use minerva_server.Cache.Emit.{send_removals-SameTables}
use minerva_server.Cache.Index.{IsIndexed, in_group, default-IsIndexed}
use minerva_server.Cache.Index.Writes.{step-IsIndexed, run-new-IsIndexed}
use minerva_server.Cache.Reads.{get_unit, get_group, simulation_info, simulation_state}
use minerva_server.Cache.Spec.{World, nothing, apply, apply_all, Reflects}
use minerva_server.Cache.Spec.Units.{
  upsert_unit-Reflects, remove_unit-Reflects, SameTables-Reflects,
}
use minerva_server.Cache.Spec.Groups.{
  upsert_group-Reflects, upsert_group_with_units-Reflects, remove_group-Reflects,
}
use minerva_server.Prelude.{ℕ, ◌≡◌, refl, ◌∙◌, ap, Option, none, some, List, [], ◌∷◌}

nothing-Reflects : (n : ℕ) → Reflects (record default { sequence = n }) nothing
unfolding HashMap.get
nothing-Reflects n = record {
  units = λ u. refl;
  groups = λ g. refl;
  info = refl;
  state = refl;
  locations = refl;
}

clear-Reflects : (c : StateCache) → Reflects (clear c).inner nothing
unfolding clear send_simulation_event next_sequence
clear-Reflects c =
    let emptied = record c { inner = record default { sequence = c.inner.sequence } } in
    let sent = send_removals emptied (HashMap.keys c.inner.groups) in
    SameTables-Reflects sent.inner (clear c).inner nothing (_, refl)
      (SameTables-Reflects emptied.inner sent.inner nothing
        (send_removals-SameTables emptied (HashMap.keys c.inner.groups))
        (nothing-Reflects c.inner.sequence))

pub step-Reflects :
    (c : StateCache) (x : Write) (w : World)
    → IsIndexed c.inner
    → Reflects c.inner w
    → Reflects (step c x).inner (apply w x)
unfolding step set_simulation_info set_simulation_state set_locations send_simulation_event
    next_sequence
step-Reflects c (upserts_unit unit) w v r = upsert_unit-Reflects c unit w r
step-Reflects c (removes_unit id) w v r = remove_unit-Reflects c id w r
step-Reflects c (upserts_group group) w v r = upsert_group-Reflects c group w r
step-Reflects c (upserts_group_with_units group units) w v r =
    upsert_group_with_units-Reflects c group units w v r
step-Reflects c (removes_group id) w v r = remove_group-Reflects c id w v r
step-Reflects c (sets_info info) w v r = record {
  units = r.units;
  groups = r.groups;
  info = refl;
  state = r.state;
  locations = r.locations;
}
step-Reflects c (sets_state state) w v r = record {
  units = r.units;
  groups = r.groups;
  info = r.info;
  state = refl;
  locations = r.locations;
}
step-Reflects c (sets_locations locations) w v r = record {
  units = r.units;
  groups = r.groups;
  info = r.info;
  state = r.state;
  locations = refl;
}
step-Reflects c clears w v r = clear-Reflects c

run-Reflects :
    (c : StateCache) (xs : List Write) (w : World)
    → IsIndexed c.inner
    → Reflects c.inner w
    → Reflects (run c xs).inner (apply_all w xs)
unfolding run
run-Reflects c [] w v r = r
run-Reflects c (x ∷ xs) w v r =
    run-Reflects (step c x) xs (apply w x) (step-IsIndexed c x v) (step-Reflects c x w v r)

-- The reads of a cache after any writes, against a world of units and groups by id that takes the
-- same writes: a unit is cached as it is in the world; a group is cached if it is in the world, with
-- its fields, joined with the units that its member set names; this set holds exactly the units
-- that name the group in the world; and the simulation's info, state and locations are the world's.
pub run-apply_all :
    (xs : List Write) (u : UnitId) (g : GroupId)
    → let c = run new xs in
      let w = apply_all nothing xs in
      (get_unit c u ≡ w.units u)
      × (get_group c g ≡ (elim (w.groups g) [
        | none ↦ none
        | some group ↦ some (record group { units = member_units c.inner g })
      ]))
      × (BTreeSet.contains (member_ids c.inner g) u ≡ in_group (w.units u) g)
      × (simulation_info c ≡ w.info)
      × (simulation_state c ≡ w.state)
      × (c.inner.locations ≡ w.locations)
unfolding get_unit get_group joined_group simulation_info simulation_state
run-apply_all xs u g =
    let c = run new xs in
    let r = run-Reflects new xs nothing default-IsIndexed (nothing-Reflects 0) in
    (
      r.units u,
      ap
          (λ (o : Option Group). elim o as (λ y. Option Group) [
            | none ↦ none
            | some group ↦ some (record group { units = member_units c.inner g })
          ])
          (r.groups g),
      (run-new-IsIndexed xs).index g u ∙ ap (λ o. in_group o g) (r.units u),
      r.info,
      r.state,
      r.locations,
    )
