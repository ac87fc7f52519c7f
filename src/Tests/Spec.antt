-- ===== src/Tests/Spec.antt =====
-- The cache against its specification, after the opening of the small mission and a change.
use minerva_server.Std.BTreeSet
use minerva_server.Ids.{unit_id, group_id, unit_id_key}
use minerva_server.Cache.Inner.{member_ids, member_units}
use minerva_server.Cache.Writes
use minerva_server.Cache.Reads.{get_unit, get_group, simulation_info, simulation_state}
use minerva_server.Cache.Step.{run}
use minerva_server.Cache.Index.{in_group}
use minerva_server.Cache.Spec.{nothing, apply_all}
use minerva_server.Cache.Spec.Writes.{run-apply_all}
use minerva_server.Tests.{opening}
use minerva_server.Prelude.{◌≡◌, none, some}

run-apply_all_example :
    let c = run Writes.new opening in
    let w = apply_all nothing opening in
    (get_unit c (unit_id "u1") ≡ w.units (unit_id "u1"))
    × (get_group c (group_id "alpha") ≡ (elim (w.groups (group_id "alpha")) [
      | none ↦ none
      | some group ↦ some (record group { units = member_units c.inner (group_id "alpha") })
    ]))
    × (BTreeSet.contains (member_ids c.inner (group_id "alpha")) (unit_id "u1")
        ≡ in_group (w.units (unit_id "u1")) (group_id "alpha"))
    × (simulation_info c ≡ w.info)
    × (simulation_state c ≡ w.state)
    × (c.inner.locations ≡ w.locations)
run-apply_all_example = run-apply_all opening (unit_id "u1") (group_id "alpha")
