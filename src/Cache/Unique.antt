-- ===== src/Cache/Unique.antt =====
-- The keys of the table of groups.
use minerva_server.Std.HashMap
use minerva_server.Std.HashMap.{HashMap, Distinct, remove-Distinct, insert-Distinct}
use minerva_server.Ids.{UnitId, GroupId, unit_id, group_id, unit_id_key, group_id_key}
use minerva_server.Proto.Units.{ProtoUnit}
use minerva_server.Proto.Groups.{Group}
use minerva_server.Cache.Inner.{Inner, default, joined_group, next_sequence}
use minerva_server.Cache.Writes.{
  StateCache, upsert_unit, remove_unit, upsert_group, group_left, emit_if_changed, emit_left,
  replace_group_fields, group_removed, send_group_event, send_simulation_event,
}
use minerva_server.Cache.Groups.{
  upsert_group_with_units, remove_group, replace_members, claim_units, erase_group, snapshot_others,
}
use minerva_server.Cache.Resets.{
  set_simulation_info, set_simulation_state, set_locations, clear, send_removals,
}
use minerva_server.Cache.Step.{
  Write, upserts_unit, removes_unit, upserts_group, upserts_group_with_units, removes_group,
  sets_info, sets_state, sets_locations, clears, step, run,
}
use minerva_server.Cache.Emit.{
  SameTables, send-SameTables, emit-SameTables, emit_others-SameTables, send_removals-SameTables,
  replace-SameTables,
}
use minerva_server.Cache.Index.{IsIndexed, groups-unlink_member}
use minerva_server.Cache.Index.Units.{groups-move_unit}
use minerva_server.Cache.Index.Groups.{groups-replaced}
use minerva_server.Cache.Index.Erase.{groups-erase_group}
use minerva_server.Cache.Index.Writes.{step-IsIndexed}
use minerva_server.Prelude.{
  ◌≡◌, refl, sym, ap, subst, Option, none, some, Option-cases, List, [], ◌∷◌, inl, inr,
}

pub record IsUnique (i : Inner) : Type 0 where
  pub unique : Distinct i.groups

groups-IsUnique : (i j : Inner) → j.groups ≡ i.groups → IsUnique i → IsUnique j
groups-IsUnique i j e u = record { unique = subst (λ m. Distinct m) (sym e) u.unique }

SameTables-IsUnique : (i j : Inner) → SameTables i j → IsUnique i → IsUnique j
SameTables-IsUnique i j (n, e) u = groups-IsUnique i j (ap (λ (x : Inner). x.groups) e) u

emit-IsUnique :
    (c : StateCache) (id : GroupId) (before : Option Group)
    → IsUnique c.inner
    → IsUnique (emit_if_changed c id before).inner
emit-IsUnique c id before = SameTables-IsUnique _ _ (emit-SameTables c id before)

replace-IsUnique :
    (c : StateCache) (id : GroupId) (group : Group)
    → IsUnique c.inner
    → IsUnique (replace_group_fields c id group).inner
replace-IsUnique c id group u =
    SameTables-IsUnique (record c.inner { groups = HashMap.insert c.inner.groups id group })
      (replace_group_fields c id group).inner (replace-SameTables c id group)
      (record { unique = insert-Distinct c.inner.groups id group u.unique })

emit_left-IsUnique :
    (c : StateCache) (leaving : Option GroupId) (earlier : Inner)
    → IsUnique c.inner
    → IsUnique (emit_left c leaving earlier).inner
unfolding emit_left
emit_left-IsUnique c none earlier u = u
emit_left-IsUnique c (some old) earlier u = emit-IsUnique c old (joined_group earlier old) u

upsert_unit-IsUnique :
    (c : StateCache) (unit : ProtoUnit) → IsUnique c.inner → IsUnique (upsert_unit c unit).inner
unfolding upsert_unit
upsert_unit-IsUnique c unit u =
    let id = group_id unit.group_id in
    let leaving = group_left c.inner (unit_id unit.id) id in
    emit_left-IsUnique _ leaving c.inner (
      emit-IsUnique _ id (joined_group c.inner id)
        (groups-IsUnique c.inner _ (groups-move_unit c.inner leaving unit) u))

remove_unit-IsUnique :
    (c : StateCache) (id : UnitId) → IsUnique c.inner → IsUnique (remove_unit c id).0.inner
unfolding remove_unit
remove_unit-IsUnique c id u =
    let removed = record c.inner { units = HashMap.remove c.inner.units id } in
    elim (Option-cases (HashMap.get c.inner.units id)) [
      | inl e ↦ rw (e, remove_unit) (record { unique = u.unique })
      | inr (x, e) ↦
          let group = group_id x.group_id in
          rw (e, remove_unit)
            (emit-IsUnique _ group (joined_group c.inner group) (
              groups-IsUnique removed _ (groups-unlink_member removed group id)
                (record { unique = u.unique })))
    ]

upsert_group-IsUnique :
    (c : StateCache) (group : Group) → IsUnique c.inner → IsUnique (upsert_group c group).inner
unfolding upsert_group
upsert_group-IsUnique c group u =
    let id = group_id group.id in
    emit-IsUnique _ id (joined_group c.inner id)
      (replace-IsUnique c id (record group { units = [] }) u)

upsert_group_with_units-IsUnique :
    (c : StateCache) (group : Group) (listed : List ProtoUnit)
    → IsIndexed c.inner
    → IsUnique c.inner
    → IsUnique (upsert_group_with_units c group listed).inner
unfolding upsert_group_with_units
upsert_group_with_units-IsUnique c group listed v u =
    let id = group_id group.id in
    let units = claim_units id listed in
    let moved = record c { inner = replace_members c.inner id units } in
    SameTables-IsUnique _ _ (emit_others-SameTables _ (snapshot_others c.inner id units [])) (
      emit-IsUnique _ id (joined_group c.inner id) (
        replace-IsUnique moved id (record group { units = [] })
          (groups-IsUnique c.inner moved.inner (groups-replaced c.inner v id listed) u)))

remove_group-IsUnique :
    (c : StateCache) (id : GroupId) → IsUnique c.inner → IsUnique (remove_group c id).0.inner
unfolding remove_group
remove_group-IsUnique c id u =
    let erased = record c { inner = erase_group c.inner id } in
    elim (Option-cases (HashMap.get c.inner.groups id)) [
      | inl e ↦ rw (e, remove_group) u
      | inr (x, e) ↦
          rw (e, remove_group)
            (SameTables-IsUnique erased.inner
              (send_group_event erased (group_removed id.as_str)).inner
              (send-SameTables erased (group_removed id.as_str))
              (record {
                unique =
                    subst (λ m. Distinct m) (sym (groups-erase_group c.inner id))
                      (remove-Distinct c.inner.groups id u.unique);
              }))
    ]

clear-IsUnique : (c : StateCache) → IsUnique (clear c).inner
unfolding clear send_simulation_event next_sequence
clear-IsUnique c =
    let emptied = record c { inner = record default { sequence = c.inner.sequence } } in
    let sent = send_removals emptied (HashMap.keys c.inner.groups) in
    groups-IsUnique sent.inner (clear c).inner refl (
      SameTables-IsUnique emptied.inner sent.inner
        (send_removals-SameTables emptied (HashMap.keys c.inner.groups)) (record { unique = tt }))

pub step-IsUnique :
    (c : StateCache) (w : Write) → IsIndexed c.inner → IsUnique c.inner → IsUnique (step c w).inner
unfolding step set_simulation_info set_simulation_state set_locations send_simulation_event
    next_sequence
step-IsUnique c (upserts_unit unit) v u = upsert_unit-IsUnique c unit u
step-IsUnique c (removes_unit id) v u = remove_unit-IsUnique c id u
step-IsUnique c (upserts_group group) v u = upsert_group-IsUnique c group u
step-IsUnique c (upserts_group_with_units group units) v u =
    upsert_group_with_units-IsUnique c group units v u
step-IsUnique c (removes_group id) v u = remove_group-IsUnique c id u
step-IsUnique c (sets_info info) v u = record { unique = u.unique }
step-IsUnique c (sets_state state) v u = record { unique = u.unique }
step-IsUnique c (sets_locations locations) v u = record { unique = u.unique }
step-IsUnique c clears v u = clear-IsUnique c

pub run-IsUnique :
    (c : StateCache) (ws : List Write)
    → IsIndexed c.inner
    → IsUnique c.inner
    → IsUnique (run c ws).inner
unfolding run
run-IsUnique c [] v u = u
run-IsUnique c (w ∷ ws) v u =
    run-IsUnique (step c w) ws (step-IsIndexed c w v) (step-IsUnique c w v u)
