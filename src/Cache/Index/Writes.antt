-- ===== src/Cache/Index/Writes.antt =====
-- The member index under every write.
use minerva_server.Std.HashMap
use minerva_server.Std.HashMap.{get-remove, get-insert}
use minerva_server.Ids.{UnitId, GroupId, unit_id, group_id, unit_id_key, group_id_key}
use minerva_server.Proto.Units.{ProtoUnit}
use minerva_server.Proto.Groups.{Group}
use minerva_server.Proto.Simulation.{Location, SimulationInfo, SimulationStateUpdate}
use minerva_server.Cache.Inner.{Inner, default, joined_group, member_ids, next_sequence}
use minerva_server.Cache.Writes.{
  StateCache, new, upsert_unit, remove_unit, upsert_group, group_left, emit_if_changed, emit_left,
  replace_group_fields, group_removed, send_simulation_event,
}
use minerva_server.Cache.Groups.{
  upsert_group_with_units, remove_group, replace_members, claim_units, erase_group, snapshot_others,
}
use minerva_server.Cache.Resets.{set_simulation_info, set_simulation_state, set_locations, clear}
use minerva_server.Cache.Step.{
  Write, upserts_unit, removes_unit, upserts_group, upserts_group_with_units, removes_group,
  sets_info, sets_state, sets_locations, clears, step, run,
}
use minerva_server.Cache.Emit.{
  SameTables, send-SameTables, emit-SameTables, emit_others-SameTables, send_removals-SameTables,
  replace-SameTables,
}
use minerva_server.Cache.Index.{IsIndexed, default-IsIndexed, sequence-IsIndexed}
use minerva_server.Cache.Index.Units.{move_unit-IsIndexed, unlink-IsIndexed}
use minerva_server.Cache.Index.Groups.{replace_members-IsIndexed}
use minerva_server.Cache.Index.Erase.{erase_group-IsIndexed}
use minerva_server.Prelude.{
  ℕ, ◌≡◌, sym, subst, Option, none, some, List, [], ◌∷◌, Option-cases, inl, inr, arith,
}

pub SameTables-IsIndexed : (i j : Inner) → SameTables i j → IsIndexed i → IsIndexed j
SameTables-IsIndexed i j (n, e) v = subst IsIndexed (sym e) (sequence-IsIndexed i n v)

-- A group stored under its own id keeps the index, which does not read groups.
pub insert_group-IsIndexed :
    (i : Inner) (group : Group)
    → IsIndexed i
    → IsIndexed (record i { groups = HashMap.insert i.groups (group_id group.id) group })
unfolding member_ids
insert_group-IsIndexed i group v = record {
  index = v.index;
  sorted = v.sorted;
  keyed = v.keyed;
  named = λ g x h. ground (arith, get-insert i.groups (group_id group.id) g group, v.named g x);
}

emit-IsIndexed :
    (c : StateCache) (id : GroupId) (before : Option Group)
    → IsIndexed c.inner
    → IsIndexed (emit_if_changed c id before).inner
emit-IsIndexed c id before = SameTables-IsIndexed _ _ (emit-SameTables c id before)

pub replace-IsIndexed :
    (c : StateCache) (group : Group)
    → IsIndexed c.inner
    → IsIndexed (replace_group_fields c (group_id group.id) group).inner
replace-IsIndexed c group v =
    SameTables-IsIndexed _ _ (replace-SameTables c (group_id group.id) group)
      (insert_group-IsIndexed c.inner group v)

-- The removal of a unit that is not cached.
pub drop_absent-IsIndexed :
    (i : Inner) (id : UnitId)
    → HashMap.get i.units id ≡ none
    → IsIndexed i
    → IsIndexed (record i { units = HashMap.remove i.units id })
unfolding member_ids
drop_absent-IsIndexed i id e v = record {
  index = λ g u. ground (arith, get-remove i.units id u, v.index g u);
  sorted = v.sorted;
  keyed = λ u x h. ground (arith, get-remove i.units id u, v.keyed u x);
  named = v.named;
}

-- What is not a unit, a group or the index plays no part.
other-IsIndexed :
    (i : Inner) (info : Option SimulationInfo) (state : Option SimulationStateUpdate)
    (locations : List Location) (n : ℕ)
    → IsIndexed i
    → IsIndexed (record i {
      simulation_info = info;
      simulation_state = state;
      locations = locations;
      sequence = n;
    })
unfolding member_ids
other-IsIndexed i info state locations n v = record {
  index = v.index;
  sorted = v.sorted;
  keyed = v.keyed;
  named = v.named;
}

emit_left-IsIndexed :
    (c : StateCache) (leaving : Option GroupId) (earlier : Inner)
    → IsIndexed c.inner
    → IsIndexed (emit_left c leaving earlier).inner
unfolding emit_left
emit_left-IsIndexed c none earlier v = v
emit_left-IsIndexed c (some old) earlier v = emit-IsIndexed c old (joined_group earlier old) v

upsert_unit-IsIndexed :
    (c : StateCache) (unit : ProtoUnit) → IsIndexed c.inner → IsIndexed (upsert_unit c unit).inner
unfolding upsert_unit
upsert_unit-IsIndexed c unit v =
    emit_left-IsIndexed _ (group_left c.inner (unit_id unit.id) (group_id unit.group_id)) c.inner (
      emit-IsIndexed _ (group_id unit.group_id) (joined_group c.inner (group_id unit.group_id))
        (move_unit-IsIndexed c.inner v unit))

remove_unit-IsIndexed :
    (c : StateCache) (id : UnitId) → IsIndexed c.inner → IsIndexed (remove_unit c id).0.inner
unfolding remove_unit
remove_unit-IsIndexed c id v = elim (Option-cases (HashMap.get c.inner.units id)) [
  | inl e ↦ rw (e, remove_unit) (drop_absent-IsIndexed c.inner id e v)
  | inr (x, e) ↦
      rw (e, remove_unit)
        (emit-IsIndexed _ (group_id x.group_id) (joined_group c.inner (group_id x.group_id))
          (unlink-IsIndexed c.inner v id x e))
]

upsert_group-IsIndexed :
    (c : StateCache) (group : Group) → IsIndexed c.inner → IsIndexed (upsert_group c group).inner
unfolding upsert_group
upsert_group-IsIndexed c group v =
    emit-IsIndexed _ (group_id group.id) (joined_group c.inner (group_id group.id))
      (replace-IsIndexed c (record group { units = [] }) v)

upsert_group_with_units-IsIndexed :
    (c : StateCache) (group : Group) (listed : List ProtoUnit)
    → IsIndexed c.inner
    → IsIndexed (upsert_group_with_units c group listed).inner
unfolding upsert_group_with_units
upsert_group_with_units-IsIndexed c group listed v =
    let id = group_id group.id in
    let units = claim_units id listed in
    let moved = record c { inner = replace_members c.inner id units } in
    SameTables-IsIndexed _ _ (emit_others-SameTables _ (snapshot_others c.inner id units [])) (
      emit-IsIndexed _ id (joined_group c.inner id) (
        replace-IsIndexed moved (record group { units = [] })
          (replace_members-IsIndexed c.inner v id listed)))

remove_group-IsIndexed :
    (c : StateCache) (id : GroupId) → IsIndexed c.inner → IsIndexed (remove_group c id).0.inner
unfolding remove_group
remove_group-IsIndexed c id v = elim (Option-cases (HashMap.get c.inner.groups id)) [
  | inl e ↦ rw (e, remove_group) v
  | inr (x, e) ↦
      rw (e, remove_group)
        (SameTables-IsIndexed _ _
          (send-SameTables (record c { inner = erase_group c.inner id }) (group_removed id.as_str))
          (erase_group-IsIndexed c.inner v id))
]

clear-IsIndexed : (c : StateCache) → IsIndexed (clear c).inner
unfolding clear send_simulation_event next_sequence
clear-IsIndexed c =
    let emptied = record c { inner = record default { sequence = c.inner.sequence } } in
    sequence-IsIndexed _ _ (
      SameTables-IsIndexed _ _ (send_removals-SameTables emptied (HashMap.keys c.inner.groups))
        (sequence-IsIndexed default c.inner.sequence default-IsIndexed))

-- Every write keeps the index, and every unit and group under its own id.
pub step-IsIndexed : (c : StateCache) (w : Write) → IsIndexed c.inner → IsIndexed (step c w).inner
unfolding step set_simulation_info set_simulation_state set_locations send_simulation_event
    next_sequence
step-IsIndexed c (upserts_unit unit) v = upsert_unit-IsIndexed c unit v
step-IsIndexed c (removes_unit id) v = remove_unit-IsIndexed c id v
step-IsIndexed c (upserts_group group) v = upsert_group-IsIndexed c group v
step-IsIndexed c (upserts_group_with_units group units) v =
    upsert_group_with_units-IsIndexed c group units v
step-IsIndexed c (removes_group id) v = remove_group-IsIndexed c id v
step-IsIndexed c (sets_info info) v = other-IsIndexed c.inner (some info) _ _ _ v
step-IsIndexed c (sets_state state) v = other-IsIndexed c.inner _ (some state) _ _ v
step-IsIndexed c (sets_locations locations) v = other-IsIndexed c.inner _ _ locations _ v
step-IsIndexed c clears v = clear-IsIndexed c

pub run-IsIndexed :
    (c : StateCache) (ws : List Write) → IsIndexed c.inner → IsIndexed (run c ws).inner
unfolding run
run-IsIndexed c [] v = v
run-IsIndexed c (w ∷ ws) v = run-IsIndexed (step c w) ws (step-IsIndexed c w v)

-- After any writes to a new cache, a unit is in the member set of a group exactly when the cached
-- unit names that group, the sets are sorted, and units and groups stand under their own ids.
pub run-new-IsIndexed : (ws : List Write) → IsIndexed (run new ws).inner
run-new-IsIndexed ws = run-IsIndexed new ws default-IsIndexed
