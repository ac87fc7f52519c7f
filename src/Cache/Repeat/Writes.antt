-- ===== src/Cache/Repeat/Writes.antt =====
-- All writes, each made twice.
use minerva_server.Std.HashMap
use minerva_server.Ids.{UnitId, GroupId, unit_id, group_id, unit_id_key, group_id_key}
use minerva_server.Cache.Inner.{default, joined_group, next_sequence}
use minerva_server.Cache.Writes.{StateCache, remove_unit, send_simulation_event}
use minerva_server.Cache.Groups.{remove_group}
use minerva_server.Cache.Resets.{
  set_simulation_info, set_simulation_state, set_locations, clear, send_removals,
}
use minerva_server.Cache.Step.{
  Write, upserts_unit, removes_unit, upserts_group, upserts_group_with_units, removes_group,
  sets_info, sets_state, sets_locations, clears, step,
}
use minerva_server.Cache.Reads.{get_unit, get_group}
use minerva_server.Cache.Emit.{send_removals-SameTables}
use minerva_server.Cache.Frame.{restrict, joined_group_frame}
use minerva_server.Cache.Index.{IsIndexed}
use minerva_server.Cache.Index.Writes.{step-IsIndexed}
use minerva_server.Cache.Spec.{World, apply, Reflects}
use minerva_server.Cache.Spec.Writes.{step-Reflects}
use minerva_server.Cache.Repeat.{
  IsReflexive, upsert_unit_again, upsert_group_again, upsert_group_with_units_again,
}
use minerva_server.Prelude.{◌≡◌, refl, sym, ◌∙◌, ap, none, [], arith}

-- The world that a cache is of.
abbrev world : StateCache → World
world c = record {
  units = λ u. HashMap.get c.inner.units u;
  groups = λ g. HashMap.get c.inner.groups g;
  info = c.inner.simulation_info;
  state = c.inner.simulation_state;
  locations = c.inner.locations;
}

after_step :
    (c : StateCache) (x : Write) → IsIndexed c.inner → Reflects (step c x).inner (apply (world c) x)
after_step c x v =
    step-Reflects c x (world c) v (record {
      units = λ u. refl;
      groups = λ g. refl;
      info = refl;
      state = refl;
      locations = refl;
    })

-- In the world, a write made twice is made once.
units-apply :
    (w : World) (x : Write) (u : UnitId) → (apply (apply w x) x).units u ≡ (apply w x).units u
units-apply w (upserts_unit unit) u = ground arith
units-apply w (removes_unit id) u = ground arith
units-apply w (upserts_group group) u = refl
units-apply w (upserts_group_with_units group units) u = ground arith
units-apply w (removes_group id) u = ground arith
units-apply w (sets_info info) u = refl
units-apply w (sets_state state) u = refl
units-apply w (sets_locations locations) u = refl
units-apply w clears u = refl

groups-apply :
    (w : World) (x : Write) (g : GroupId) → (apply (apply w x) x).groups g ≡ (apply w x).groups g
groups-apply w (upserts_unit unit) g = refl
groups-apply w (removes_unit id) g = refl
groups-apply w (upserts_group group) g = ground arith
groups-apply w (upserts_group_with_units group units) g = ground arith
groups-apply w (removes_group id) g = ground arith
groups-apply w (sets_info info) g = refl
groups-apply w (sets_state state) g = refl
groups-apply w (sets_locations locations) g = refl
groups-apply w clears g = refl

-- What a write leaves cached.
module _ (c : StateCache) (x : Write) (v : IsIndexed c.inner) where
  abbrev once : StateCache
  once = step c x

  abbrev twice : StateCache
  twice = step once x

  again : Reflects twice.inner (apply (apply (world c) x) x)
  again = step-Reflects once x (apply (world c) x) (step-IsIndexed c x v) (after_step c x v)

  units_again : (u : UnitId) → HashMap.get twice.inner.units u ≡ HashMap.get once.inner.units u
  units_again u = again.units u ∙ units-apply (world c) x u ∙ sym ((after_step c x v).units u)

  groups_again : (g : GroupId) → HashMap.get twice.inner.groups g ≡ HashMap.get once.inner.groups g
  groups_again g = again.groups g ∙ groups-apply (world c) x g ∙ sym ((after_step c x v).groups g)

  view_again : (g : GroupId) → joined_group twice.inner g ≡ joined_group once.inner g
  view_again g =
      joined_group_frame twice.inner once.inner (step-IsIndexed once x (step-IsIndexed c x v))
        (step-IsIndexed c x v) g (λ u. ap (λ o. restrict o g) (units_again u)) (groups_again g)

-- A removal that finds nothing sends nothing.
removes_none :
    (c : StateCache) (id : UnitId)
    → HashMap.get c.inner.units id ≡ none
    → (remove_unit c id).0.group_updates ≡ c.group_updates
unfolding remove_unit
removes_none c id e = rw (e, remove_unit) refl

removes_no_group :
    (c : StateCache) (id : GroupId)
    → HashMap.get c.inner.groups id ≡ none
    → (remove_group c id).0 ≡ c
unfolding remove_group
removes_no_group c id e = rw (e, remove_group) refl

clears_none : (c : StateCache) → c.inner.groups ≡ [] → (clear c).group_updates ≡ c.group_updates
unfolding clear send_simulation_event send_removals
clears_none c e = rw (e, clear) refl

groups-clear : (c : StateCache) → (clear c).inner.groups ≡ []
unfolding clear send_simulation_event next_sequence
groups-clear c =
    let emptied = record c { inner = record default { sequence = c.inner.sequence } } in
    ap (λ (i : _). i.groups) (send_removals-SameTables emptied (HashMap.keys c.inner.groups)).1

quiet_again :
    (c : StateCache) (x : Write)
    → IsIndexed c.inner
    → IsReflexive (step c x).inner
    → (step (step c x) x).group_updates ≡ (step c x).group_updates
unfolding step set_simulation_info set_simulation_state set_locations send_simulation_event
quiet_again c (upserts_unit unit) v self =
    let x = upserts_unit unit in
    upsert_unit_again (step c x) (step-IsIndexed c x v) self unit
      ((after_step c x v).units (unit_id unit.id) ∙ ground arith)
quiet_again c (removes_unit id) v self =
    let x = removes_unit id in
    removes_none (step c x) id ((after_step c x v).units id ∙ ground arith)
quiet_again c (upserts_group group) v self =
    let x = upserts_group group in
    upsert_group_again (step c x) (step-IsIndexed c x v) group
      ((after_step c x v).groups (group_id group.id) ∙ ground arith) self
quiet_again c (upserts_group_with_units group units) v self =
    let x = upserts_group_with_units group units in
    upsert_group_with_units_again (step c x) (step-IsIndexed c x v) group units
      ((after_step c x v).groups (group_id group.id) ∙ ground arith)
      (λ u. ground (arith, (after_step c x v).units u)) self
quiet_again c (removes_group id) v self =
    let x = removes_group id in
    ap (λ (y : StateCache). y.group_updates)
      (removes_no_group (step c x) id ((after_step c x v).groups id ∙ ground arith))
quiet_again c (sets_info info) v self = refl
quiet_again c (sets_state state) v self = refl
quiet_again c (sets_locations locations) v self = refl
quiet_again c clears v self = clears_none (step c clears) (groups-clear c)

-- In a cache whose index is right, where every joined view equals itself after a write, which fails
-- only for a float that is NaN, the same write made again at once changes no unit and no joined view
-- of a group, and broadcasts nothing about groups.
pub step-step :
    (c : StateCache) (x : Write)
    → IsIndexed c.inner
    → IsReflexive (step c x).inner
    → ((u : UnitId) → get_unit (step (step c x) x) u ≡ get_unit (step c x) u)
      × ((g : GroupId) → get_group (step (step c x) x) g ≡ get_group (step c x) g)
      × ((step (step c x) x).group_updates ≡ (step c x).group_updates)
unfolding get_unit get_group
step-step c x v self = (units_again c x v, view_again c x v, quiet_again c x v self)
