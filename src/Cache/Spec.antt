-- ===== src/Cache/Spec.antt =====
-- A specification of the cache without tables, index or broadcasts: the units and the groups by id.
pub mod Units
pub mod Groups
pub mod Writes
use minerva_server.Std.HashMap
use minerva_server.Ids.{UnitId, GroupId, unit_id, group_id, unit_id_key, group_id_key}
use minerva_server.Proto.Units.{ProtoUnit}
use minerva_server.Proto.Groups.{Group}
use minerva_server.Proto.Simulation.{Location, SimulationInfo, SimulationStateUpdate}
use minerva_server.Cache.Inner.{Inner}
use minerva_server.Cache.Groups.{claim_units}
use minerva_server.Cache.Loops.{listed}
use minerva_server.Cache.Index.{in_group}
use minerva_server.Cache.Step.{
  Write, upserts_unit, removes_unit, upserts_group, upserts_group_with_units, removes_group,
  sets_info, sets_state, sets_locations, clears,
}
use minerva_server.Prelude.{◌≡◌, ite, Option, none, some, List, [], ◌∷◌, if◌then◌else◌}

-- Groups are without their units here: a unit names its group.
pub record World : Type 0 where
  pub units : UnitId → Option ProtoUnit
  pub groups : GroupId → Option Group
  pub info : Option SimulationInfo
  pub state : Option SimulationStateUpdate
  pub locations : List Location

abbrev pub nothing : World
nothing = record {
  units = λ u. none;
  groups = λ g. none;
  info = none;
  state = none;
  locations = [];
}

abbrev pub put_unit : World → UnitId → Option ProtoUnit → World
put_unit w id unit = record w { units = λ u. ite (unit_id_key.same id u) unit (w.units u) }

abbrev pub put_group : World → GroupId → Option Group → World
put_group w id group = record w { groups = λ g. ite (group_id_key.same id g) group (w.groups g) }

-- Without the units of a group.
abbrev pub others : World → GroupId → UnitId → Option ProtoUnit
others w id u = if in_group (w.units u) id then none else w.units u

abbrev pub apply : World → Write → World
apply w (upserts_unit unit) = put_unit w (unit_id unit.id) (some unit)
apply w (removes_unit id) = put_unit w id none
apply w (upserts_group group) = put_group w (group_id group.id) (some (record group { units = [] }))
apply w (upserts_group_with_units group units) =
    let id = group_id group.id in
    record (put_group w id (some (record group { units = [] }))) {
      units = λ u. elim (listed (claim_units id units) u) [
        | none ↦ others w id u
        | some unit ↦ some unit
      ];
    }
apply w (removes_group id) = elim (w.groups id) [
  | none ↦ w
  | some _ ↦ record (put_group w id none) { units = others w id }
]
apply w (sets_info info) = record w { info = some info }
apply w (sets_state state) = record w { state = some state }
apply w (sets_locations locations) = record w { locations = locations }
apply w clears = nothing

abbrev pub apply_all : World → List Write → World
apply_all w [] = w
apply_all w (x ∷ xs) = apply_all (apply w x) xs

-- The tables hold what the world holds.
pub record Reflects (i : Inner) (w : World) : Type 0 where
  pub units : (u : UnitId) → HashMap.get i.units u ≡ w.units u
  pub groups : (g : GroupId) → HashMap.get i.groups g ≡ w.groups g
  pub info : i.simulation_info ≡ w.info
  pub state : i.simulation_state ≡ w.state
  pub locations : i.locations ≡ w.locations
