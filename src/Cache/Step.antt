-- ===== src/Cache/Step.antt =====
-- One write of the engine thread, and a sequence of them. Each is atomic, under the write lock.
use minerva_server.Ids.{UnitId, GroupId}
use minerva_server.Proto.Units.{ProtoUnit}
use minerva_server.Proto.Groups.{Group}
use minerva_server.Proto.Simulation.{Location, SimulationInfo, SimulationStateUpdate}
use minerva_server.Cache.Writes.{StateCache, upsert_unit, remove_unit, upsert_group}
use minerva_server.Cache.Groups.{upsert_group_with_units, remove_group}
use minerva_server.Cache.Resets.{set_simulation_info, set_simulation_state, set_locations, clear}
use minerva_server.Prelude.{List, [], ◌∷◌}

pub data Write : Type 0 where
  upserts_unit : ProtoUnit → Write
  removes_unit : UnitId → Write
  upserts_group : Group → Write
  upserts_group_with_units : Group → List ProtoUnit → Write
  removes_group : GroupId → Write
  sets_info : SimulationInfo → Write
  sets_state : SimulationStateUpdate → Write
  sets_locations : List Location → Write
  clears : Write

unfoldable pub step : StateCache → Write → StateCache
step c (upserts_unit unit) = upsert_unit c unit
step c (removes_unit id) = (remove_unit c id).0
step c (upserts_group group) = upsert_group c group
step c (upserts_group_with_units group units) = upsert_group_with_units c group units
step c (removes_group id) = (remove_group c id).0
step c (sets_info info) = set_simulation_info c info
step c (sets_state state) = set_simulation_state c state
step c (sets_locations locations) = set_locations c locations
step c clears = clear c

unfoldable pub run : StateCache → List Write → StateCache
run c [] = c
run c (w ∷ ws) = run (step c w) ws
