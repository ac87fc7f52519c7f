-- ===== src/Cache/Resets.antt =====
-- The remaining writes of `StateCache`: what is stored whole, and `clear`.
use minerva_server.Std.HashMap
use minerva_server.Ids.{GroupId}
use minerva_server.Proto.Simulation.{Location, SimulationInfo, SimulationStateUpdate}
use minerva_server.Cache.Inner.{default}
use minerva_server.Cache.Writes.{StateCache, group_removed, send_group_event, send_simulation_event}
use minerva_server.Prelude.{none, some, List, [], ◌∷◌}

unfoldable pub set_simulation_info : StateCache → SimulationInfo → StateCache
set_simulation_info c info = record c { inner = record c.inner { simulation_info = some info } }

unfoldable pub set_simulation_state : StateCache → SimulationStateUpdate → StateCache
set_simulation_state c state =
    send_simulation_event (record c { inner = record c.inner { simulation_state = some state } })
      (record { state = some state })

unfoldable pub set_locations : StateCache → List Location → StateCache
set_locations c locations = record c { inner = record c.inner { locations = locations } }

unfoldable pub send_removals : StateCache → List GroupId → StateCache
send_removals c [] = c
send_removals c (id ∷ ids) = send_removals (send_group_event c (group_removed id.as_str)) ids

-- Only the sequence number survives.
unfoldable pub clear : StateCache → StateCache
clear c =
    let ids = HashMap.keys c.inner.groups in
    let emptied = record c { inner = record default { sequence = c.inner.sequence } } in
    send_simulation_event (send_removals emptied ids) (record { state = none })
