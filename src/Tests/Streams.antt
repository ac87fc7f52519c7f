-- ===== src/Tests/Streams.antt =====
-- The theorems about the streams of updates, and about what is broadcast, on a small mission.
use minerva_server.Std.Num.{pos}
use minerva_server.Proto.Side
use minerva_server.Proto.Simulation.{SimulationStateUpdate}
use minerva_server.Cache.Inner.{next_sequence}
use minerva_server.Cache.Writes
use minerva_server.Cache.Writes.{GroupEvent, SimulationEvent, group_upserted, send_simulation_event}
use minerva_server.Cache.Resets.{set_simulation_state}
use minerva_server.Cache.Reads.{subscribe_simulation}
use minerva_server.Cache.Sequence.{total}
use minerva_server.Cache.Step.{Write, sets_state, step, run}
use minerva_server.Services.Channel.{with_room}
use minerva_server.Services.Forward.{
  received, lagged, disconnected, lag_status, forward_group_updates, forward_simulation_updates,
}
use minerva_server.Services.States.{
  simulation-current, first_items, items, shown, updates, stream, in_time,
}
use minerva_server.Services.Endings.{
  group_stream-take, lagged-aborts, simulation_stream-take, snapshot_items, group_items, is_sent,
  as_item, simulation_items,
}
use minerva_server.Tests.{alpha}
use minerva_server.Prelude.{
  ◌≡◌, refl, none, some, List, [], ◌∷◌, ◌++◌, map, filter, take, length, drop, err, arith,
}

abbrev morning : SimulationStateUpdate
morning = record {
  simulation_time = pos 100;
  time_acceleration = record { bits = 0 };
  weather = none;
}

abbrev noon : SimulationStateUpdate
noon = record morning { simulation_time = pos 200 }

abbrev news : GroupEvent
news = record { sequence = 3; response = group_upserted alpha }

group_stream-take_example :
    (forward_group_updates
      (alpha ∷ [])
      2
      (some Side.blufor)
      (received news ∷ disconnected ∷ [])
      (with_room [] 1)).sent
    ≡ take 1 (
        snapshot_items (alpha ∷ [])
        ++ group_items 2 (some Side.blufor) (received news ∷ disconnected ∷ []))
group_stream-take_example =
    group_stream-take 2 (some Side.blufor) (alpha ∷ []) 1 (received news ∷ disconnected ∷ [])

lagged-aborts_example :
    (forward_group_updates
      (alpha ∷ [])
      2
      none
      (map received (news ∷ []) ++ lagged ∷ received news ∷ [])
      (with_room [] 3)).sent
    ≡ snapshot_items (alpha ∷ [])
      ++ (map as_item (filter (is_sent 2 none) (news ∷ [])) ++ err lag_status ∷ [])
lagged-aborts_example =
    lagged-aborts 2 none (alpha ∷ []) (news ∷ []) (received news ∷ []) 3 (omega arith)

abbrev state_event : SimulationEvent
state_event = record { sequence = 3; response = record { state = some noon } }

simulation_stream-take_example :
    (forward_simulation_updates
      (some morning)
      2
      (received state_event ∷ lagged ∷ [])
      (with_room [] 5)).sent
    ≡ take 5 (first_items (some morning) ++ simulation_items 2 (received state_event ∷ lagged ∷ []))
simulation_stream-take_example =
    simulation_stream-take 2 (some morning) 5 (received state_event ∷ lagged ∷ [])

abbrev dawn : List Write
dawn = sets_state morning ∷ []

-- Two states before the snapshot.
abbrev day : List Write
day = sets_state morning ∷ sets_state noon ∷ []

sent_in_all : total (run (run Writes.new day) dawn) ≡ 3
unfolding run step set_simulation_state send_simulation_event next_sequence
sent_in_all = refl

-- The receiver is made between the two.
abbrev old_news : List SimulationEvent
old_news = drop 1 (run Writes.new day).simulation_updates

grown :
    (run Writes.new day).simulation_updates ≡ (run Writes.new dawn).simulation_updates ++ old_news
unfolding run step set_simulation_state send_simulation_event next_sequence
grown = refl

seen : length (updates (run Writes.new dawn) (run (run Writes.new day) dawn)) ≡ 2
unfolding run step set_simulation_state send_simulation_event next_sequence subscribe_simulation
seen = refl

-- The second state comes before the snapshot is read, and the third after it.
simulation-current_example :
    let middle = run Writes.new day in
    let final = run middle dawn in
    (later : List SimulationEvent) × (final.simulation_updates ≡ middle.simulation_updates ++ later)
    × (stream (run Writes.new dawn) middle (in_time (run Writes.new dawn) middle dawn) 3
        ≡ first_items middle.inner.simulation_state ++ items later)
    × (shown none
          (stream (run Writes.new dawn) middle (in_time (run Writes.new dawn) middle dawn) 3)
        ≡ final.inner.simulation_state)
simulation-current_example =
    simulation-current day dawn (run Writes.new dawn) old_news
      (in_time (run Writes.new dawn) (run Writes.new day) dawn) 3 grown (omega (arith, sent_in_all))
      refl (omega (arith, seen))
