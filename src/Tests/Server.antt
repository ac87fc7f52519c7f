-- ===== src/Tests/Server.antt =====
-- The theorems about a server, applied to one that is shut down while a connection stays open.
use minerva_server.Server.{
  ServerHandle, ServerConfig, Spawned, Reach, Ended, here, next, start, default_config, builds,
  binds, announces, receives, signals, relays, sleeps, forces, passes, binding, bound, serving,
  ending, exited, forced, finishes, joins, waiting, returned, sent, is_early, gave_up, shutdown,
  drop, shutdown_grace_period, Failure,
}
use minerva_server.Server.Startup.{spawn-listens}
use minerva_server.Server.Shutdown.{shutdown-shutdown}
use minerva_server.Server.Exited.{shutdown-exited}
use minerva_server.Server.Grace.{forced-grace}
use minerva_server.Cache.Writes
use minerva_server.Commands.Dispatcher
use minerva_server.Prelude.{
  ℕ, ◌+◌, ◌≤◌, ◌≡◌, ◌≢◌, ◌⊎◌, refl, none, some, ok, err, true, false, arith, [], String,
}

abbrev config : ServerConfig ℕ
config = default_config (λ ip port. port)

abbrev handle : ServerHandle ℕ
handle = record {
  local_addr = config.addr;
  state = Writes.new;
  dispatcher = Dispatcher.new;
  shutdown_tx = true;
  thread = true;
}

abbrev told : ServerHandle ℕ
told = record handle { shutdown_tx = false }

-- The thread serves, and `spawn` has returned.
abbrev running : Spawned ℕ String
running = record {
  phase = serving;
  ready = sent (ok 50051);
  caller = returned (ok handle);
  listener = some 50051;
  signalled = false;
  fired = false;
  draining = false;
  deadline = none;
  now = 7;
}

to_running : Reach (start 7) running
to_running =
    next
      (next
        (next (next here (builds (start 7) refl))
          (binds (record (start 7) { phase = binding }) 50051 refl))
        (announces (record (start 7) { phase = bound 50051; listener = some 50051 }) 50051 refl
          refl))
      (receives (record running { caller = waiting }) (ok 50051) refl refl)

-- `shutdown` waits for the thread.
abbrev stopping : Spawned ℕ String
stopping = record running { caller = returned (ok told); signalled = true }

to_stopping : Reach running stopping
to_stopping = next here (signals running handle refl refl)

-- The runtime is being dropped.
abbrev closing : Spawned ℕ String
closing = record stopping {
  phase = ending forced;
  fired = true;
  deadline = some (7 + shutdown_grace_period);
  now = 7 + shutdown_grace_period;
}

abbrev over : Spawned ℕ String
over = record closing { phase = exited forced }

to_over : Reach running over
to_over =
    next
      (next
        (next
          (next (next to_stopping (relays stopping refl refl refl))
            (sleeps (record stopping { fired = true }) refl refl refl))
          (passes (record stopping { fired = true; deadline = some (7 + shutdown_grace_period) })
            shutdown_grace_period))
        (forces (record closing { phase = serving }) (7 + shutdown_grace_period) refl refl
          (omega arith)))
      (finishes closing forced refl)

spawn-listens_example :
    ((h : ServerHandle ℕ)
      → running.caller ≡ returned (ok h)
      → (running.listener ≡ some h.local_addr) × (is_early running.phase ≡ false))
    × ((f : Failure String)
        → running.caller ≡ returned (err f)
        → (running.listener ≡ none)
          × (ended : Ended String) × ((running.phase ≡ ending ended)
              ⊎ (running.phase ≡ exited ended)))
    × (running.phase ≢ ending gave_up)
    × (running.phase ≢ exited gave_up)
spawn-listens_example = spawn-listens 7 to_running

joined_runs : {s t u : Spawned ℕ String} → Reach s t → Reach t u → Reach s u
joined_runs r here = r
joined_runs r (next l st) = next (joined_runs r l) st

-- `shutdown` has returned.
abbrev stopped : Spawned ℕ String
stopped = record over { caller = returned (ok (record told { thread = false })) }

to_stopped : Reach running stopped
to_stopped = next to_over (joins over told forced refl refl refl refl)

shutdown-exited_example :
    (told.shutdown_tx ≡ false)
    × (ended : Ended String) × (stopped.phase ≡ exited ended)
    × ((record stopped { now = stopped.now + 5 }).phase ≡ exited ended)
shutdown-exited_example =
    shutdown-exited 7 (record told { thread = false }) (joined_runs to_running to_stopped) refl refl
      (next here (passes stopped 5))

forced-grace_example : 7 + shutdown_grace_period ≤ over.now
forced-grace_example = forced-grace 7 to_running refl to_over refl

shutdown-shutdown_example :
    (shutdown (shutdown handle).0 ≡ ((shutdown handle).0, [])) × (drop (shutdown handle).0 ≡ [])
shutdown-shutdown_example = shutdown-shutdown handle
