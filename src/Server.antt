-- ===== src/Server.antt =====
-- server.rs: how a server starts on its own thread, and how it is shut down. Sockets, threads,
-- timers and channels belong to std, tokio and tonic: how a call of them ends is up to the step
-- that makes it, an address and an error are of any type, and time passes by steps of its own.
pub mod Startup
pub mod Shutdown
pub mod Grace
pub mod Exited
pub mod Serve
pub mod Routes
use minerva_server.Cache.Writes
use minerva_server.Cache.Writes.{StateCache}
use minerva_server.Commands.Dispatcher
use minerva_server.Commands.Dispatcher.{Dispatcher}
use minerva_server.Prelude.{
  ℕ, ◌+◌, ◌*◌, ◌≤◌, ◌≡◌, ◌≢◌, refl, Option, none, some, Bool, true, false, List, [], ◌∷◌, ◌++◌,
  String, Result, ok, err, ◌>>=◌, if◌then◌else◌,
}

-- `Duration::from_secs`, in nanoseconds.
abbrev from_secs : ℕ → ℕ
from_secs n = n * 1000000000

pub record ServerConfig (A : Type 0) : Type 0 where
  pub addr : A
  pub command_timeout : ℕ

-- `SocketAddr::from` takes the parts of an address, and its port.
abbrev pub default_config : {A : Type 0} → (ℕ × ℕ × ℕ × ℕ → ℕ → A) → ServerConfig A
default_config from = record { addr = from (127, 0, 0, 1) 50051; command_timeout = from_secs 5 }

abbrev pub shutdown_grace_period : ℕ
shutdown_grace_period = from_secs 2

-- An `anyhow::Error`: one of the libraries', or a message.
pub data Failure (E : Type 0) : Type 0 where
  external : E → Failure E
  message : String → Failure E

abbrev pub not_ready : {E : Type 0} → Failure E
not_ready = message "minerva-server: server thread exited before it was ready"

-- Whether the sender and the thread are still there to be taken.
pub record ServerHandle (A : Type 0) : Type 0 where
  pub local_addr : A
  pub state : StateCache
  pub dispatcher : Dispatcher
  pub shutdown_tx : Bool
  pub thread : Bool

-- The end of `spawn`, with what `ready_rx.recv()` gave.
abbrev pub spawned :
    {A E : Type 0} → Option (Result A (Failure E)) → Result (ServerHandle A) (Failure E)
spawned none = err not_ready
spawned (some received) = received >>= λ local_addr. ok (record {
  local_addr = local_addr;
  state = Writes.new;
  dispatcher = Dispatcher.new;
  shutdown_tx = true;
  thread = true;
})

-- What `shutdown` does to the thread: it sends into the channel, and it waits for the end.
pub data Effect : Type 0 where
  sends : Effect
  joins : Effect

abbrev pub take_shutdown_tx : {A : Type 0} → ServerHandle A → ServerHandle A × List Effect
take_shutdown_tx h =
    if h.shutdown_tx then (record h { shutdown_tx = false }, sends ∷ []) else (h, [])

abbrev pub take_thread : {A : Type 0} → ServerHandle A → ServerHandle A × List Effect
take_thread h = if h.thread then (record h { thread = false }, joins ∷ []) else (h, [])

unfoldable pub shutdown : {A : Type 0} → ServerHandle A → ServerHandle A × List Effect
shutdown h =
    let (sent, signals) = take_shutdown_tx h in
    let (joined, waits) = take_thread sent in (joined, signals ++ waits)

-- `Drop` shuts down, too.
unfoldable pub drop : {A : Type 0} → ServerHandle A → List Effect
drop h = (shutdown h).1

-- How the thread's work ended: before it served, with the result of `serve_on`, by force, since nobody
-- waited for it, or by a panic.
pub data Ended (E : Type 0) : Type 0 where
  unready : Ended E
  served : Result Unit E → Ended E
  forced gave_up panicked : Ended E

pub data Phase (A E : Type 0) : Type 0 where
  starting binding : Phase A E
  bound : A → Phase A E
  serving : Phase A E
  -- Its work is over, and what it holds is being dropped, its runtime included.
  ending : Ended E → Phase A E
  exited : Ended E → Phase A E

-- The channel `ready`: what was sent into it, or that its sender is gone.
pub data Ready (A E : Type 0) : Type 0 where
  empty : Ready A E
  sent : Result A (Failure E) → Ready A E
  hung_up : Ready A E

-- The caller of `spawn`.
pub data Caller (A E : Type 0) : Type 0 where
  waiting : Caller A E
  returned : Result (ServerHandle A) (Failure E) → Caller A E

pub record Spawned (A E : Type 0) : Type 0 where
  pub phase : Phase A E
  pub ready : Ready A E
  pub caller : Caller A E
  -- Where the thread came to listen, unless it ended before it served.
  pub listener : Option A
  -- `shutdown_tx` has sent or is gone.
  pub signalled : Bool
  -- `fired_tx` has sent.
  pub fired : Bool
  -- The future `graceful` is done, so that `serve_on` drains its connections.
  pub draining : Bool
  -- When the sleep in `forced` is over.
  pub deadline : Option ℕ
  pub now : ℕ

-- After the thread was made.
abbrev pub start : {A E : Type 0} → ℕ → Spawned A E
start now = record {
  phase = starting;
  ready = empty;
  caller = waiting;
  listener = none;
  signalled = false;
  fired = false;
  draining = false;
  deadline = none;
  now = now;
}

-- `spawn` up to its wait, with what the making of the thread gave.
abbrev pub spawn : {A E : Type 0} → Result Unit E → ℕ → Result (Spawned A E) (Failure E)
spawn (ok _) now = ok (start now)
spawn (err e) now = err (external e)

module _ {A E : Type 0} where
  abbrev pub is_early : Phase A E → Bool
  is_early starting = true
  is_early binding = true
  is_early (bound a) = true
  is_early serving = false
  is_early (ending ended) = false
  is_early (exited ended) = false

  -- A step of the thread, of its tasks or of the caller.
  pub data Step : Spawned A E → Spawned A E → Type 0 where
    builds : (s : Spawned A E) → s.phase ≡ starting → Step s (record s { phase = binding })
    build_fails :
        (s : Spawned A E) (e : E)
        → s.phase ≡ starting
        → Step s (record s { phase = ending unready; ready = sent (err (external e)) })
    binds :
        (s : Spawned A E) (a : A)
        → s.phase ≡ binding
        → Step s (record s { phase = bound a; listener = some a })
    bind_fails :
        (s : Spawned A E) (e : E)
        → s.phase ≡ binding
        → Step s (record s { phase = ending unready; ready = sent (err (external e)) })
    announces :
        (s : Spawned A E) (a : A)
        → s.phase ≡ bound a
        → s.caller ≡ waiting
        → Step s (record s { phase = serving; ready = sent (ok a) })
    gives_up :
        (s : Spawned A E) (a : A)
        → s.phase ≡ bound a
        → s.caller ≢ waiting
        → Step s (record s { phase = ending gave_up; ready = hung_up; listener = none })
    panics_early :
        (s : Spawned A E)
        → is_early s.phase ≡ true
        → Step s (record s { phase = ending panicked; ready = hung_up; listener = none })
    panics : (s : Spawned A E) → s.phase ≡ serving → Step s (record s { phase = ending panicked })
    receives :
        (s : Spawned A E) (r : Result A (Failure E))
        → s.caller ≡ waiting
        → s.ready ≡ sent r
        → Step s (record s { caller = returned (spawned (some r)) })
    receives_none :
        (s : Spawned A E)
        → s.caller ≡ waiting
        → s.ready ≡ hung_up
        → Step s (record s { caller = returned (spawned none) })
    -- `spawn` returns an error and drops the sender.
    drops_tx :
        (s : Spawned A E) (f : Failure E)
        → s.caller ≡ returned (err f)
        → s.signalled ≡ false
        → Step s (record s { signalled = true })
    -- The two halves of `shutdown`.
    signals :
        (s : Spawned A E) (h : ServerHandle A)
        → s.caller ≡ returned (ok h)
        → h.shutdown_tx ≡ true
        → Step s (record s { caller = returned (ok (take_shutdown_tx h).0); signalled = true })
    joins :
        (s : Spawned A E) (h : ServerHandle A) (ended : Ended E)
        → s.caller ≡ returned (ok h)
        → h.shutdown_tx ≡ false
        → h.thread ≡ true
        → s.phase ≡ exited ended
        → Step s (record s { caller = returned (ok (take_thread h).0) })
    relays :
        (s : Spawned A E)
        → s.phase ≡ serving
        → s.signalled ≡ true
        → s.fired ≡ false
        → Step s (record s { fired = true })
    drains :
        (s : Spawned A E)
        → s.phase ≡ serving
        → s.fired ≡ true
        → s.draining ≡ false
        → Step s (record s { draining = true })
    sleeps :
        (s : Spawned A E)
        → s.phase ≡ serving
        → s.fired ≡ true
        → s.deadline ≡ none
        → Step s (record s { deadline = some (s.now + shutdown_grace_period) })
    stops :
        (s : Spawned A E) (r : Result Unit E)
        → s.phase ≡ serving
        → Step s (record s { phase = ending (served r) })
    forces :
        (s : Spawned A E) (d : ℕ)
        → s.phase ≡ serving
        → s.deadline ≡ some d
        → d ≤ s.now
        → Step s (record s { phase = ending forced })
    -- The drop of a tokio runtime waits for its workers, for as long as they take.
    finishes :
        (s : Spawned A E) (ended : Ended E)
        → s.phase ≡ ending ended
        → Step s (record s { phase = exited ended })
    passes : (s : Spawned A E) (n : ℕ) → Step s (record s { now = s.now + n })

  pub data Reach (s : Spawned A E) : Spawned A E → Type 0 where
    here : Reach s s
    next : {t u : Spawned A E} → Reach s t → Step t u → Reach s u
