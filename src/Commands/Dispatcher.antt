-- ===== src/Commands/Dispatcher.antt =====
-- `Dispatcher` of commands.rs: the commands that wait for an answer. Each call of `send` makes a
-- oneshot channel, which belongs to tokio: a channel is its number, and what is sent into the
-- channels and told to the engine's `CommandSink` is logged. The wait at the end of `send` ends
-- with what tokio reports.
use minerva_server.Std.HashMap
use minerva_server.Std.HashMap.{HashMap}
use minerva_server.Ids.{CommandId, CommandIdAllocator, next, command_id_key}
use minerva_server.Commands.{Command, CommandOutcome, failure}
use minerva_server.Prelude.{ℕ, ◌+◌, Bool, true, false, none, some, List, [], ◌∷◌, ◌++◌, map}

pub record Dispatcher : Type 0 where
  pub ids : CommandIdAllocator
  -- The sender of each waiting command.
  pub pending : HashMap CommandId ℕ
  -- How many channels were made.
  pub channels : ℕ
  -- What was sent into which channel, oldest first.
  pub answers : List (ℕ × CommandOutcome)
  -- The calls of `CommandSink::dispatch`, oldest first.
  pub dispatched : List (CommandId × Command)

abbrev pub new : Dispatcher
new = record {
  ids = record { counter = 0 };
  pending = [];
  channels = 0;
  answers = [];
  dispatched = [];
}

-- `send` takes an id before it takes the lock, so other calls may come in between.
unfoldable pub allocate : Dispatcher → CommandId × Dispatcher
allocate d = let (id, ids) = next d.ids in (id, record d { ids = ids })

-- The critical section of `send`. Its oneshot channel is its own until then, and is numbered as its
-- sender is put in the table. What the engine does inside `dispatch` follows as further actions.
unfoldable pub begin : Dispatcher → CommandId → Command → Dispatcher
begin d id command = record d {
  pending = HashMap.insert d.pending id d.channels;
  channels = d.channels + 1;
  dispatched = d.dispatched ++ (id, command) ∷ [];
}

-- How the wait for the channel ends.
pub data Waited : Type 0 where
  answered : CommandOutcome → Waited
  sender_dropped : Waited
  elapsed : Waited

-- What `send` returns.
unfoldable pub outcome : Waited → CommandOutcome
outcome (answered o) = o
outcome sender_dropped = failure "cancelled"
outcome elapsed = failure "timeout"

-- The drop of `RemovePending`, at the end of `send` however it comes about.
unfoldable pub drop_guard : Dispatcher → CommandId → Dispatcher
drop_guard d id = record d { pending = HashMap.remove d.pending id }

unfoldable pub complete : Dispatcher → CommandId → CommandOutcome → Dispatcher × Bool
complete d id o =
    let taken = record d { pending = HashMap.remove d.pending id } in
    elim (HashMap.get d.pending id) [
      | none ↦ (taken, false)
      | some channel ↦ (record taken { answers = d.answers ++ (channel, o) ∷ [] }, true)
    ]

unfoldable pub cancel_all : Dispatcher → Dispatcher
cancel_all d = record d {
  pending = [];
  answers = d.answers ++ map (λ e. (e.1, failure "cancelled")) d.pending;
}

-- The actions on the dispatcher: each is one access to the allocator or under the lock. A call of
-- `send` allocates its id, begins with it and ends.
pub data Action : Type 0 where
  allocates : Action
  begins : CommandId → Command → Action
  ends : CommandId → Action
  completes : CommandId → CommandOutcome → Action
  cancels : Action

unfoldable pub perform : Dispatcher → Action → Dispatcher
perform d allocates = (allocate d).1
perform d (begins id command) = begin d id command
perform d (ends id) = drop_guard d id
perform d (completes id o) = (complete d id o).0
perform d cancels = cancel_all d

unfoldable pub perform_all : Dispatcher → List Action → Dispatcher
perform_all d [] = d
perform_all d (a ∷ actions) = perform_all (perform d a) actions
