-- ===== src/Commands/Late.antt =====
-- An acknowledgement that comes after the wait of `Dispatcher::send` has ended.
use minerva_server.Std.HashMap
use minerva_server.Ids.{command_id_key}
use minerva_server.Commands.{Command, CommandOutcome, failure}
use minerva_server.Commands.Dispatcher.{
  Dispatcher, allocate, drop_guard, complete, Action, completes, perform_all, Waited, elapsed,
  outcome,
}
use minerva_server.Commands.Pending.{complete_found, complete_missing, get-removed}
use minerva_server.Commands.Send.{Meanwhile, locked, begun, send}
use minerva_server.Prelude.{ℕ, Bool, true, false, ◌≡◌, ap, some, List, ◌∷◌, ◌++◌}

module _ (wait : Dispatcher → ℕ → Waited) where
  -- If the wait ends with the timeout and the command is still pending after `closing`, before the
  -- guard is dropped, then an acknowledgement that comes there is accepted, and yet `send` returns
  -- the timeout, whatever happens later; one that comes after the drop of the guard is refused.
  pub complete-late :
      (d : Dispatcher) (command : Command) (queued during closing later : List Action) (channel : ℕ)
      (o : CommandOutcome)
      → let id = (allocate d).0 in
        let waited = perform_all (begun d command queued) during in
        let others : Meanwhile = record {
          queued = queued;
          during = during;
          closing = closing ++ completes id o ∷ later;
        } in
        wait waited (locked d queued).channels ≡ elapsed
        → HashMap.get (perform_all waited closing).pending id ≡ some channel
        → ((complete (perform_all waited closing) id o).1 ≡ true)
          × ((send wait d command others).0 ≡ failure "timeout")
          × ((complete (send wait d command others).1 id o).1 ≡ false)
  unfolding send drop_guard outcome
  complete-late d command queued during closing later channel o late held =
      let id = (allocate d).0 in
      let waited = perform_all (begun d command queued) during in
      let closed = perform_all waited (closing ++ completes id o ∷ later) in
      (
        ap (λ (r : Dispatcher × Bool). r.1)
            (complete_found (perform_all waited closing) id channel o held),
        ap outcome late,
        ap (λ (r : Dispatcher × Bool). r.1)
            (complete_missing (drop_guard closed id) id o (get-removed closed.pending id)),
      )
