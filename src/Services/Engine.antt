-- ===== src/Services/Engine.antt =====
-- A `SendCommand` request from the client to the engine and back: the handler with the dispatcher.
use minerva_server.Std.HashMap
use minerva_server.Ids.{command_id_key}
use minerva_server.Std.Key.{nat_key}
use minerva_server.Cache.Writes.{StateCache}
use minerva_server.Cache.Reads.{get_group}
use minerva_server.Commands.{Command, CommandOutcome, ordered_group, failure}
use minerva_server.Commands.Decode.{encode_request, IsComplete, from_proto_iff}
use minerva_server.Commands.Dispatcher.{
  Dispatcher, new, allocate, Action, completes, cancels, perform_all, Waited, answered,
}
use minerva_server.Commands.Send.{locked, begun, send, send-answered}
use minerva_server.Services.Orders.{send_command, order, reply}
use minerva_server.Prelude.{
  ℕ, ◌≡◌, ◌≢◌, refl, ◌∙◌, ap, none, some, Option-cases, List, ◌∷◌, ◌++◌, ok, inl, inr,
}

send_command-sends :
    {D : Type 0} (send : D → Command → CommandOutcome × D) (c : StateCache) (command : Command)
    (d : D)
    → IsComplete command
    → get_group c (ordered_group command) ≢ none
    → (send_command send c (encode_request command) d).0 ≡ ok (reply (send d command).0)
unfolding send_command order
send_command-sends send c command d complete cached =
    elim (Option-cases (get_group c (ordered_group command))) [
      | inl e ↦ absurd (cached e)
      | inr (group, e) ↦
          rw
            (
              (from_proto_iff (encode_request command) command).1 (refl, complete),
              send_command,
              order,
              e,
            )
            refl
    ]

module _ (wait : Dispatcher → ℕ → Waited) where
  -- A request that encodes a complete command for a cached group, on a dispatcher with any history.
  -- If the command is pending after `before` and the next action, still before the wait ends, is an
  -- acknowledgement with its id, then the client is told of the outcome that the engine gave; if it
  -- is a `cancel_all`, then that the command failed as cancelled. What happens later, before the
  -- wait ends or before the guard is dropped, does not change this. The wait is assumed to report an
  -- answer that is in the channel when it ends.
  pub acknowledged :
      ((d : Dispatcher) (channel : ℕ) (o : CommandOutcome)
        → HashMap.get d.answers channel ≡ some o
        → wait d channel ≡ answered o)
      → (c : StateCache) (earlier : List Action) (command : Command)
        (queued before later closing : List Action)
      → IsComplete command
      → get_group c (ordered_group command) ≢ none
      → let d = perform_all new earlier in
        let id = (allocate d).0 in
        let handler = λ (during : List Action).
          (send_command
            (λ d x. send wait d x (record { queued = queued; during = during; closing = closing }))
            c
            (encode_request command)
            d).0 in
        HashMap.get (perform_all (begun d command queued) before).pending id
          ≡ some (locked d queued).channels
        → ((o : CommandOutcome) → handler (before ++ completes id o ∷ later) ≡ ok (reply o))
          × (handler (before ++ cancels ∷ later) ≡ ok (reply (failure "cancelled")))
  acknowledged reports c earlier command queued before later closing complete cached held =
      let d = perform_all new earlier in
      let known = send-answered wait reports earlier command queued before later held in
      let sends = λ (during : List Action).
        send_command-sends
          (λ d x. send wait d x (record { queued = queued; during = during; closing = closing })) c
          command d complete cached in
      (
        λ o.
            sends (before ++ completes (allocate d).0 o ∷ later)
            ∙ ap (λ (x : CommandOutcome). ok (reply x)) (known.0 o closing),
        sends (before ++ cancels ∷ later)
            ∙ ap (λ (x : CommandOutcome). ok (reply x)) (known.1 closing),
      )
