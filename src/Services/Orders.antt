-- ===== src/Services/Orders.antt =====
-- services/command.rs: the handler of `SendCommand`. The dispatcher is its state and its `send`,
-- which reports an outcome.
use minerva_server.Std.Status.{Status, invalid_argument}
use minerva_server.Proto.CommandResult
use minerva_server.Proto.Commands.{SendCommandRequest, SendCommandResponse}
use minerva_server.Cache.Writes.{StateCache}
use minerva_server.Cache.Reads.{get_group}
use minerva_server.Commands.{Command, CommandOutcome, success, failure, from_proto, ordered_group}
use minerva_server.Commands.Decode.{encode_request, IsComplete, from_proto_iff, from_proto-refusal}
use minerva_server.Prelude.{
  ◌≡◌, ◌≢◌, refl, arith, none, some, Option-cases, ◌++ₛ◌, Result, ok, err, inl, inr,
}

unfoldable pub reply : CommandOutcome → SendCommandResponse
reply success = record { result = CommandResult.to_i32 CommandResult.success; reason = "" }
reply (failure reason) = record {
  result = CommandResult.to_i32 CommandResult.failure;
  reason = reason;
}

module _ {D : Type 0} (send : D → Command → CommandOutcome × D) where
  -- The rest of the handler, with a valid command.
  unfoldable pub order : StateCache → Command → D → SendCommandResponse × D
  order c command d = elim (get_group c (ordered_group command)) [
    | none ↦ (
      record {
        result = CommandResult.to_i32 CommandResult.failure;
        reason = "unknown group " ++ₛ (ordered_group command).as_str;
      },
      d,
    )
    | some _ ↦ let (outcome, after) = send d command in (reply outcome, after)
  ]

  unfoldable pub send_command :
      StateCache → SendCommandRequest → D → Result SendCommandResponse Status × D
  unfolding order
  send_command c request d = elim (from_proto request) [
    | err status ↦ (err status, d)
    | ok command ↦ let (response, after) = order c command d in (ok response, after)
  ]

  -- If the handler changes anything in the dispatcher, then the request encodes a complete
  -- command, its group is cached, and that command was sent once and its outcome is the reply.
  pub send_command-guarded :
      (c : StateCache) (request : SendCommandRequest) (d : D)
      → (send_command c request d).1 ≢ d
      → (command : Command) × (request ≡ encode_request command)
        × IsComplete command
        × (get_group c (ordered_group command) ≢ none)
        × (send_command c request d ≡ (ok (reply (send d command).0), (send d command).1))
  unfolding send_command
  send_command-guarded c request d changed = go (from_proto request) refl
    where
      go :
          (result : Result Command Status)
          → from_proto request ≡ result
          → (command : Command) × (request ≡ encode_request command)
            × IsComplete command
            × (get_group c (ordered_group command) ≢ none)
            × (send_command c request d ≡ (ok (reply (send d command).0), (send d command).1))
      go (err status) e = absurd (changed (rw (e, send_command) refl))
      go (ok command) e = elim (Option-cases (get_group c (ordered_group command))) [
        | inl g ↦ absurd (changed (rw (e, send_command, g, order) refl))
        | inr (group, g) ↦
            let decoded = (from_proto_iff request command).0 e in
            (command, decoded.0, decoded.1, λ p. cc (p, g), rw (e, send_command, g, order) refl)
      ]

  -- If the handler fails, then it does so with an invalid argument, nothing is dispatched, and the
  -- request encodes no complete command.
  pub send_command-refuses :
      (c : StateCache) (request : SendCommandRequest) (d : D) (status : Status)
      → (send_command c request d).0 ≡ err status
      → (status.code ≡ invalid_argument)
        × ((send_command c request d).1 ≡ d)
        × ((command : Command) → IsComplete command → request ≢ encode_request command)
  unfolding send_command
  send_command-refuses c request d status failed = go (from_proto request) refl
    where
      go :
          (result : Result Command Status)
          → from_proto request ≡ result
          → (status.code ≡ invalid_argument)
            × ((send_command c request d).1 ≡ d)
            × ((command : Command) → IsComplete command → request ≢ encode_request command)
      go (err refusal) e = (
        from_proto-refusal request status (grind (arith, e, rw (e, send_command) at failed)),
        rw (e, send_command) refl,
        λ command complete same.
            grind (arith, e, (from_proto_iff request command).1 (same, complete)),
      )
      go (ok command) e = absurd (grind (arith, rw (e, send_command) at failed))
