-- ===== src/Services/Forward.antt =====
-- services/group.rs and services/simulation.rs: the task that forwards updates to one subscriber.
-- The broadcast receiver and the outgoing channel belong to tokio. What they give the task is its
-- input: the turns of `select!`, and how many more messages the client takes before it is gone.
use minerva_server.Std.Status.{Status, aborted}
use minerva_server.Proto.Side.{Side, has_side}
use minerva_server.Proto.Groups.{Group, upserted, removed_id, SubscribeGroupUpdatesResponse}
use minerva_server.Proto.Simulation.{SimulationStateUpdate, SubscribeSimulationUpdatesResponse}
use minerva_server.Cache.Writes.{GroupEvent, SimulationEvent, group_upserted}
use minerva_server.Prelude.{
  ℕ, zero, suc, Option, none, some, List, [], ◌∷◌, ◌++◌, Bool, true, Result, ok, err, leb,
  is_none_or, if◌then◌else◌,
}

-- The sender of the channel: what was sent, and how many sends succeed from here on.
pub record Tx (R : Type 0) : Type 0 where
  pub sent : List (Result R Status)
  pub remaining : ℕ

-- `tx.send(..).await`: `none` once the receiving side is gone.
unfoldable pub send : {R : Type 0} → Tx R → Result R Status → Option (Tx R)
send tx item = elim tx.remaining [
  | zero ↦ none
  | suc n ↦ some (record { sent = tx.sent ++ item ∷ []; remaining = n })
]

-- What `select!` yields in one round of the loop.
pub data Turn (E : Type 0) : Type 0 where
  received : E → Turn E
  lagged : Turn E
  closed : Turn E
  disconnected : Turn E

abbrev pub lag_status : Status
lag_status = record { code = aborted; message = "subscriber lagged; resubscribe" }

-- `let _ = tx.send(Err(..)).await`.
unfoldable pub abort : {R : Type 0} → Tx R → Tx R
abort tx = elim (send tx (err lag_status)) [ none ↦ tx | some next ↦ next ]

unfoldable pub matches_side : Option Side → SubscribeGroupUpdatesResponse → Bool
matches_side side update = elim update.event [
  | none ↦ true
  | some event ↦ elim event [
    | upserted group ↦ is_none_or side (has_side group.side)
    | removed_id _ ↦ true
  ]
]

-- The loop, over the turns so far. It returns the channel as the task leaves it.
unfoldable pub group_loop :
    ℕ
    → Option Side
    → Tx SubscribeGroupUpdatesResponse
    → List (Turn GroupEvent)
    → Tx SubscribeGroupUpdatesResponse
group_loop snapshot_sequence side tx [] = tx
group_loop snapshot_sequence side tx (received event ∷ turns) =
    if leb event.sequence snapshot_sequence
    then group_loop snapshot_sequence side tx turns
    else if matches_side side event.response
    then (elim (send tx (ok event.response)) [
      | none ↦ tx
      | some next ↦ group_loop snapshot_sequence side next turns
    ])
    else group_loop snapshot_sequence side tx turns
group_loop snapshot_sequence side tx (lagged ∷ turns) = abort tx
group_loop snapshot_sequence side tx (closed ∷ turns) = tx
group_loop snapshot_sequence side tx (disconnected ∷ turns) = tx

unfoldable pub forward_group_updates :
    List Group
    → ℕ
    → Option Side
    → List (Turn GroupEvent)
    → Tx SubscribeGroupUpdatesResponse
    → Tx SubscribeGroupUpdatesResponse
forward_group_updates [] snapshot_sequence side turns tx =
    group_loop snapshot_sequence side tx turns
forward_group_updates (group ∷ snapshot) snapshot_sequence side turns tx =
    elim (send tx (ok (group_upserted group))) [
      | none ↦ tx
      | some next ↦ forward_group_updates snapshot snapshot_sequence side turns next
    ]

unfoldable pub simulation_loop :
    ℕ
    → Tx SubscribeSimulationUpdatesResponse
    → List (Turn SimulationEvent)
    → Tx SubscribeSimulationUpdatesResponse
simulation_loop snapshot_sequence tx [] = tx
simulation_loop snapshot_sequence tx (received event ∷ turns) =
    if leb event.sequence snapshot_sequence
    then simulation_loop snapshot_sequence tx turns
    else (elim (send tx (ok event.response)) [
      | none ↦ tx
      | some next ↦ simulation_loop snapshot_sequence next turns
    ])
simulation_loop snapshot_sequence tx (lagged ∷ turns) = abort tx
simulation_loop snapshot_sequence tx (closed ∷ turns) = tx
simulation_loop snapshot_sequence tx (disconnected ∷ turns) = tx

unfoldable pub forward_simulation_updates :
    Option SimulationStateUpdate
    → ℕ
    → List (Turn SimulationEvent)
    → Tx SubscribeSimulationUpdatesResponse
    → Tx SubscribeSimulationUpdatesResponse
forward_simulation_updates none snapshot_sequence turns tx =
    simulation_loop snapshot_sequence tx turns
forward_simulation_updates (some state) snapshot_sequence turns tx =
    elim (send tx (ok (record { state = some state }))) [
      | none ↦ tx
      | some next ↦ simulation_loop snapshot_sequence next turns
    ]
