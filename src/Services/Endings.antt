-- ===== src/Services/Endings.antt =====
-- What the forwarding tasks send, and how their streams end: by lag, or since the client is gone.
use minerva_server.Std.Status.{Status}
use minerva_server.Proto.Side.{Side}
use minerva_server.Proto.Groups.{Group, SubscribeGroupUpdatesResponse}
use minerva_server.Cache.Writes.{GroupEvent, group_upserted}
use minerva_server.Std.Lists.{length-append}
use minerva_server.Services.Channel.{with_room}
use minerva_server.Services.Forward.{
  Tx, Turn, received, lagged, closed, disconnected, lag_status, send, group_loop, matches_side,
  forward_group_updates,
}
use minerva_server.Prelude.{
  ℕ, ◌+◌, ◌<◌, ◌≡◌, refl, sym, ◌∙◌, ap, ap₂, Option, none, some, List, [], ◌∷◌, ◌++◌, ◌⊎◌, map,
  filter, take, not, length, Result, ok, err, Bool, true, false, Bool-cases, inl, inr, arith, leb,
  if◌then◌else◌,
}
use minerva_server.Std.Lists.{
  length-append, filter_out, filter_in, take-length, length-filter, length-map,
}
use minerva_server.Services.Turns.{
  taken, farewell, nothing_left, sends_last, sends_next, taken-lagged, farewell-lagged,
}
use minerva_server.Proto.Simulation.{SimulationStateUpdate}
use minerva_server.Cache.Writes.{SimulationEvent}
use minerva_server.Services.Forward.{simulation_loop, forward_simulation_updates}
use minerva_server.Services.States.{first_items}
use minerva_server.Services.States

abbrev pub Item : Type 0
Item = Result SubscribeGroupUpdatesResponse Status

-- An event as it is sent.
abbrev pub as_item : GroupEvent → Item
as_item e = ok e.response

-- The snapshot as it is sent.
abbrev pub snapshot_items : List Group → List Item
snapshot_items groups = map (λ group. ok (group_upserted group)) groups

length-snapshot_items : (groups : List Group) → length (snapshot_items groups) ≡ length groups
length-snapshot_items groups = length-map (λ group. ok (group_upserted group)) groups

module _ (n : ℕ) (side : Option Side) where
  -- Whether the loop sends an event.
  abbrev pub is_sent : GroupEvent → Bool
  is_sent e = if leb e.sequence n then false else matches_side side e.response

  -- What is sent of a list of turns to a client that stays.
  abbrev pub group_items : List (Turn GroupEvent) → List Item
  group_items turns = map as_item (filter is_sent (taken turns)) ++ farewell turns

  -- One round of the loop with an event.
  group_loop-received :
      (tx : Tx SubscribeGroupUpdatesResponse) (e : GroupEvent) (turns : List (Turn GroupEvent))
      → ((is_sent e ≡ false)
          × (group_loop n side tx (received e ∷ turns) ≡ group_loop n side tx turns))
        ⊎ ((is_sent e ≡ true)
            × (group_loop n side tx (received e ∷ turns) ≡ (elim (send tx (ok e.response)) [
              | none ↦ tx
              | some next ↦ group_loop n side next turns
            ])))
  unfolding group_loop
  group_loop-received tx e turns = elim (Bool-cases (leb e.sequence n)) [
    | inl old ↦ inl (rw old (refl, refl))
    | inr new ↦ elim (Bool-cases (matches_side side e.response)) [
      | inl m ↦ inr (rw (new, m) (refl, refl))
      | inr m ↦ inl (rw (new, m) (refl, refl))
    ]
  ]

  group_loop-take :
      (had : List Item) (room : ℕ) (turns : List (Turn GroupEvent))
      → (group_loop n side (with_room had room) turns).sent ≡ had ++ take room (group_items turns)
  unfolding group_loop
  group_loop-take had room [] = nothing_left had room
  group_loop-take had room (received e ∷ turns) =
      let rest = filter is_sent (taken turns) in
      let as_items = λ (es : List GroupEvent). map as_item es ++ farewell turns in
      elim (group_loop-received (with_room had room) e turns) [
        | inl (out, goes) ↦
            ap (λ (t : Tx SubscribeGroupUpdatesResponse). t.sent) goes
            ∙ group_loop-take had room turns
            ∙ ap (λ es. had ++ take room (as_items es))
                (sym (filter_out is_sent e (taken turns) out))
        | inr (kept, goes) ↦
            ap (λ (t : Tx SubscribeGroupUpdatesResponse). t.sent) goes
            ∙ sends_next had room (ok e.response) (λ next. group_loop n side next turns)
                (group_items turns) (λ more h. group_loop-take h more turns)
            ∙ ap (λ es. had ++ take room (as_items es))
                (sym (filter_in is_sent e (taken turns) kept))
      ]
  group_loop-take had room (lagged ∷ turns) = sends_last had room
  group_loop-take had room (closed ∷ turns) = nothing_left had room
  group_loop-take had room (disconnected ∷ turns) = nothing_left had room

  forward-take :
      (groups : List Group) (had : List Item) (room : ℕ) (turns : List (Turn GroupEvent))
      → (forward_group_updates groups n side turns (with_room had room)).sent
        ≡ had ++ take room (snapshot_items groups ++ group_items turns)
  unfolding forward_group_updates
  forward-take [] had room turns = group_loop-take had room turns
  forward-take (group ∷ groups) had room turns =
      sends_next had room (ok (group_upserted group)) (forward_group_updates groups n side turns)
        (snapshot_items groups ++ group_items turns) (λ more h. forward-take groups h more turns)

  -- The task for groups, whatever turns it takes and however soon the client is gone: it sends the
  -- snapshot, then of the events received before its end those that are newer than the snapshot and
  -- pass the filter, in order, and at its end the aborted status if the end is a lag; and a client
  -- that takes `room` messages is sent that many of them from the start.
  pub group_stream-take :
      (groups : List Group) (room : ℕ) (turns : List (Turn GroupEvent))
      → (forward_group_updates groups n side turns (with_room [] room)).sent
        ≡ take room (snapshot_items groups ++ group_items turns)
  group_stream-take groups room turns = forward-take groups [] room turns

  -- A subscriber to groups that lags is told so last, and is sent nothing of what follows: with room
  -- for it, its stream is the snapshot, the newer events that pass the filter before the lag, and
  -- the aborted status.
  pub lagged-aborts :
      (groups : List Group) (es : List GroupEvent) (turns : List (Turn GroupEvent)) (room : ℕ)
      → length groups + length es < room
      → (forward_group_updates groups n side
          (map received es ++ lagged ∷ turns)
          (with_room [] room)).sent
        ≡ snapshot_items groups ++ (map as_item (filter is_sent es) ++ err lag_status ∷ [])
  lagged-aborts groups es turns room enough =
      let events = map as_item (filter is_sent es) in
      let last : List Item = err lag_status ∷ [] in
      group_stream-take groups room (map received es ++ lagged ∷ turns)
      ∙ ap₂
          (λ fs end. take room (snapshot_items groups ++ (map as_item (filter is_sent fs) ++ end)))
          (taken-lagged es turns) (farewell-lagged SubscribeGroupUpdatesResponse es turns)
      ∙ take-length (snapshot_items groups ++ (events ++ last)) room (
          omega (
            arith,
            enough,
            length-append (snapshot_items groups) (events ++ last),
            length-append events last,
            length-map as_item (filter is_sent es),
            length-filter is_sent es,
            length-snapshot_items groups,
          ))

module _ (n : ℕ) where
  -- What is sent of a list of turns about the simulation to a client that stays.
  abbrev pub simulation_items : List (Turn SimulationEvent) → List States.Item
  simulation_items turns =
      map (λ (e : SimulationEvent). ok e.response)
        (filter (λ (e : SimulationEvent). not (leb e.sequence n)) (taken turns))
      ++ farewell turns

  simulation_loop-take :
      (had : List States.Item) (room : ℕ) (turns : List (Turn SimulationEvent))
      → (simulation_loop n (with_room had room) turns).sent
        ≡ had ++ take room (simulation_items turns)
  unfolding simulation_loop
  simulation_loop-take had room [] = nothing_left had room
  simulation_loop-take had room (received e ∷ turns) = elim (Bool-cases (leb e.sequence n)) [
    | inl old ↦ rw old (simulation_loop-take had room turns)
    | inr new ↦ rw new (
        sends_next had room (ok e.response) (λ next. simulation_loop n next turns)
          (simulation_items turns) (λ more h. simulation_loop-take h more turns))
  ]
  simulation_loop-take had room (lagged ∷ turns) = sends_last had room
  simulation_loop-take had room (closed ∷ turns) = nothing_left had room
  simulation_loop-take had room (disconnected ∷ turns) = nothing_left had room

  -- The task for the simulation, whatever turns it takes and however soon the client is gone: it
  -- sends the state in the snapshot, if there is one, then of the events received before its end
  -- those that are newer than the snapshot, in order, and at its end the aborted status if the end
  -- is a lag; and a client that takes `room` messages is sent that many of them from the start.
  pub simulation_stream-take :
      (state : Option SimulationStateUpdate) (room : ℕ) (turns : List (Turn SimulationEvent))
      → (forward_simulation_updates state n turns (with_room [] room)).sent
        ≡ take room (first_items state ++ simulation_items turns)
  unfolding forward_simulation_updates
  simulation_stream-take none room turns = simulation_loop-take [] room turns
  simulation_stream-take (some state) room turns =
      sends_next [] room (ok (record { state = some state })) (λ next. simulation_loop n next turns)
        (simulation_items turns) (λ more h. simulation_loop-take h more turns)
