-- ===== src/Services/States.antt =====
-- A subscription to the simulation, from the cache through the task to the client.
use minerva_server.Std.Status.{Status}
use minerva_server.Proto.Simulation.{SimulationStateUpdate, SubscribeSimulationUpdatesResponse}
use minerva_server.Cache.Writes.{StateCache, SimulationEvent, new}
use minerva_server.Cache.Reads.{subscribe_simulation, subscribe_simulation_updates}
use minerva_server.Cache.Step.{Write, run}
use minerva_server.Std.Lists.{append_assoc, append_nil, length-append}
use minerva_server.Cache.Sequence.{total, simulation_number, Between, Between-suffix, latest}
use minerva_server.Cache.Sequence.Writes.{run-Follows, new-IsNumbered}
use minerva_server.Services.Channel.{with_room, send-some}
use minerva_server.Services.Forward.{
  Tx, Turn, received, simulation_loop, forward_simulation_updates,
}
use minerva_server.Prelude.{
  ℕ, ◌+◌, ◌^◌, ◌≤◌, ◌<◌, ◌≡◌, refl, sym, ◌∙◌, ap, subst, Option, none, some, List, [], ◌∷◌, ◌++◌,
  map, length, drop, Result, ok, err, arith, leb, false,
}

abbrev pub Item : Type 0
Item = Result SubscribeSimulationUpdatesResponse Status

-- The state that a client shows, which starts with none: that of the last message.
abbrev pub shown : Option SimulationStateUpdate → List Item → Option SimulationStateUpdate
shown state [] = state
shown state (ok response ∷ items) = shown response.state items
shown state (err status ∷ items) = shown state items

-- Events as they are sent.
abbrev pub items : List SimulationEvent → List Item
items es = map (λ e. ok e.response) es

-- The snapshot as it is sent.
abbrev pub first_items : Option SimulationStateUpdate → List Item
first_items none = []
first_items (some state) = ok (record { state = some state }) ∷ []

shown-items :
    (state : Option SimulationStateUpdate) (es : List SimulationEvent)
    → shown state (items es) ≡ latest state es
shown-items state [] = refl
shown-items state (e ∷ es) = shown-items e.response.state es

shown-first_items :
    (state : Option SimulationStateUpdate) (more : List Item)
    → shown none (first_items state ++ more) ≡ shown state more
shown-first_items none more = refl
shown-first_items (some state) more = refl

drop-length : (xs ys : List SimulationEvent) → drop (length xs) (xs ++ ys) ≡ ys
drop-length [] ys = refl
drop-length (x ∷ xs) ys = drop-length xs ys

-- Events that the snapshot covers are passed over.
loop_skips :
    (low n : ℕ) (es fs : List SimulationEvent) (tx : Tx SubscribeSimulationUpdatesResponse)
    → Between simulation_number low n es
    → simulation_loop n tx (map received (es ++ fs)) ≡ simulation_loop n tx (map received fs)
unfolding simulation_loop
loop_skips low n [] fs tx b = refl
loop_skips low n (e ∷ es) fs tx b = ground (arith, b.1, loop_skips low n es fs tx b.2)

above : (low n : ℕ) → low < n → leb n low ≡ false
above low n p = ground arith

-- Later events are all passed on.
loop_forwards :
    (n high : ℕ) (es : List SimulationEvent) (had : List Item) (room : ℕ)
    → Between simulation_number n high es
    → length es ≤ room
    → (simulation_loop n (with_room had room) (map received es)).sent ≡ had ++ items es
unfolding simulation_loop
loop_forwards n high [] had room b enough = sym (append_nil had)
loop_forwards n high (e ∷ es) had room b enough =
    let (k, more, sends) = send-some had room (ok e.response) (omega arith) in
    rw (above n e.sequence b.0, sends)
      (loop_forwards n high es (had ++ ok e.response ∷ []) k b.2 (omega arith)
        ∙ append_assoc had (ok e.response ∷ []) (items es))

-- The snapshot goes first.
forward_snapshot :
    (state : Option SimulationStateUpdate) (n room : ℕ) (turns : List (Turn SimulationEvent))
    → 1 ≤ room
    → (k : ℕ) × (room ≤ k + 1)
      × (forward_simulation_updates state n turns (with_room [] room)
          ≡ simulation_loop n (with_room (first_items state) k) turns)
unfolding forward_simulation_updates
forward_snapshot none n room turns enough = (room, omega arith, refl)
forward_snapshot (some state) n room turns enough =
    let (k, more, sends) =
      send-some {R = SubscribeSimulationUpdatesResponse} [] room
        (ok (record { state = some state })) enough in
    (k, omega arith, rw (sends, forward_simulation_updates) refl)

-- What a receiver made at `made` has yielded at `final`.
abbrev pub updates : StateCache → StateCache → List SimulationEvent
updates made final = drop (subscribe_simulation made) final.simulation_updates

-- What the task sends in its turns, to a client that takes `room` messages; its receiver is made at
-- `made`, and its snapshot is read at `middle`.
abbrev pub stream : StateCache → StateCache → List (Turn SimulationEvent) → ℕ → List Item
stream made middle turns room =
    let (snapshot, snapshot_sequence, receiver) = subscribe_simulation_updates made middle in
    (forward_simulation_updates snapshot snapshot_sequence turns (with_room [] room)).sent

-- The turns of a task whose receiver neither lags nor is closed, and whose client stays: each
-- message that the receiver, at its position in the log, yields up to the end, in order.
abbrev pub in_time : StateCache → StateCache → List Write → List (Turn SimulationEvent)
in_time made middle later =
    let (snapshot, snapshot_sequence, receiver) = subscribe_simulation_updates made middle in
    map received (drop receiver (run middle later).simulation_updates)

updates_split :
    (made middle : StateCache) (later : List Write) (old_news : List SimulationEvent)
    → middle.simulation_updates ≡ made.simulation_updates ++ old_news
    → updates made (run middle later) ≡ old_news ++ (run-Follows middle later).simulation_news
unfolding subscribe_simulation
updates_split made middle later old_news grown =
    let second = run-Follows middle later in
    ap (drop (length made.simulation_updates)) (
      second.simulation_log
      ∙ ap (λ l. l ++ second.simulation_news) grown
      ∙ append_assoc made.simulation_updates old_news second.simulation_news)
    ∙ drop-length made.simulation_updates (old_news ++ second.simulation_news)

-- What was sent before the snapshot is numbered up to the snapshot's number.
old-Between :
    (before : List Write) (old_news shown_news : List SimulationEvent)
    → let middle = run new before in
      total middle < 2 ^ 64
      → middle.simulation_updates ≡ shown_news ++ old_news
      → Between simulation_number 0 middle.inner.sequence old_news
old-Between before old_news shown_news fits grown =
    let middle = run new before in
    let first = run-Follows new before in
    let known = first.numbered new-IsNumbered fits in
    Between-suffix simulation_number 0 middle.inner.sequence shown_news old_news (
      subst (λ es. Between simulation_number 0 middle.inner.sequence es)
        (sym first.simulation_log ∙ grown)
        (subst (λ n. Between simulation_number 0 n first.simulation_news) (sym known.0) known.2))

-- A client subscribes to the simulation of a cache that starts new: its receiver is made at any time
-- before its snapshot is read, between two broadcasts of one write too; `before` are the writes up to
-- the snapshot, `later` those after it. If fewer than 2 ^ 64 messages are sent in all, the task's
-- receiver does not lag, so that the task's turns are exactly the messages sent after the receiver
-- was made, in order, and the client takes one message more than there are of these, then it is sent
-- the state in the snapshot, if there is one, then exactly what is sent after the snapshot was read,
-- in order, and nothing else; and so it ends with the state that is cached at the end. (What a client
-- whose receiver lags is sent is another matter: its stream is aborted.)
pub simulation-current :
    (before later : List Write) (made : StateCache) (old_news : List SimulationEvent)
    (turns : List (Turn SimulationEvent)) (room : ℕ)
    → let middle = run new before in
      let final = run middle later in
      middle.simulation_updates ≡ made.simulation_updates ++ old_news
      → total final < 2 ^ 64
      → turns ≡ in_time made middle later
      → length (updates made final) < room
      → (news : List SimulationEvent) × (final.simulation_updates
          ≡ middle.simulation_updates ++ news)
        × (stream made middle turns room ≡ first_items middle.inner.simulation_state ++ items news)
        × (shown none (stream made middle turns room) ≡ final.inner.simulation_state)
unfolding subscribe_simulation_updates
simulation-current before later made old_news turns room grown fits timely enough =
    let middle = run new before in
    let final = run middle later in
    let state = middle.inner.simulation_state in
    let n = middle.inner.sequence in
    let second = run-Follows middle later in
    let split = updates_split made middle later old_news grown in
    let known =
      (run-Follows new before).numbered new-IsNumbered (omega (arith, fits, second.grows)) in
    let after = second.numbered known.0 fits in
    let (k, rest, begins) =
      forward_snapshot state n room (map received (updates made final)) (omega arith) in
    let skips = loop_skips 0 n old_news second.simulation_news (with_room (first_items state) k) (
      old-Between before old_news made.simulation_updates (omega (arith, fits, second.grows))
        grown) in
    let sends =
      loop_forwards n (total final) second.simulation_news (first_items state) k
        (subst (λ m. Between simulation_number m (total final) second.simulation_news) (sym known.0)
          after.2)
        (omega
          (arith, rest, enough, ap length split, length-append old_news second.simulation_news)) in
    let sent =
      ap (λ (t : Tx SubscribeSimulationUpdatesResponse). t.sent)
        (ap (λ ts. forward_simulation_updates state n ts (with_room [] room)) timely
          ∙ begins
          ∙ ap (λ es. simulation_loop n (with_room (first_items state) k) (map received es)) split
          ∙ skips)
      ∙ sends in
    (
      second.simulation_news,
      second.simulation_log,
      sent,
      ap (shown none) sent
          ∙ shown-first_items state (items second.simulation_news)
          ∙ shown-items state second.simulation_news
          ∙ sym second.shows,
    )
