-- ===== src/Services/Client.antt =====
-- What the forwarding task sends, as a client with any side filter receives it.
use minerva_server.Std.Status.{Status}
use minerva_server.Std.PartialEq.{option_partial_eq}
use minerva_server.Proto.Groups.{Group, SubscribeGroupUpdatesResponse, group_partial_eq}
use minerva_server.Cache.Writes.{GroupEvent, group_upserted}
use minerva_server.Cache.Sequence.{group_number, Between}
use minerva_server.Cache.Replica.{Replica, receive, receive_filtered, receive_all}
use minerva_server.Cache.Replica.Subscriber.{nothing, receive_snapshot}
use minerva_server.Services.Forward.{
  Tx, Turn, received, send, group_loop, forward_group_updates, matches_side,
}
use minerva_server.Proto.Side.{Side}
use minerva_server.Prelude.{
  Option, Bool-cases, inl, inr, sym, ℕ, zero, suc, ◌+◌, ◌≤◌, ◌<◌, ◌≡◌, refl, ◌∙◌, ap, some, List,
  [], ◌∷◌, ◌++◌, map, length, Result, ok, err, arith, leb, true, false,
}

-- What the client makes of the stream.
unfoldable pub receive_items :
    Replica → List (Result SubscribeGroupUpdatesResponse Status) → Replica
receive_items r [] = r
receive_items r (ok response ∷ items) = receive_items (receive r response) items
receive_items r (err status ∷ items) = receive_items r items

receive_items-append :
    (r : Replica) (items : List (Result SubscribeGroupUpdatesResponse Status))
    (response : SubscribeGroupUpdatesResponse)
    → receive_items r (items ++ ok response ∷ []) ≡ receive (receive_items r items) response
unfolding receive_items
receive_items-append r [] response = refl
receive_items-append r (ok first ∷ items) response =
    receive_items-append (receive r first) items response
receive_items-append r (err status ∷ items) response = receive_items-append r items response

-- A send with room left goes through.
send_room :
    (tx : Tx SubscribeGroupUpdatesResponse) (response : SubscribeGroupUpdatesResponse) (k : ℕ)
    → suc k ≤ tx.remaining
    → (next : Tx SubscribeGroupUpdatesResponse) × (send tx (ok response) ≡ some next)
      × (k ≤ next.remaining)
      × (receive_items nothing next.sent ≡ receive (receive_items nothing tx.sent) response)
unfolding send
send_room tx response k room = go tx.remaining refl
  where
    go :
        (n : ℕ)
        → tx.remaining ≡ n
        → (next : Tx SubscribeGroupUpdatesResponse) × (send tx (ok response) ≡ some next)
          × (k ≤ next.remaining)
          × (receive_items nothing next.sent ≡ receive (receive_items nothing tx.sent) response)
    go zero e = absurd (omega arith)
    go (suc n) e = (
      record { sent = tx.sent ++ ok response ∷ []; remaining = n },
      rw (e, send) refl,
      omega arith,
      receive_items-append nothing tx.sent response,
    )

module _ (side : Option Side) where
  -- Events that the snapshot covers are passed over.
  pub loop_skips :
      (low n : ℕ) (es fs : List GroupEvent) (tx : Tx SubscribeGroupUpdatesResponse)
      → Between group_number low n es
      → group_loop n side tx (map received (es ++ fs)) ≡ group_loop n side tx (map received fs)
  unfolding group_loop
  loop_skips low n [] fs tx b = refl
  loop_skips low n (e ∷ es) fs tx b = ground (arith, b.1, loop_skips low n es fs tx b.2)

  above : (low n : ℕ) → low < n → leb n low ≡ false
  above low n p = ground arith

  filtered_in :
      (r : Replica) (response : SubscribeGroupUpdatesResponse)
      → matches_side side response ≡ true
      → receive_filtered side r response ≡ receive r response
  unfolding receive_filtered
  filtered_in r response m = rw m refl

  filtered_out :
      (r : Replica) (response : SubscribeGroupUpdatesResponse)
      → matches_side side response ≡ false
      → receive_filtered side r response ≡ r
  unfolding receive_filtered
  filtered_out r response m = rw m refl

  -- Of later events those that match the filter are passed on.
  pub loop_forwards :
      (n high : ℕ) (es : List GroupEvent) (tx : Tx SubscribeGroupUpdatesResponse)
      → Between group_number n high es
      → length es ≤ tx.remaining
      → receive_items nothing (group_loop n side tx (map received es)).sent
        ≡ receive_all side (receive_items nothing tx.sent) es
  unfolding group_loop receive_all
  loop_forwards n high [] tx b room = refl
  loop_forwards n high (e ∷ es) tx b room =
      let had = receive_items nothing tx.sent in
      elim (Bool-cases (matches_side side e.response)) [
        | inl m ↦
            let (next, sends, left, known) = send_room tx e.response (length es) room in
            rw (above n e.sequence b.0, m, sends)
              (loop_forwards n high es next b.2 left
                ∙ ap (λ r. receive_all side r es) (known ∙ sym (filtered_in had e.response m)))
        | inr m ↦
            rw (above n e.sequence b.0, m)
              (loop_forwards n high es tx b.2 (omega arith)
                ∙ ap (λ r. receive_all side r es) (sym (filtered_out had e.response m)))
      ]

  -- The snapshot goes first, and leaves room for the rest.
  pub forward_snapshot :
      (n k : ℕ) (snapshot : List Group) (turns : List (Turn GroupEvent))
      (tx : Tx SubscribeGroupUpdatesResponse)
      → length snapshot + k ≤ tx.remaining
      → (next : Tx SubscribeGroupUpdatesResponse) × (forward_group_updates snapshot n side turns tx
          ≡ group_loop n side next turns)
        × (k ≤ next.remaining)
        × (receive_items nothing next.sent
            ≡ receive_snapshot (receive_items nothing tx.sent) snapshot)
  unfolding forward_group_updates receive_snapshot
  forward_snapshot n k [] turns tx room = (tx, refl, omega arith, refl)
  forward_snapshot n k (group ∷ groups) turns tx room =
      let (next, sends, left, known) =
        send_room tx (group_upserted group) (length groups + k) (omega arith) in
      let (last, forwards, rest, all) = forward_snapshot n k groups turns next left in
      (
        last,
        rw (sends, forward_group_updates) forwards,
        rest,
        all ∙ ap (λ r. receive_snapshot r groups) (known ∙ (unfold receive group_upserted in refl)),
      )
