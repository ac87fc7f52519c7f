-- ===== src/Services/Subscription.antt =====
-- A subscription to groups, from the cache through the task to the client.
use minerva_server.Std.Status.{Status}
use minerva_server.Std.PartialEq.{Agrees, Agrees-trans, symm, option_partial_eq}
use minerva_server.Std.HashMap
use minerva_server.Ids.{GroupId}
use minerva_server.Proto.Groups.{Group, SubscribeGroupUpdatesResponse, group_partial_eq}
use minerva_server.Cache.Inner.{joined_group}
use minerva_server.Cache.Writes.{StateCache, GroupEvent, new}
use minerva_server.Cache.Reads.{list_groups, subscribe_groups, subscribe_group_updates}
use minerva_server.Cache.Step.{Write, run}
use minerva_server.Cache.Index.{IsIndexed, default-IsIndexed}
use minerva_server.Cache.Index.Writes.{run-IsIndexed}
use minerva_server.Cache.Unique.{IsUnique, run-IsUnique}
use minerva_server.Std.Lists.{append_assoc, length-append}
use minerva_server.Cache.Sequence.{total, IsNumbered, group_number, Between, Between-suffix}
use minerva_server.Cache.Sequence.Writes.{run-Follows, new-IsNumbered}
use minerva_server.Cache.Replica.{visible, Replica, receive_all, receive_all-append, IsCurrent}
use minerva_server.Cache.Replica.Writes.{run-IsCurrent}
use minerva_server.Cache.Replica.Subscriber.{
  nothing, receive_all-cases, receive_snapshot, receive_snapshot-list_groups,
}
use minerva_server.Services.Client.{receive_items, loop_skips, loop_forwards, forward_snapshot}
use minerva_server.Services.Forward.{Tx, Turn, received, group_loop, forward_group_updates}
use minerva_server.Proto.Side.{Side}
use minerva_server.Prelude.{
  ℕ, ◌+◌, ◌^◌, ◌≤◌, ◌<◌, ◌≡◌, refl, sym, ◌∙◌, ap, subst, Option, List, [], ◌∷◌, ◌++◌, map, length,
  drop, Result, inl, inr, arith,
}

drop-length : (xs ys : List GroupEvent) → drop (length xs) (xs ++ ys) ≡ ys
drop-length [] ys = refl
drop-length (x ∷ xs) ys = drop-length xs ys

Agrees-sym : (a b : Option Group) → Agrees a b → Agrees b a
Agrees-sym a b (inl p) = inl (sym p)
Agrees-sym a b (inr h) = inr (symm a b h)

-- Two copies that agree before the same messages agree after them.
same_news :
    (side : Option Side) (r s : Replica) (es : List GroupEvent) (g : GroupId)
    (before after : Option Group)
    → r g ≡ before
    → Agrees (s g) before
    → Agrees (receive_all side s es g) after
    → Agrees (receive_all side r es g) after
same_news side r s es g before after p q h = elim (receive_all-cases side es g) [
  | inl k ↦
      rw (k r, p) (Agrees-trans before (s g) after (Agrees-sym (s g) before q) (rw (k s) at h))
  | inr (o, k) ↦ rw (k r) (rw (k s) at h)
]

-- What a receiver made at `made` has yielded at `final`.
abbrev pub updates : StateCache → StateCache → List GroupEvent
updates made final = drop (subscribe_groups made) final.group_updates

-- The cache when the receiver is made, perhaps in the middle of a write, and when the snapshot is
-- read.
module _ (side : Option Side) (made middle : StateCache) (later : List Write) where
  abbrev final : StateCache
  final = run middle later

  -- What the task sends in its turns, to a client that takes `room` messages.
  abbrev pub stream :
      List (Turn GroupEvent) → ℕ → List (Result SubscribeGroupUpdatesResponse Status)
  stream turns room =
      let (snapshot, snapshot_sequence, receiver) = subscribe_group_updates made middle side in
      (forward_group_updates snapshot snapshot_sequence side turns
        (record { sent = []; remaining = room })).sent

  -- The turns of a task whose receiver neither lags nor is closed, and whose client stays: each
  -- message that the receiver, at its position in the log, yields up to the end, in order.
  abbrev pub in_time : List (Turn GroupEvent)
  in_time =
      let (snapshot, snapshot_sequence, receiver) = subscribe_group_updates made middle side in
      map received (drop receiver final.group_updates)

  abbrev fresh_news : List GroupEvent
  fresh_news = (run-Follows middle later).news

  module _ (old_news : List GroupEvent)
      (grown : middle.group_updates ≡ made.group_updates ++ old_news) where
    updates_split : updates made final ≡ old_news ++ fresh_news
    unfolding subscribe_groups
    updates_split =
        ap (drop (length made.group_updates)) (
          (run-Follows middle later).log
          ∙ ap (λ l. l ++ fresh_news) grown
          ∙ append_assoc made.group_updates old_news fresh_news)
        ∙ drop-length made.group_updates (old_news ++ fresh_news)

    module _ (numbered : IsNumbered middle)
        (covered : Between group_number 0 (total middle) middle.group_updates)
        (fits : total final < 2 ^ 64) (room : ℕ)
        (enough : length (list_groups middle side) + length (updates made final) ≤ room) where
      old-Between : Between group_number 0 middle.inner.sequence old_news
      old-Between =
          Between-suffix group_number 0 middle.inner.sequence made.group_updates old_news (
            subst (λ es. Between group_number 0 middle.inner.sequence es) grown
              (subst (λ n. Between group_number 0 n middle.group_updates) (sym numbered) covered))

      IsNumbered-final :
          IsNumbered final × Between group_number (total middle) (total final) fresh_news
      IsNumbered-final = let k = (run-Follows middle later).numbered numbered fits in (k.0, k.1)

      -- The client is sent the snapshot and then exactly what came after it.
      stream_known :
          receive_items nothing (stream in_time room)
          ≡ receive_all side (receive_snapshot nothing (list_groups middle side)) fresh_news
      unfolding subscribe_group_updates receive_items
      stream_known =
          let n = middle.inner.sequence in
          let tx : Tx SubscribeGroupUpdatesResponse = record { sent = []; remaining = room } in
          let (next, forwards, rest, all) =
            forward_snapshot side n (length (updates made final)) (list_groups middle side)
              (map received (updates made final)) tx enough in
          let skips = loop_skips side 0 n old_news fresh_news next old-Between in
          ap (λ (t : Tx SubscribeGroupUpdatesResponse). receive_items nothing t.sent)
            (forwards ∙ ap (λ es. group_loop n side next (map received es)) updates_split ∙ skips)
          ∙ loop_forwards side n (total final) fresh_news next
              (subst (λ k. Between group_number k (total final) fresh_news) (sym numbered)
                IsNumbered-final.1)
              (omega (arith, rest, ap length updates_split, length-append old_news fresh_news))
          ∙ ap (λ r. receive_all side r fresh_news) all

      stream-IsCurrent :
          IsIndexed middle.inner
          → IsUnique middle.inner
          → IsCurrent side nothing middle
          → (g : GroupId)
          → Agrees
              (receive_items nothing (stream in_time room) g)
              (visible side (joined_group final.inner g))
      stream-IsCurrent v u known g = rw stream_known (
          same_news side (receive_snapshot nothing (list_groups middle side))
            (receive_all side nothing middle.group_updates) fresh_news g
            (visible side (joined_group middle.inner g)) (visible side (joined_group final.inner g))
            (receive_snapshot-list_groups side middle g v u) (known g)
            (rw
              (
                (run-Follows middle later).log,
                receive_all-append side nothing middle.group_updates fresh_news,
              )
              at (run-IsCurrent side nothing middle later v known g)))

pub new-IsCurrent : (side : Option Side) → IsCurrent side nothing new
unfolding receive_all joined_group HashMap.get
new-IsCurrent side g = inl refl

-- A client subscribes, to all groups or to those of one side, to a cache that starts new: its
-- receiver is made at any time before its snapshot is read, between two broadcasts of one write too;
-- `before` are the writes up to the snapshot, `later` those after it. If fewer than 2 ^ 64 messages
-- are sent in all, the task's receiver does not lag, so that the task's turns are exactly the
-- messages sent after the receiver was made, in order, and the client takes as many messages as
-- there are groups in the snapshot and such messages, then what it is sent leaves it with the joined
-- view at the end of every group that the filter admits, up to `==`, and with no other group. (What
-- a client whose receiver lags is sent is another matter: its stream is aborted.)
pub stream-current :
    (side : Option Side) (before later : List Write) (made : StateCache)
    (old_news : List GroupEvent) (turns : List (Turn GroupEvent)) (room : ℕ)
    → let middle = run new before in
      let final = run middle later in
      middle.group_updates ≡ made.group_updates ++ old_news
      → total final < 2 ^ 64
      → turns ≡ in_time side made middle later
      → length (list_groups middle side) + length (updates made final) ≤ room
      → (g : GroupId)
      → Agrees
          (receive_items nothing (stream side made middle later turns room) g)
          (visible side (joined_group final.inner g))
stream-current side before later made old_news turns room grown fits timely enough g =
    let middle = run new before in
    let first = run-Follows new before in
    let known =
      first.numbered new-IsNumbered (omega (arith, fits, (run-Follows middle later).grows)) in
    let current =
      stream-IsCurrent side made middle later old_news grown known.0
        (subst (λ es. Between group_number 0 (total middle) es) (sym first.log) known.1) fits room
        enough (run-IsIndexed new before default-IsIndexed)
        (run-IsUnique new before default-IsIndexed (record { unique = tt }))
        (run-IsCurrent side nothing new before default-IsIndexed (new-IsCurrent side)) g in
    subst
      (λ (ts : List (Turn GroupEvent)).
        Agrees (receive_items nothing (stream side made middle later ts room) g)
          (visible side (joined_group (run middle later).inner g)))
      (sym timely) current
