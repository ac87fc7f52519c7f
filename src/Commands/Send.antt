-- ===== src/Commands/Send.antt =====
-- `Dispatcher::send` from its call to its return. `tokio::time::timeout` over the receiver is a
-- parameter: what it reports, given the dispatcher when the wait ends.
use minerva_server.Std.HashMap
use minerva_server.Std.HashMap.{HashMap}
use minerva_server.Std.Key.{nat_key}
use minerva_server.Ids.{CommandId, command_id_key}
use minerva_server.Commands.{Command, CommandOutcome, failure}
use minerva_server.Commands.Dispatcher.{
  Dispatcher, new, allocate, begin, drop_guard, complete, cancel_all, Action, allocates, begins,
  ends, completes, cancels, perform, perform_all, Waited, answered, outcome,
}
use minerva_server.Commands.Pending.{
  count, used, IsOneshot, perform_all-IsOneshot, new-IsOneshot, complete_found, get-unused,
  get-cancelled, count-stored, get-removed, perform-IsOneshot,
}
use minerva_server.Prelude.{
  ℕ, ◌≡◌, refl, sym, ◌∙◌, ap, subst, none, some, Option-cases, List, [], ◌∷◌, ◌++◌, map, arith, inl,
  inr,
}

-- The first answer in a channel stays.
get-append :
    (xs ys : List (ℕ × CommandOutcome)) (h : ℕ) (o : CommandOutcome)
    → HashMap.get xs h ≡ some o
    → HashMap.get (xs ++ ys) h ≡ some o
unfolding HashMap.get
get-append [] ys h o e = absurd (grind arith)
get-append ((k, p) ∷ xs) ys h o e = ground (arith, get-append xs ys h o)

perform-answered :
    (d : Dispatcher) (a : Action) (h : ℕ) (o : CommandOutcome)
    → HashMap.get d.answers h ≡ some o
    → HashMap.get (perform d a).answers h ≡ some o
unfolding perform allocate begin drop_guard cancel_all complete
perform-answered d allocates h o e = e
perform-answered d (begins own command) h o e = e
perform-answered d (ends id) h o e = e
perform-answered d (completes id p) h o e = elim (Option-cases (HashMap.get d.pending id)) [
  | inl g ↦ rw (g, perform, complete) e
  | inr (k, g) ↦ rw (g, perform, complete) (get-append d.answers ((k, p) ∷ []) h o e)
]
perform-answered d cancels h o e =
    get-append d.answers (map (λ e. (e.1, failure "cancelled")) d.pending) h o e

perform_all-answered :
    (d : Dispatcher) (actions : List Action) (h : ℕ) (o : CommandOutcome)
    → HashMap.get d.answers h ≡ some o
    → HashMap.get (perform_all d actions).answers h ≡ some o
unfolding perform_all
perform_all-answered d [] h o e = e
perform_all-answered d (a ∷ actions) h o e =
    perform_all-answered (perform d a) actions h o (perform-answered d a h o e)

perform_all-append :
    (d : Dispatcher) (xs ys : List Action)
    → perform_all d (xs ++ ys) ≡ perform_all (perform_all d xs) ys
unfolding perform_all
perform_all-append d [] ys = refl
perform_all-append d (x ∷ xs) ys = perform_all-append (perform d x) xs ys

-- A pending command is answered by what completes or cancels it.
module _ (d : Dispatcher) (v : IsOneshot d) (id : CommandId) (h : ℕ)
    (held : HashMap.get d.pending id ≡ some h) where
  unanswered : count h (used d) ≡ 0
  unanswered = omega (arith, v.once h, count-stored d.pending id h held)

  completes_answered :
      (o : CommandOutcome) → HashMap.get (perform d (completes id o)).answers h ≡ some o
  unfolding perform
  completes_answered o =
      rw (perform, complete_found d id h o held)
        (get-unused d.answers ((id, h) ∷ []) h o unanswered ∙ (unfold HashMap.get in ground arith))

  cancels_answered : HashMap.get (perform d cancels).answers h ≡ some (failure "cancelled")
  unfolding perform cancel_all
  cancels_answered =
      get-unused d.answers d.pending h (failure "cancelled") unanswered
      ∙ get-cancelled d.pending id h (failure "cancelled") held

-- The actions of others while `send` runs: before it has the lock, before its wait ends, those
-- inside `dispatch` included, and before its guard is dropped.
pub record Meanwhile : Type 0 where
  pub queued : List Action
  pub during : List Action
  pub closing : List Action

-- The dispatcher as `send` takes the lock.
abbrev pub locked : Dispatcher → List Action → Dispatcher
locked d queued = perform_all (allocate d).1 queued

-- The dispatcher after the critical section.
abbrev pub begun : Dispatcher → Command → List Action → Dispatcher
begun d command queued = begin (locked d queued) (allocate d).0 command

begun-IsOneshot :
    (d : Dispatcher) (command : Command) (queued : List Action)
    → IsOneshot d
    → IsOneshot (begun d command queued)
unfolding perform
begun-IsOneshot d command queued v =
    perform-IsOneshot (locked d queued) (begins (allocate d).0 command)
      (perform_all-IsOneshot (allocate d).1 queued (perform-IsOneshot d allocates v))

module _ (wait : Dispatcher → ℕ → Waited) where
  unfoldable pub send : Dispatcher → Command → Meanwhile → CommandOutcome × Dispatcher
  send d command others =
      let id = (allocate d).0 in
      let waited = perform_all (begun d command others.queued) others.during in
      (
        outcome (wait waited (locked d others.queued).channels),
        drop_guard (perform_all waited others.closing) id,
      )

  decides :
      ((d : Dispatcher) (channel : ℕ) (o : CommandOutcome)
        → HashMap.get d.answers channel ≡ some o
        → wait d channel ≡ answered o)
      → (started : Dispatcher) (before later : List Action) (a : Action) (h : ℕ)
        (o : CommandOutcome)
      → HashMap.get (perform (perform_all started before) a).answers h ≡ some o
      → outcome (wait (perform_all started (before ++ a ∷ later)) h) ≡ o
  unfolding perform_all outcome
  decides reports started before later a h o e =
      let final = perform_all started (before ++ a ∷ later) in
      let stays = perform_all-answered (perform (perform_all started before) a) later h o e in
      ap outcome (
        reports final h o (
          subst (λ (x : Dispatcher). HashMap.get x.answers h ≡ some o)
            (sym (perform_all-append started before (a ∷ later))) stays))

  -- What `send` returns, on a dispatcher with any history, if the wait reports an answer that is in
  -- the channel when it ends: if the command is pending after `before`, then an acknowledgement with
  -- its id that comes next, before the wait ends, decides, and a `cancel_all` there makes it a
  -- failure, whatever happens later. What happens between the end of the wait and the drop of the
  -- guard does not change what is returned, and after that drop the id is not pending.
  pub send-answered :
      ((d : Dispatcher) (channel : ℕ) (o : CommandOutcome)
        → HashMap.get d.answers channel ≡ some o
        → wait d channel ≡ answered o)
      → (earlier : List Action) (command : Command) (queued before later : List Action)
      → let d = perform_all new earlier in
        let id = (allocate d).0 in
        HashMap.get (perform_all (begun d command queued) before).pending id
          ≡ some (locked d queued).channels
        → ((o : CommandOutcome) (closing : List Action)
            → (send d command (record {
              queued = queued;
              during = before ++ completes id o ∷ later;
              closing = closing;
            })).0
              ≡ o)
          × ((closing : List Action)
              → (send d command (record {
                queued = queued;
                during = before ++ cancels ∷ later;
                closing = closing;
              })).0
                ≡ failure "cancelled")
          × ((others : Meanwhile) → HashMap.get (send d command others).1.pending id ≡ none)
  unfolding send drop_guard outcome
  send-answered reports earlier command queued before later held =
      let d = perform_all new earlier in
      let id = (allocate d).0 in
      let h = (locked d queued).channels in
      let start = begun d command queued in
      let v =
        perform_all-IsOneshot start before
          (begun-IsOneshot d command queued (perform_all-IsOneshot new earlier new-IsOneshot)) in
      let mid = perform_all start before in
      (
        λ o closing.
            decides reports start before later (completes id o) h o
              (completes_answered mid v id h held o),
        λ closing.
            decides reports start before later cancels h (failure "cancelled")
              (cancels_answered mid v id h held),
        λ others.
            get-removed
              (perform_all (perform_all (begun d command others.queued) others.during)
                others.closing).pending
              id,
      )
