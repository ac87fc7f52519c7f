-- ===== src/Commands/Pending.antt =====
-- The commands that wait for an answer, under any actions on the dispatcher.
use minerva_server.Std.HashMap
use minerva_server.Std.HashMap.{HashMap, get-insert, get-remove}
use minerva_server.Ids.{CommandId, command_id, u64, next, command_id_key}
use minerva_server.Std.Key.{nat_key}
use minerva_server.Commands.{CommandOutcome, failure}
use minerva_server.Commands.Dispatcher.{
  Dispatcher, new, allocate, begin, drop_guard, complete, cancel_all, Action, allocates, begins,
  ends, completes, cancels, perform, perform_all,
}
use minerva_server.Prelude.{
  ℕ, ◌+◌, ◌≤◌, ◌≡◌, refl, ◌∙◌, ite, if_pos, ℕ_discrete, true, false, none, some, Option-cases, List,
  [], ◌∷◌, ◌++◌, map, arith, inl, inr,
}

pub count : ℕ → List ℕ → ℕ
count n [] = 0
count n (x ∷ xs) = ite (ℕ_discrete x n) 1 0 + count n xs

-- The channels that were sent into.
abbrev pub used : Dispatcher → List ℕ
used d = map (λ e. e.0) d.answers

abbrev waiting : Dispatcher → List ℕ
waiting d = HashMap.values d.pending

count-remove :
    (n : ℕ) (m : HashMap CommandId ℕ) (id : CommandId)
    → count n (HashMap.values (HashMap.remove m id)) ≤ count n (HashMap.values m)
unfolding count HashMap.remove
count-remove n [] id = omega arith
count-remove n ((a, h) ∷ m) id = ground (arith, count-remove n m id)

count-taken :
    (n : ℕ) (m : HashMap CommandId ℕ) (id : CommandId) (h : ℕ)
    → HashMap.get m id ≡ some h
    → count n (HashMap.values (HashMap.remove m id)) + ite (ℕ_discrete h n) 1 0
      ≤ count n (HashMap.values m)
unfolding count HashMap.remove HashMap.get
count-taken n [] id h e = ground arith
count-taken n ((a, x) ∷ m) id h e = ground (arith, count-remove n m id, count-taken n m id h)

count-answer :
    (n : ℕ) (answers : List (ℕ × CommandOutcome)) (h : ℕ) (o : CommandOutcome)
    → count n (map (λ e. e.0) (answers ++ (h, o) ∷ []))
      ≡ count n (map (λ e. e.0) answers) + ite (ℕ_discrete h n) 1 0
unfolding count
count-answer n [] h o = omega arith
count-answer n ((k, p) ∷ answers) h o = omega (arith, count-answer n answers h o)

count-cancel :
    (n : ℕ) (answers : List (ℕ × CommandOutcome)) (m : HashMap CommandId ℕ) (o : CommandOutcome)
    → count n (map (λ e. e.0) (answers ++ map (λ (e : CommandId × ℕ). (e.1, o)) m))
      ≡ count n (map (λ e. e.0) answers) + count n (HashMap.values m)
unfolding count
count-cancel n [] [] o = omega arith
count-cancel n [] ((id, h) ∷ m) o = omega (arith, count-cancel n [] m o)
count-cancel n ((k, p) ∷ answers) m o = omega (arith, count-cancel n answers m o)

-- A channel is waiting or used once, and only if it was made.
pub record IsOneshot (d : Dispatcher) : Type 0 where
  pub once : (n : ℕ) → count n (waiting d) + count n (used d) ≤ 1
  pub fresh : (n : ℕ) → d.channels ≤ n → count n (waiting d) + count n (used d) ≡ 0

pub perform-IsOneshot : (d : Dispatcher) (a : Action) → IsOneshot d → IsOneshot (perform d a)
unfolding perform allocate begin drop_guard complete cancel_all next HashMap.insert count
perform-IsOneshot d allocates v = record { once = v.once; fresh = v.fresh }
perform-IsOneshot d (begins id command) v = record {
  once = λ n. ground (arith, v.once n, v.fresh n, count-remove n d.pending id);
  fresh = λ n p. ground (arith, v.fresh n, count-remove n d.pending id);
}
perform-IsOneshot d (ends id) v = record {
  once = λ n. omega (arith, v.once n, count-remove n d.pending id);
  fresh = λ n p. omega (arith, v.fresh n p, count-remove n d.pending id);
}
perform-IsOneshot d (completes id o) v = elim (Option-cases (HashMap.get d.pending id)) [
  | inl e ↦
      rw (e, perform, complete)
        (record {
          once = λ n. omega (arith, v.once n, count-remove n d.pending id);
          fresh = λ n p. omega (arith, v.fresh n p, count-remove n d.pending id);
        })
  | inr (h, e) ↦
      rw (e, perform, complete)
        (record {
          once = λ n.
              omega (arith, v.once n, count-taken n d.pending id h e, count-answer n d.answers h o);
          fresh = λ n p.
              omega
                (arith, v.fresh n p, count-taken n d.pending id h e, count-answer n d.answers h o);
        })
]
perform-IsOneshot d cancels v = record {
  once = λ n. omega (arith, v.once n, count-cancel n d.answers d.pending (failure "cancelled"));
  fresh =
      λ n p. omega (arith, v.fresh n p, count-cancel n d.answers d.pending (failure "cancelled"));
}

pub perform_all-IsOneshot :
    (d : Dispatcher) (actions : List Action) → IsOneshot d → IsOneshot (perform_all d actions)
unfolding perform_all
perform_all-IsOneshot d [] v = v
perform_all-IsOneshot d (a ∷ actions) v =
    perform_all-IsOneshot (perform d a) actions (perform-IsOneshot d a v)

pub new-IsOneshot : IsOneshot new
unfolding count
new-IsOneshot = record { once = λ n. omega arith; fresh = λ n p. refl }

-- Whatever is begun, acknowledged, cancelled and ended, in any order and with command ids reused,
-- no channel is sent into twice.
pub answered_once : (actions : List Action) (n : ℕ) → count n (used (perform_all new actions)) ≤ 1
answered_once actions n = omega (arith, (perform_all-IsOneshot new actions new-IsOneshot).once n)

pub complete_found :
    (d : Dispatcher) (id : CommandId) (h : ℕ) (o : CommandOutcome)
    → HashMap.get d.pending id ≡ some h
    → complete d id o ≡ (
      record d { pending = HashMap.remove d.pending id; answers = d.answers ++ (h, o) ∷ [] },
      true,
    )
unfolding complete
complete_found d id h o e = rw (e, complete) refl

pub complete_missing :
    (d : Dispatcher) (id : CommandId) (o : CommandOutcome)
    → HashMap.get d.pending id ≡ none
    → complete d id o ≡ (record d { pending = HashMap.remove d.pending id }, false)
unfolding complete
complete_missing d id o e = rw (e, complete) refl

pub get-removed :
    (m : HashMap CommandId ℕ) (id : CommandId) → HashMap.get (HashMap.remove m id) id ≡ none
get-removed m id =
    get-remove m id id ∙ if_pos (command_id_key.same id id) refl none (HashMap.get m id)

-- A command that is pending, whatever was done before, is acknowledged once: the first `complete`
-- with its id, which the engine may have kept as a `u64`, is accepted and sends its outcome, and no
-- other answer, into the command's own channel; a second one right after it is refused, sends
-- nothing, and leaves the id not pending.
pub complete-complete :
    (actions : List Action) (id : CommandId) (channel : ℕ) (first second : CommandOutcome)
    → let d = perform_all new actions in
      let echoed = command_id (u64 id) in
      let done = complete d echoed first in
      let again = complete done.0 echoed second in
      HashMap.get d.pending id ≡ some channel
      → (done.1 ≡ true)
        × (done.0.answers ≡ d.answers ++ (channel, first) ∷ [])
        × (again.1 ≡ false)
        × (again.0.answers ≡ done.0.answers)
        × (HashMap.get again.0.pending id ≡ none)
complete-complete actions id channel first second held =
    let d = perform_all new actions in
    let taken = record d {
      pending = HashMap.remove d.pending id;
      answers = d.answers ++ (channel, first) ∷ [];
    } in
    rw
      (
        complete_found d id channel first held,
        complete_missing taken id second (get-removed d.pending id),
      )
      (refl, refl, refl, refl, get-removed (HashMap.remove d.pending id) id)

pub get-unused :
    (answers : List (ℕ × CommandOutcome)) (m : HashMap CommandId ℕ) (h : ℕ) (o : CommandOutcome)
    → count h (map (λ e. e.0) answers) ≡ 0
    → HashMap.get (answers ++ map (λ (e : CommandId × ℕ). (e.1, o)) m) h
      ≡ HashMap.get (map (λ (e : CommandId × ℕ). (e.1, o)) m) h
unfolding HashMap.get count
get-unused [] m h o e = refl
get-unused ((k, p) ∷ answers) m h o e = ground (arith, get-unused answers m h o)

pub get-cancelled :
    (m : HashMap CommandId ℕ) (id : CommandId) (h : ℕ) (o : CommandOutcome)
    → HashMap.get m id ≡ some h
    → HashMap.get (map (λ (e : CommandId × ℕ). (e.1, o)) m) h ≡ some o
unfolding HashMap.get
get-cancelled [] id h o e = ground arith
get-cancelled ((a, x) ∷ m) id h o e = ground (arith, get-cancelled m id h o)

pub count-stored :
    (m : HashMap CommandId ℕ) (id : CommandId) (h : ℕ)
    → HashMap.get m id ≡ some h
    → 1 ≤ count h (HashMap.values m)
count-stored m id h e = ground (arith, count-taken h m id h e)

-- After any actions, `cancel_all` leaves no command pending, and each that was pending has
-- `Failure("cancelled")` as the only answer in its channel.
pub cancel_all-fails :
    (actions : List Action) (id : CommandId) (channel : ℕ)
    → HashMap.get (perform_all new actions).pending id ≡ some channel
    → (HashMap.get (cancel_all (perform_all new actions)).answers channel
        ≡ some (failure "cancelled"))
      × (count channel (used (cancel_all (perform_all new actions))) ≡ 1)
      × ((cancel_all (perform_all new actions)).pending ≡ [])
unfolding cancel_all
cancel_all-fails actions id channel e =
    let d = perform_all new actions in
    let v = (perform_all-IsOneshot new actions new-IsOneshot).once channel in
    let stored = count-stored d.pending id channel e in
    let gone = failure "cancelled" in
    (
      get-unused d.answers d.pending channel gone (omega (arith, v, stored))
          ∙ get-cancelled d.pending id channel gone e,
      omega (arith, v, stored, count-cancel channel d.answers d.pending gone),
      refl,
    )
