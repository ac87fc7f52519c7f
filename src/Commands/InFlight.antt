-- ===== src/Commands/InFlight.antt =====
-- The calls of `send` that have not ended, and what they leave in the table of pending commands.
use minerva_server.Std.HashMap
use minerva_server.Std.HashMap.{HashMap, get-insert, get-remove}
use minerva_server.Ids.{CommandId, command_id_key}
use minerva_server.Commands.Dispatcher.{
  Dispatcher, new, allocate, begin, drop_guard, complete, cancel_all, Action, allocates, begins,
  ends, completes, cancels, perform, perform_all,
}
use minerva_server.Prelude.{
  ℕ, ◌≡◌, ◌≢◌, refl, ite, Bool, true, false, Option-cases, none, some, List, [], ◌∷◌, inl, inr,
  arith, sym, ap, ◌∙◌, false≢true,
}

-- Without the first copy.
abbrev pub without : List CommandId → CommandId → List CommandId
without [] id = []
without (x ∷ xs) id = ite (command_id_key.same x id) xs (x ∷ without xs id)

abbrev pub among : List CommandId → CommandId → Bool
among [] id = false
among (x ∷ xs) id = ite (command_id_key.same x id) true (among xs id)

-- The ids of the calls of `send` whose guard has not been dropped.
abbrev pub holds : Dispatcher → List CommandId → Action → List CommandId
holds d ids allocates = ids
holds d ids (begins id command) = id ∷ ids
holds d ids (ends id) = without ids id
holds d ids (completes id o) = ids
holds d ids cancels = ids

abbrev pub in_flight : Dispatcher → List CommandId → List Action → List CommandId
in_flight d ids [] = ids
in_flight d ids (a ∷ actions) = in_flight (perform d a) (holds d ids a) actions

-- Each pending command is of a call that has not ended.
record IsHeld (d : Dispatcher) (ids : List CommandId) : Type 0 where
  held : (id : CommandId) (h : ℕ) → HashMap.get d.pending id ≡ some h → among ids id ≡ true

among-without :
    (ids : List CommandId) (x id : CommandId) → x ≢ id → among (without ids x) id ≡ among ids id
among-without [] x id n = refl
among-without (y ∷ ids) x id n = ground (arith, among-without ids x id n)

perform-IsHeld :
    (d : Dispatcher) (ids : List CommandId) (a : Action)
    → IsHeld d ids
    → IsHeld (perform d a) (holds d ids a)
unfolding perform allocate begin drop_guard complete cancel_all
perform-IsHeld d ids allocates v = record { held = v.held }
perform-IsHeld d ids (begins own command) v = record {
  held = λ id h e. ground (arith, v.held id h, get-insert d.pending own id d.channels);
}
perform-IsHeld d ids (ends x) v = record {
  held = λ id h e. ground (arith, v.held id h, get-remove d.pending x id, among-without ids x id);
}
perform-IsHeld d ids (completes x o) v = record {
  held = λ id h e. ground (arith, v.held id h, get-remove d.pending x id);
}
perform-IsHeld d ids cancels v = record {
  held = λ id h e. absurd (unfold HashMap.get in ground arith);
}

perform_all-IsHeld :
    (d : Dispatcher) (ids : List CommandId) (actions : List Action)
    → IsHeld d ids
    → IsHeld (perform_all d actions) (in_flight d ids actions)
unfolding perform_all
perform_all-IsHeld d ids [] v = v
perform_all-IsHeld d ids (a ∷ actions) v =
    perform_all-IsHeld (perform d a) (holds d ids a) actions (perform-IsHeld d ids a v)

empty_table : (m : HashMap CommandId ℕ) → ((id : CommandId) → HashMap.get m id ≡ none) → m ≡ []
unfolding HashMap.get
empty_table [] e = refl
empty_table ((id, h) ∷ m) e = absurd (ground (arith, e id))

new-IsHeld : IsHeld new []
unfolding HashMap.get
new-IsHeld = record { held = λ id h e. ground arith }

-- Whatever is begun, acknowledged, cancelled and ended, in any order and with command ids reused, a
-- command that is pending is of a call of `send` whose guard has not been dropped.
pub pending-among :
    (actions : List Action) (id : CommandId) (channel : ℕ)
    → HashMap.get (perform_all new actions).pending id ≡ some channel
    → among (in_flight new [] actions) id ≡ true
pending-among actions id channel e =
    (perform_all-IsHeld new [] actions new-IsHeld).held id channel e

-- After any actions at whose end every call of `send` has dropped its guard, whether it was
-- answered, timed out, was dropped or unwound, no command is left pending.
pub pending-in_flight :
    (actions : List Action) → in_flight new [] actions ≡ [] → (perform_all new actions).pending ≡ []
pending-in_flight actions ended = empty_table (perform_all new actions).pending (λ id.
    elim (Option-cases (HashMap.get (perform_all new actions).pending id)) [
      | inl e ↦ e
      | inr (h, e) ↦
          absurd (false≢true (sym (ap (λ ids. among ids id) ended) ∙ pending-among actions id h e))
    ])
