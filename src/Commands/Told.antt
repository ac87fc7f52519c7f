-- ===== src/Commands/Told.antt =====
-- What the engine was told through `CommandSink::dispatch`, and the commands that wait for it.
use minerva_server.Std.HashMap
use minerva_server.Std.HashMap.{HashMap, get-insert, get-remove}
use minerva_server.Ids.{CommandId, command_id_key}
use minerva_server.Commands.{Command, CommandOutcome}
use minerva_server.Commands.Dispatcher.{
  Dispatcher, new, allocate, begin, drop_guard, complete, cancel_all, Action, allocates, begins,
  ends, completes, cancels, perform, perform_all,
}
use minerva_server.Prelude.{
  ℕ, zero, suc, ◌≡◌, refl, ◌∙◌, ap, length, get_elem?, Option-cases, some, List, [], ◌∷◌, ◌++◌, inl,
  inr, arith,
}

length-snoc {ℓ} : {A : Type ℓ} (xs : List A) (x : A) → length (xs ++ x ∷ []) ≡ suc (length xs)
length-snoc [] x = refl
length-snoc (y ∷ xs) x = ap suc (length-snoc xs x)

get_elem-last {ℓ} :
    {A : Type ℓ} (xs : List A) (x : A) → get_elem? (xs ++ x ∷ []) (length xs) ≡ some x
get_elem-last [] x = refl
get_elem-last (y ∷ xs) x = get_elem-last xs x

get_elem-before {ℓ} :
    {A : Type ℓ} (xs : List A) (x y : A) (n : ℕ)
    → get_elem? xs n ≡ some y
    → get_elem? (xs ++ x ∷ []) n ≡ some y
get_elem-before [] x y n e = absurd (ground arith)
get_elem-before (z ∷ xs) x y zero e = e
get_elem-before (z ∷ xs) x y (suc n) e = get_elem-before xs x y n e

-- Channels are numbered as commands are told, and what is pending was told.
record IsTold (d : Dispatcher) : Type 0 where
  channels : d.channels ≡ length d.dispatched
  told :
      (id : CommandId) (channel : ℕ)
      → HashMap.get d.pending id ≡ some channel
      → (command : Command) × (get_elem? d.dispatched channel ≡ some (id, command))

-- A command that is begun.
module _ (d : Dispatcher) (v : IsTold d) (own : CommandId) (command : Command) where
  begin-channel :
      (id : CommandId) (channel : ℕ)
      → own ≡ id
      → HashMap.get (begin d own command).pending id ≡ some channel
      → channel ≡ length d.dispatched
  unfolding begin
  begin-channel id channel same e =
      ground (arith, get-insert d.pending own id d.channels, v.channels)

  begin-told :
      (id : CommandId) (channel : ℕ)
      → HashMap.get (begin d own command).pending id ≡ some channel
      → (x : Command) × (get_elem? (begin d own command).dispatched channel ≡ some (id, x))
  unfolding begin
  begin-told id channel e = elim (command_id_key.same own id) [
    | yes same ↦ (
      command,
      ap (get_elem? (d.dispatched ++ (own, command) ∷ [])) (begin-channel id channel same e)
          ∙ get_elem-last d.dispatched (own, command)
          ∙ ap (λ i. some (i, command)) same,
    )
    | no other ↦
        let (x, f) = v.told id channel (ground (arith, get-insert d.pending own id d.channels)) in
        (x, get_elem-before d.dispatched (own, command) (id, x) channel f)
  ]

removed-IsTold :
    (d : Dispatcher) (x : CommandId) (answers : List (ℕ × CommandOutcome))
    → IsTold d
    → IsTold (record d { pending = HashMap.remove d.pending x; answers = answers })
removed-IsTold d x answers v = record {
  channels = v.channels;
  told = λ id h e. v.told id h (ground (arith, get-remove d.pending x id));
}

perform-IsTold : (d : Dispatcher) (a : Action) → IsTold d → IsTold (perform d a)
unfolding perform allocate begin drop_guard complete cancel_all
perform-IsTold d allocates v = record { channels = v.channels; told = v.told }
perform-IsTold d (begins id command) v = record {
  channels = omega (arith, v.channels, length-snoc d.dispatched (id, command));
  told = begin-told d v id command;
}
perform-IsTold d (ends x) v = removed-IsTold d x d.answers v
perform-IsTold d (completes x o) v = elim (Option-cases (HashMap.get d.pending x)) [
  | inl e ↦ rw (e, perform, complete) (removed-IsTold d x d.answers v)
  | inr (h, e) ↦ rw (e, perform, complete) (removed-IsTold d x (d.answers ++ (h, o) ∷ []) v)
]
perform-IsTold d cancels v = record {
  channels = v.channels;
  told = λ id h e. absurd (unfold HashMap.get in ground arith);
}

perform_all-IsTold :
    (d : Dispatcher) (actions : List Action) → IsTold d → IsTold (perform_all d actions)
unfolding perform_all
perform_all-IsTold d [] v = v
perform_all-IsTold d (a ∷ actions) v =
    perform_all-IsTold (perform d a) actions (perform-IsTold d a v)

new-IsTold : IsTold new
new-IsTold = record {
  channels = refl;
  told = λ id h e. absurd (unfold HashMap.get in ground arith);
}

-- After any actions, a command that is pending, and so one that `cancel_all` would fail, is one that
-- the engine was told, with its id: it waits on channel n if it was told after n others.
pub pending-dispatched :
    (actions : List Action) (id : CommandId) (channel : ℕ)
    → let d = perform_all new actions in
      HashMap.get d.pending id ≡ some channel
      → (command : Command) × (get_elem? d.dispatched channel ≡ some (id, command))
pending-dispatched actions id channel e =
    (perform_all-IsTold new actions new-IsTold).told id channel e
