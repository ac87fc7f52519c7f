-- ===== src/Server/Exited.antt =====
-- What `ServerHandle::shutdown` has done when it returns.
use minerva_server.Server.{
  Spawned, Step, Reach, here, next, start, exited, Caller, waiting, returned, ServerHandle, Failure,
  Ended, spawned, is_early, builds, build_fails, binds, bind_fails, announces, gives_up,
  panics_early, panics, receives, receives_none, drops_tx, signals, joins, relays, drains, sleeps,
  stops, forces, finishes, passes,
}
use minerva_server.Prelude.{
  ℕ, ◌≡◌, refl, sym, ◌∙◌, ap, subst, false, some, Result, ok, err, arith, false≢true,
}

module _ {A E : Type 0} where
  -- A thread that has exited takes no step.
  Step-exited :
      {s t : Spawned A E} (ended : Ended E)
      → Step s t
      → s.phase ≡ exited ended
      → t.phase ≡ exited ended
  Step-exited ended (builds s e) p = absurd (grind (arith, e, p))
  Step-exited ended (build_fails s f e) p = absurd (grind (arith, e, p))
  Step-exited ended (binds s a e) p = absurd (grind (arith, e, p))
  Step-exited ended (bind_fails s f e) p = absurd (grind (arith, e, p))
  Step-exited ended (announces s a e w) p = absurd (grind (arith, e, p))
  Step-exited ended (gives_up s a e n) p = absurd (grind (arith, e, p))
  Step-exited ended (panics_early s e) p = absurd (false≢true (sym (ap is_early p) ∙ e))
  Step-exited ended (panics s e) p = absurd (grind (arith, e, p))
  Step-exited ended (receives s r w e) p = p
  Step-exited ended (receives_none s w e) p = p
  Step-exited ended (drops_tx s f e n) p = p
  Step-exited ended (signals s h e x) p = p
  Step-exited ended (joins s h over e x y q) p = p
  Step-exited ended (relays s e x y) p = absurd (grind (arith, e, p))
  Step-exited ended (drains s e x y) p = absurd (grind (arith, e, p))
  Step-exited ended (sleeps s e x y) p = absurd (grind (arith, e, p))
  Step-exited ended (stops s r e) p = absurd (grind (arith, e, p))
  Step-exited ended (forces s d e x y) p = absurd (grind (arith, e, p))
  Step-exited ended (finishes s over e) p = absurd (grind (arith, e, p))
  Step-exited ended (passes s n) p = p

  Reach-exited :
      {s t : Spawned A E} (ended : Ended E)
      → Reach s t
      → s.phase ≡ exited ended
      → t.phase ≡ exited ended
  Reach-exited ended here p = p
  Reach-exited ended (next r st) p = Step-exited ended st (Reach-exited ended r p)

  -- A handle is without its thread only after the end of the thread, and without its sender too.
  abbrev Gone : Spawned A E → ServerHandle A → Type 0
  Gone s h = (h.shutdown_tx ≡ false) × (ended : Ended E) × (s.phase ≡ exited ended)

  abbrev HasJoined : Spawned A E → Caller A E → Type 0
  HasJoined s waiting = Unit
  HasJoined s (returned (err f)) = Unit
  HasJoined s (returned (ok h)) = h.thread ≡ false → Gone s h

  -- A step of the thread.
  keeps : {s t : Spawned A E} (c : Caller A E) → Step s t → HasJoined s c → HasJoined t c
  keeps waiting st v = tt
  keeps (returned (err f)) st v = tt
  keeps (returned (ok h)) st v =
      λ off. let (unsent, ended, p) = v off in (unsent, ended, Step-exited ended st p)

  spawned-HasJoined :
      (s : Spawned A E) (r : Result A (Failure E)) → HasJoined s (returned (spawned (some r)))
  spawned-HasJoined s (ok a) = λ off. absurd (false≢true (sym off))
  spawned-HasJoined s (err f) = tt

  Step-HasJoined : {s t : Spawned A E} → Step s t → HasJoined s s.caller → HasJoined t t.caller
  Step-HasJoined (receives s r w e) v =
      spawned-HasJoined (record s { caller = returned (spawned (some r)) }) r
  Step-HasJoined (receives_none s w e) v = tt
  Step-HasJoined (signals s h e x) v =
      let known = subst (HasJoined s) e v in
      rw x (λ off. let (unsent, ended, p) = known off in (refl, ended, p))
  Step-HasJoined (joins s h ended e x y p) v = rw y (λ off. (x, ended, p))
  Step-HasJoined (drops_tx s f e n) v = keeps s.caller (drops_tx s f e n) v
  Step-HasJoined (builds s e) v = keeps s.caller (builds s e) v
  Step-HasJoined (build_fails s f e) v = keeps s.caller (build_fails s f e) v
  Step-HasJoined (binds s a e) v = keeps s.caller (binds s a e) v
  Step-HasJoined (bind_fails s f e) v = keeps s.caller (bind_fails s f e) v
  Step-HasJoined (announces s a e w) v = keeps s.caller (announces s a e w) v
  Step-HasJoined (gives_up s a e n) v = keeps s.caller (gives_up s a e n) v
  Step-HasJoined (panics_early s e) v = keeps s.caller (panics_early s e) v
  Step-HasJoined (panics s e) v = keeps s.caller (panics s e) v
  Step-HasJoined (relays s e x y) v = keeps s.caller (relays s e x y) v
  Step-HasJoined (drains s e x y) v = keeps s.caller (drains s e x y) v
  Step-HasJoined (sleeps s e x y) v = keeps s.caller (sleeps s e x y) v
  Step-HasJoined (stops s r e) v = keeps s.caller (stops s r e) v
  Step-HasJoined (forces s d e x y) v = keeps s.caller (forces s d e x y) v
  Step-HasJoined (finishes s ended e) v = keeps s.caller (finishes s ended e) v
  Step-HasJoined (passes s n) v = keeps s.caller (passes s n) v

  Reach-HasJoined : {s t : Spawned A E} → Reach s t → HasJoined s s.caller → HasJoined t t.caller
  Reach-HasJoined here v = v
  Reach-HasJoined (next r st) v = Step-HasJoined st (Reach-HasJoined r v)

  -- When `shutdown` has joined the thread, so that the handle no longer has it, the sender is spent
  -- as well, and the thread has exited, the drop of what it held included; and however the run goes
  -- on, the thread stays ended as it was.
  pub shutdown-exited :
      (now : ℕ) {s t : Spawned A E} (h : ServerHandle A)
      → Reach (start now) s
      → s.caller ≡ returned (ok h)
      → h.thread ≡ false
      → Reach s t
      → (h.shutdown_tx ≡ false)
        × (ended : Ended E) × (s.phase ≡ exited ended)
        × (t.phase ≡ exited ended)
  shutdown-exited now {s} h r e off later =
      let (unsent, ended, p) = subst (HasJoined s) e (Reach-HasJoined r tt) off in
      (unsent, ended, p, Reach-exited ended later p)
