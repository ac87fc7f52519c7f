-- ===== src/Server/Startup.antt =====
-- `ServerHandle::spawn` and the start of its thread.
use minerva_server.Server.{
  Spawned, Step, Reach, here, next, start, Phase, starting, binding, bound, serving, ending, exited,
  gave_up, Ready, empty, sent, hung_up, Caller, waiting, returned, ServerHandle, Failure, is_early,
  spawned, builds, build_fails, binds, bind_fails, announces, gives_up, panics_early, panics,
  receives, receives_none, drops_tx, signals, joins, relays, drains, sleeps, stops, forces,
  finishes, passes, Ended, take_shutdown_tx, take_thread,
}
use minerva_server.Prelude.{
  ℕ, ◌≡◌, ◌≢◌, refl, sym, ◌∙◌, ap, subst, Option, none, some, true, false, Result, ok, err, arith,
  false≢true, ◌⊎◌, inl, inr,
}

taken_addr : {A : Type 0} (h : ServerHandle A) → (take_shutdown_tx h).0.local_addr ≡ h.local_addr
taken_addr h = ground arith

joined_addr : {A : Type 0} (h : ServerHandle A) → (take_thread h).0.local_addr ≡ h.local_addr
joined_addr h = ground arith

module _ {A E : Type 0} where
  -- What is sent to the caller tells where the thread listens.
  abbrev Tells : Option A → Ready A E → Type 0
  Tells l empty = ⊥
  Tells l (sent (ok a)) = l ≡ some a
  Tells l (sent (err f)) = l ≡ none
  Tells l hung_up = l ≡ none

  -- And so does what `spawn` returns.
  abbrev pub Knows : Option A → Caller A E → Type 0
  Knows l waiting = Unit
  Knows l (returned (ok h)) = l ≡ some h.local_addr
  Knows l (returned (err f)) = l ≡ none

  abbrev IsSound : Phase A E → Ready A E → Caller A E → Option A → Type 0
  IsSound starting r c l = (r ≡ empty) × (c ≡ waiting) × (l ≡ none)
  IsSound binding r c l = (r ≡ empty) × (c ≡ waiting) × (l ≡ none)
  IsSound (bound a) r c l = (r ≡ empty) × (c ≡ waiting) × (l ≡ some a)
  IsSound serving r c l = (l ≢ none) × Tells l r × Knows l c
  IsSound (ending ended) r c l = (ended ≢ gave_up) × Tells l r × Knows l c
  IsSound (exited ended) r c l = (ended ≢ gave_up) × Tells l r × Knows l c

  abbrev SoundAt : Spawned A E → Type 0
  SoundAt s = IsSound s.phase s.ready s.caller s.listener

  at_phase :
      (s : Spawned A E) (p : Phase A E)
      → s.phase ≡ p
      → SoundAt s
      → IsSound p s.ready s.caller s.listener
  at_phase s p e v = subst (λ q. IsSound q s.ready s.caller s.listener) e v

  not-waiting :
      (p : Phase A E) (r : Ready A E) (c : Caller A E) (l : Option A)
      → is_early p ≡ true
      → IsSound p r c l
      → c ≡ waiting
  not-waiting starting r c l e v = v.1
  not-waiting binding r c l e v = v.1
  not-waiting (bound a) r c l e v = v.1
  not-waiting serving r c l e v = absurd (false≢true e)
  not-waiting (ending ended) r c l e v = absurd (false≢true e)
  not-waiting (exited ended) r c l e v = absurd (false≢true e)

  -- The caller goes on with what it has heard.
  hears :
      (p : Phase A E) (r : Ready A E) (c d : Caller A E) (l : Option A)
      → r ≢ empty
      → (Tells l r → Knows l c → Knows l d)
      → IsSound p r c l
      → IsSound p r d l
  hears starting r c d l full f v = absurd (full v.0)
  hears binding r c d l full f v = absurd (full v.0)
  hears (bound a) r c d l full f v = absurd (full v.0)
  hears serving r c d l full f v = (v.0, v.1, f v.1 v.2)
  hears (ending ended) r c d l full f v = (v.0, v.1, f v.1 v.2)
  hears (exited ended) r c d l full f v = (v.0, v.1, f v.1 v.2)

  spawned-Knows :
      (l : Option A) (r : Result A (Failure E))
      → Tells l (sent r)
      → Knows l (returned (spawned (some r)))
  spawned-Knows l (ok a) t = t
  spawned-Knows l (err f) t = t

  returned-full :
      (p : Phase A E) (r : Ready A E) (c : Caller A E) (l : Option A)
      → c ≢ waiting
      → IsSound p r c l
      → r ≢ empty
  returned-full starting r c l n v = absurd (n v.1)
  returned-full binding r c l n v = absurd (n v.1)
  returned-full (bound a) r c l n v = absurd (n v.1)
  returned-full serving r c l n v = λ e. subst (Tells l) e v.1
  returned-full (ending ended) r c l n v = λ e. subst (Tells l) e v.1
  returned-full (exited ended) r c l n v = λ e. subst (Tells l) e v.1

  -- A handle changes, and not its address.
  keeps_handle :
      (s : Spawned A E) (h k : ServerHandle A)
      → s.caller ≡ returned (ok h)
      → k.local_addr ≡ h.local_addr
      → SoundAt s
      → IsSound s.phase s.ready (returned (ok k)) s.listener
  keeps_handle s h k e same v =
      hears s.phase s.ready s.caller (returned (ok k)) s.listener
        (returned-full s.phase s.ready s.caller s.listener (λ p. grind arith) v)
        (λ t known. subst (Knows s.listener) e known ∙ ap some (sym same)) v

  Step-SoundAt : {s t : Spawned A E} → Step s t → SoundAt s → SoundAt t
  Step-SoundAt (builds s e) v = at_phase s starting e v
  Step-SoundAt (build_fails s f e) v =
      let (r, c, l) = at_phase s starting e v in (λ p. grind arith, l, rw c tt)
  Step-SoundAt (binds s a e) v = let (r, c, l) = at_phase s binding e v in (r, c, refl)
  Step-SoundAt (bind_fails s f e) v =
      let (r, c, l) = at_phase s binding e v in (λ p. grind arith, l, rw c tt)
  Step-SoundAt (announces s a e w) v =
      let (r, c, l) = at_phase s (bound a) e v in (λ p. grind arith, l, rw c tt)
  Step-SoundAt (gives_up s a e n) v = absurd (n (at_phase s (bound a) e v).1)
  Step-SoundAt (panics_early s e) v =
      (λ p. grind arith, refl, rw (not-waiting s.phase s.ready s.caller s.listener e v) tt)
  Step-SoundAt (panics s e) v = let (n, t, k) = at_phase s serving e v in (λ p. grind arith, t, k)
  Step-SoundAt (receives s r w e) v =
      hears s.phase s.ready s.caller (returned (spawned (some r))) s.listener (λ p. grind arith)
        (λ t k. spawned-Knows s.listener r (subst (Tells s.listener) e t)) v
  Step-SoundAt (receives_none s w e) v =
      hears s.phase s.ready s.caller (returned (spawned none)) s.listener (λ p. grind arith)
        (λ t k. subst (Tells s.listener) e t) v
  Step-SoundAt (drops_tx s f e n) v = v
  Step-SoundAt (signals s h e x) v = keeps_handle s h (take_shutdown_tx h).0 e (taken_addr h) v
  Step-SoundAt (joins s h ended e x y p) v = keeps_handle s h (take_thread h).0 e (joined_addr h) v
  Step-SoundAt (relays s e x y) v = v
  Step-SoundAt (drains s e x y) v = v
  Step-SoundAt (sleeps s e x y) v = v
  Step-SoundAt (stops s r e) v = let (n, t, k) = at_phase s serving e v in (λ p. grind arith, t, k)
  Step-SoundAt (forces s d e x y) v =
      let (n, t, k) = at_phase s serving e v in (λ p. grind arith, t, k)
  Step-SoundAt (finishes s ended e) v = at_phase s (ending ended) e v
  Step-SoundAt (passes s n) v = v

  Reach-SoundAt : {s t : Spawned A E} → Reach s t → SoundAt s → SoundAt t
  Reach-SoundAt here v = v
  Reach-SoundAt (next r st) v = Step-SoundAt st (Reach-SoundAt r v)

  with_handle :
      (p : Phase A E) (r : Ready A E) (c : Caller A E) (l : Option A) (h : ServerHandle A)
      → c ≡ returned (ok h)
      → IsSound p r c l
      → (l ≡ some h.local_addr) × (is_early p ≡ false)
  with_handle starting r c l h e v = absurd (grind (arith, v.1))
  with_handle binding r c l h e v = absurd (grind (arith, v.1))
  with_handle (bound a) r c l h e v = absurd (grind (arith, v.1))
  with_handle serving r c l h e v = (subst (Knows l) e v.2, refl)
  with_handle (ending ended) r c l h e v = (subst (Knows l) e v.2, refl)
  with_handle (exited ended) r c l h e v = (subst (Knows l) e v.2, refl)

  with_error :
      (p : Phase A E) (r : Ready A E) (c : Caller A E) (l : Option A) (f : Failure E)
      → c ≡ returned (err f)
      → IsSound p r c l
      → (l ≡ none) × (ended : Ended E) × ((p ≡ ending ended) ⊎ (p ≡ exited ended))
  with_error starting r c l f e v = absurd (grind (arith, v.1))
  with_error binding r c l f e v = absurd (grind (arith, v.1))
  with_error (bound a) r c l f e v = absurd (grind (arith, v.1))
  with_error serving r c l f e v = absurd (v.0 (subst (Knows l) e v.2))
  with_error (ending ended) r c l f e v = (subst (Knows l) e v.2, ended, inl refl)
  with_error (exited ended) r c l f e v = (subst (Knows l) e v.2, ended, inr refl)

  -- However the thread and its caller interleave: if `spawn` returns a handle, then the thread has
  -- announced itself and listens, or listened before it ended, at the address in the handle; if
  -- `spawn` returns an error, then the thread has never served, and its work is over, though what
  -- it holds may still be being dropped; and the thread never finds that its caller has given up
  -- waiting.
  pub spawn-listens :
      (now : ℕ) {s : Spawned A E}
      → Reach (start now) s
      → ((h : ServerHandle A)
          → s.caller ≡ returned (ok h)
          → (s.listener ≡ some h.local_addr) × (is_early s.phase ≡ false))
        × ((f : Failure E)
            → s.caller ≡ returned (err f)
            → (s.listener ≡ none)
              × (ended : Ended E) × ((s.phase ≡ ending ended) ⊎ (s.phase ≡ exited ended)))
        × (s.phase ≢ ending gave_up)
        × (s.phase ≢ exited gave_up)
  spawn-listens now {s} r =
      let v = Reach-SoundAt r (refl, refl, refl) in
      (
        λ h e. with_handle s.phase s.ready s.caller s.listener h e v,
        λ f e. with_error s.phase s.ready s.caller s.listener f e v,
        λ e. (at_phase s (ending gave_up) e v).0 refl,
        λ e. (at_phase s (exited gave_up) e v).0 refl,
      )
