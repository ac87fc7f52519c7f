-- ===== src/Server/Grace.antt =====
-- How long connections are left open.
use minerva_server.Server.{
  Spawned, Step, Reach, here, next, start, ending, exited, forced, shutdown_grace_period, builds,
  build_fails, binds, bind_fails, announces, gives_up, panics_early, panics, receives,
  receives_none, drops_tx, signals, joins, relays, drains, sleeps, stops, forces, finishes, passes,
}
use minerva_server.Prelude.{ℕ, ◌+◌, ◌≤◌, ◌≡◌, refl, sym, ◌∙◌, some, true, false, arith, false≢true}

module _ {A E : Type 0} where
  -- From the instant `n` on, before which no signal was relayed.
  abbrev HasGrace : ℕ → Spawned A E → Type 0
  HasGrace n s =
      (n ≤ s.now)
      × ((d : ℕ) → s.deadline ≡ some d → (s.fired ≡ true) × (n + shutdown_grace_period ≤ d))
      × (s.phase ≡ ending forced → (s.fired ≡ true) × (n + shutdown_grace_period ≤ s.now))
      × (s.phase ≡ exited forced → (s.fired ≡ true) × (n + shutdown_grace_period ≤ s.now))

  Step-HasGrace : (n : ℕ) {s t : Spawned A E} → Step s t → HasGrace n s → HasGrace n t
  Step-HasGrace n (builds s e) v = (v.0, v.1, λ p. absurd (grind arith), λ p. absurd (grind arith))
  Step-HasGrace n (build_fails s f e) v =
      (v.0, v.1, λ p. absurd (grind arith), λ p. absurd (grind arith))
  Step-HasGrace n (binds s a e) v = (v.0, v.1, λ p. absurd (grind arith), λ p. absurd (grind arith))
  Step-HasGrace n (bind_fails s f e) v =
      (v.0, v.1, λ p. absurd (grind arith), λ p. absurd (grind arith))
  Step-HasGrace n (announces s a e w) v =
      (v.0, v.1, λ p. absurd (grind arith), λ p. absurd (grind arith))
  Step-HasGrace n (gives_up s a e w) v =
      (v.0, v.1, λ p. absurd (grind arith), λ p. absurd (grind arith))
  Step-HasGrace n (panics_early s e) v =
      (v.0, v.1, λ p. absurd (grind arith), λ p. absurd (grind arith))
  Step-HasGrace n (panics s e) v = (v.0, v.1, λ p. absurd (grind arith), λ p. absurd (grind arith))
  Step-HasGrace n (stops s r e) v = (v.0, v.1, λ p. absurd (grind arith), λ p. absurd (grind arith))
  Step-HasGrace n (receives s r w e) v = v
  Step-HasGrace n (receives_none s w e) v = v
  Step-HasGrace n (drops_tx s f e x) v = v
  Step-HasGrace n (signals s h e x) v = v
  Step-HasGrace n (joins s h ended e x y p) v = v
  Step-HasGrace n (drains s e x y) v = v
  Step-HasGrace n (relays s e x y) v =
      (v.0, λ d q. (refl, (v.1 d q).1), λ p. (refl, (v.2 p).1), λ p. (refl, (v.3 p).1))
  Step-HasGrace n (sleeps s e x y) v = (v.0, λ d q. (x, grind (arith, v.0)), v.2, v.3)
  Step-HasGrace n (forces s d e x y) v =
      let known = v.1 d x in
      (v.0, v.1, λ p. (known.0, omega (arith, known.1, y)), λ p. absurd (grind arith))
  Step-HasGrace n (finishes s ended e) v =
      (v.0, v.1, λ p. absurd (grind arith), λ p. v.2 (grind (arith, e, p)))
  Step-HasGrace n (passes s m) v = (
    omega (arith, v.0),
    v.1,
    λ p. ((v.2 p).0, omega (arith, (v.2 p).1)),
    λ p. ((v.3 p).0, omega (arith, (v.3 p).1)),
  )

  Reach-HasGrace : (n : ℕ) {s t : Spawned A E} → Reach s t → HasGrace n s → HasGrace n t
  Reach-HasGrace n here v = v
  Reach-HasGrace n (next r st) v = Step-HasGrace n st (Reach-HasGrace n r v)

  -- Connections are given the grace period: if the shutdown was not yet relayed at some instant,
  -- then a server that ends by force does so two seconds after that instant, or later.
  pub forced-grace :
      (now : ℕ) {s t : Spawned A E}
      → Reach (start now) s
      → s.fired ≡ false
      → Reach s t
      → t.phase ≡ exited forced
      → s.now + shutdown_grace_period ≤ t.now
  forced-grace now {s} before off after p =
      let v = Reach-HasGrace now before (
        omega arith,
        λ d e. absurd (grind arith),
        λ e. absurd (grind arith),
        λ e. absurd (grind arith),
      ) in
      let lit = λ (on : s.fired ≡ true). false≢true (sym off ∙ on) in
      let later = Reach-HasGrace s.now after (
        omega arith,
        λ d e. absurd (lit (v.1 d e).0),
        λ e. absurd (lit (v.2 e).0),
        λ e. absurd (lit (v.3 e).0),
      ) in
      (later.3 p).1
