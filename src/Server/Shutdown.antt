-- ===== src/Server/Shutdown.antt =====
-- `ServerHandle::shutdown` and the end of its thread.
use minerva_server.Server.{
  Spawned, Step, Reach, here, next, Phase, ending, exited, Caller, waiting, returned, ServerHandle,
  shutdown, drop, shutdown_grace_period, relays, sleeps, forces, passes,
}
use minerva_server.Prelude.{
  ℕ, ◌+◌, ◌≤◌, ◌≡◌, if◌then◌else◌, refl, some, Bool, Bool-cases, true, false, ok, err, inl, inr,
  ◌⊎◌, [],
}

-- A second `shutdown` finds nothing to take, changes nothing and does nothing, and so does the drop
-- of a handle that was shut down.
pub shutdown-shutdown :
    {A : Type 0} (h : ServerHandle A)
    → (shutdown (shutdown h).0 ≡ ((shutdown h).0, [])) × (drop (shutdown h).0 ≡ [])
unfolding shutdown drop
shutdown-shutdown h = elim (Bool-cases h.shutdown_tx) [
  | inl p ↦ elim (Bool-cases h.thread) [
    | inl q ↦ rw (p, q) (refl, refl)
    | inr q ↦ rw (p, q) (refl, refl)
  ]
  | inr p ↦ elim (Bool-cases h.thread) [
    | inl q ↦ rw (p, q) (refl, refl)
    | inr q ↦ rw (p, q) (refl, refl)
  ]
]

module _ {A E : Type 0} where
  -- The sender of a handle is only taken by sending.
  abbrev HasSignal : Caller A E → Bool → Type 0
  HasSignal waiting signalled = Unit
  HasSignal (returned (err f)) signalled = Unit
  HasSignal (returned (ok h)) signalled = (h.shutdown_tx ≡ true) ⊎ (signalled ≡ true)

  -- A grace period that runs is over soon.
  abbrev IsSoon : Spawned A E → Type 0
  IsSoon s = (d : ℕ) → s.deadline ≡ some d → d ≤ s.now + shutdown_grace_period

  -- The relay of the signal, the start of the grace period, time, and the forced end: steps that
  -- neither a client nor a call that is being handled can hold up.
  abbrev pub is_unaided : {s t : Spawned A E} → Step s t → Bool
  is_unaided (relays s e x y) = true
  is_unaided (sleeps s e x y) = true
  is_unaided (forces s d e x y) = true
  is_unaided (passes s n) = true
  is_unaided _ = false

  abbrev pub all_unaided : {s t : Spawned A E} → Reach s t → Bool
  all_unaided here = true
  all_unaided (next r st) = if is_unaided st then all_unaided r else false

  -- The thread's work is over.
  abbrev pub is_past : Phase A E → Bool
  is_past (ending ended) = true
  is_past (exited ended) = true
  is_past _ = false

  -- Such steps lead to the end of the thread's work within the grace period.
  abbrev pub ComesToEnd : Spawned A E → Type 0
  ComesToEnd s =
      (t : Spawned A E) × (path : Reach s t) × (all_unaided path ≡ true)
      × (is_past t.phase ≡ true)
      × (t.now ≤ s.now + shutdown_grace_period)
