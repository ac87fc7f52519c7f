-- ===== src/Services/Channel.antt =====
-- What the forwarding tasks do to their channel.
use minerva_server.Std.Status.{Status}
use minerva_server.Services.Forward.{Tx, send, abort, lag_status}
use minerva_server.Prelude.{
  ℕ, zero, suc, ◌+◌, ◌≤◌, ◌≡◌, refl, none, some, List, [], ◌∷◌, ◌++◌, Result, err, arith,
}

module _ {R : Type 0} where
  -- The channel that has sent `items`, with room for `n` more.
  abbrev pub with_room : List (Result R Status) → ℕ → Tx R
  with_room items n = record { sent = items; remaining = n }

  pub send_ok :
      (items : List (Result R Status)) (n : ℕ) (item : Result R Status)
      → send (with_room items (suc n)) item ≡ some (with_room (items ++ item ∷ []) n)
  unfolding send
  send_ok items n item = refl

  pub send_gone :
      (items : List (Result R Status)) (item : Result R Status)
      → send (with_room items 0) item ≡ none
  unfolding send
  send_gone items item = refl

  pub abort_ok :
      (items : List (Result R Status)) (n : ℕ)
      → abort (with_room items (suc n)) ≡ with_room (items ++ err lag_status ∷ []) n
  unfolding abort send
  abort_ok items n = refl

  pub abort_gone : (items : List (Result R Status)) → abort (with_room items 0) ≡ with_room items 0
  unfolding abort send
  abort_gone items = refl

  -- A send with room left.
  pub send-some :
      (items : List (Result R Status)) (n : ℕ) (item : Result R Status)
      → 1 ≤ n
      → (k : ℕ) × (n ≡ k + 1)
        × (send (with_room items n) item ≡ some (with_room (items ++ item ∷ []) k))
  send-some items zero item room = absurd (omega arith)
  send-some items (suc n) item room = (n, omega arith, send_ok items n item)
