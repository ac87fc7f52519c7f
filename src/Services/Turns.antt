-- ===== src/Services/Turns.antt =====
-- What a forwarding task makes of the turns of `select!`.
use minerva_server.Std.Lists.{take_nil}
use minerva_server.Std.Status.{Status}
use minerva_server.Std.Lists.{append_assoc, append_nil}
use minerva_server.Services.Channel.{with_room, send_ok, send_gone, abort_ok, abort_gone}
use minerva_server.Services.Forward.{
  Tx, Turn, received, lagged, closed, disconnected, abort, lag_status, send,
}
use minerva_server.Prelude.{
  ℕ, zero, suc, ◌≡◌, refl, sym, ◌∙◌, ap, none, some, List, [], ◌∷◌, ◌++◌, map, take, Result, err,
}

-- The events before the turn at which a task ends.
abbrev pub taken : {E : Type 0} → List (Turn E) → List E
taken [] = []
taken (received e ∷ turns) = e ∷ taken turns
taken (lagged ∷ turns) = []
taken (closed ∷ turns) = []
taken (disconnected ∷ turns) = []

-- What a task sends at its end.
abbrev pub farewell : {E R : Type 0} → List (Turn E) → List (Result R Status)
farewell [] = []
farewell (received e ∷ turns) = farewell turns
farewell (lagged ∷ turns) = err lag_status ∷ []
farewell (closed ∷ turns) = []
farewell (disconnected ∷ turns) = []

-- A client that is gone is sent nothing more.
pub sends_last :
    {R : Type 0} (had : List (Result R Status)) (room : ℕ)
    → (abort (with_room had room)).sent ≡ had ++ take room (err lag_status ∷ [])
sends_last had zero = rw (abort_gone had) (sym (append_nil had))
sends_last {R} had (suc room) =
    ap (λ (t : Tx R). t.sent) (abort_ok had room)
    ∙ ap (λ l. had ++ err lag_status ∷ l) (sym (take_nil {A = Result R Status} room))

-- A message is sent, and the task goes on if the client is still there.
pub sends_next :
    {R : Type 0} (had : List (Result R Status)) (room : ℕ) (item : Result R Status)
    (goes_on : Tx R → Tx R) (items : List (Result R Status))
    → ((more : ℕ) (sent : List (Result R Status))
        → (goes_on (with_room sent more)).sent ≡ sent ++ take more items)
    → (elim (send (with_room had room) item) as (λ x. Tx R) [
      | none ↦ with_room had room
      | some next ↦ goes_on next
    ]).sent
      ≡ had ++ take room (item ∷ items)
sends_next had zero item goes_on items h = rw (send_gone had item) (sym (append_nil had))
sends_next had (suc room) item goes_on items h =
    rw (send_ok had room item)
      (h room (had ++ item ∷ []) ∙ append_assoc had (item ∷ []) (take room items))

pub nothing_left : {A : Type 0} (had : List A) (room : ℕ) → had ≡ had ++ take room []
nothing_left {A} had room = sym (append_nil had) ∙ ap (λ l. had ++ l) (sym (take_nil {A = A} room))

-- Events up to a lag.
pub taken-lagged :
    {E : Type 0} (es : List E) (turns : List (Turn E))
    → taken (map received es ++ lagged ∷ turns) ≡ es
taken-lagged [] turns = refl
taken-lagged (e ∷ es) turns = ap (λ l. e ∷ l) (taken-lagged es turns)

pub farewell-lagged :
    {E : Type 0} (R : Type 0) (es : List E) (turns : List (Turn E))
    → farewell {R = R} (map received es ++ lagged ∷ turns) ≡ err lag_status ∷ []
farewell-lagged R [] turns = refl
farewell-lagged R (e ∷ es) turns = farewell-lagged R es turns
