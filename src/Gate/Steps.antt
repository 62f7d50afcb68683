-- ===== src/Gate/Steps.antt =====
-- Requests and responses in any order (internal/agent/approval.go).
pub mod Answers
pub mod Blocking
use eclaire.Prelude.{◌≡◌, ◌≢◌, ℕ, none, some, List, [], ◌∷◌, ◌++◌, String, All}
use eclaire.Prelude.Dict.{get}
use eclaire.Runtime.{ApprovalResult}
use eclaire.Gate.{Channel, Gate, new_approval_gate, request, end_request, respond}

-- What the callers of the gate see.
pub data Event : Type 0 where
  asked expired refused : String → Event
  responded received : String → ApprovalResult → Event
  sent : Event

-- A channel takes a result only when it is empty.
pub data Step (g : Gate) : Event → Gate → Type 0 where
  ask : (id : String) → Step g (asked id) (request id g)
  look_up :
      (id : String) (r : ApprovalResult) (c : Channel)
      → get g.pending id ≡ some c
      → Step g (responded id r) (respond id r g).0
  refuse : (id : String) (r : ApprovalResult) → get g.pending id ≡ none → Step g (refused id) g
  send :
      (xs ys : List (Channel × ApprovalResult)) (c : Channel) (r : ApprovalResult)
      → g.sending ≡ xs ++ (c, r) ∷ ys
      → All (λ (m : Channel × ApprovalResult). m.0.number ≢ c.number) g.full
      → Step g sent (record g { sending = xs ++ ys; full = (c, r) ∷ g.full })
  receive :
      (us vs : List Channel) (xs ys : List (Channel × ApprovalResult)) (c : Channel)
      (r : ApprovalResult)
      → g.waiting ≡ us ++ c ∷ vs
      → g.full ≡ xs ++ (c, r) ∷ ys
      → Step g
          (received c.owner r)
          (end_request c (record g { waiting = us ++ vs; full = xs ++ ys }))
  time_out :
      (us vs : List Channel) (c : Channel)
      → g.waiting ≡ us ++ c ∷ vs
      → Step g (expired c.owner) (end_request c (record g { waiting = us ++ vs }))

-- What has happened, the latest first, and the gate after it.
pub data Reach : List Event → Gate → Type 0 where
  start : Reach [] new_approval_gate
  later :
      {t : List Event} {g : Gate} {e : Event} {g' : Gate}
      → Reach t g
      → Step g e g'
      → Reach (e ∷ t) g'
