-- ===== src/Gate/Tests.antt =====
-- An approval, and two answers to one request (internal/agent/approval.go).
use mathlib.Core.List.{Memᴰ}
use eclaire.Prelude.{◌≡◌, refl, true, false, some, [], ◌∷◌, arith}
use eclaire.Prelude.Dict.{get, put}
use eclaire.Runtime.{ApprovalResult}
use eclaire.Gate.{Channel, Gate, new_approval_gate, request, respond, end_request}
use eclaire.Gate.Steps.{
  asked, responded, sent, received, ask, look_up, send, receive, Reach, start, later,
}
use eclaire.Gate.Steps.Answers.{Answered, reach-Answered}
use eclaire.Gate.Steps.Blocking.{IsBlocked, step-IsBlocked}

abbrev yes : ApprovalResult
yes = record { approved = true; persist = false; reason = "" }

abbrev channel : Channel
channel = record { owner = "a"; number = 0 }

abbrev asking : Gate
asking = request "a" new_approval_gate

found : get asking.pending "a" ≡ some channel
unfolding get put
found = refl

abbrev answering : Gate
answering = (respond "a" yes asking).0

abbrev full : Gate
full = record answering { sending = []; full = (channel, yes) ∷ [] }

abbrev approved : Gate
approved = end_request channel (record full { waiting = []; full = [] })

answers : Reach (responded "a" yes ∷ asked "a" ∷ []) answering
answers = later (later start (ask "a")) (look_up "a" yes channel found)

sending_one : answering.sending ≡ (channel, yes) ∷ []
unfolding get put
sending_one = refl

waiting_one : answering.waiting ≡ channel ∷ []
unfolding get put
waiting_one = refl

ends : Reach (received "a" yes ∷ sent ∷ responded "a" yes ∷ asked "a" ∷ []) approved
unfolding get put
ends =
    later (later answers (send [] [] channel yes sending_one tt))
      (receive [] [] [] [] channel yes waiting_one refl)

reach-Answered_example : Answered (received "a" yes ∷ sent ∷ responded "a" yes ∷ asked "a" ∷ [])
reach-Answered_example =
    reach-Answered (received "a" yes ∷ sent ∷ responded "a" yes ∷ asked "a" ∷ []) approved ends

-- The request has ended, with one answer in its channel and one on its way there.
abbrev left : Gate
left = record new_approval_gate {
  sending = (channel, yes) ∷ [];
  full = (channel, yes) ∷ [];
  next = 1;
}

left-IsBlocked : IsBlocked channel yes yes left
left-IsBlocked = (Memᴰ.head refl, Memᴰ.head refl, tt, omega arith)

step-IsBlocked_example : IsBlocked channel yes yes (request "b" left)
step-IsBlocked_example = step-IsBlocked channel yes yes left (ask "b") left-IsBlocked
