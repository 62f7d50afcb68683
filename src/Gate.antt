-- ===== src/Gate.antt =====
-- The gate that asks a human for approval (internal/agent/approval.go). A channel holds one result; it
-- is named by the ID of its request and a number, so that two requests never share one. `Request` and
-- `Respond` are split where they may be interrupted: a request waits between its start and its end,
-- and a response that has found its channel sends when there is room.
pub mod Steps
mod Tests
use eclaire.Prelude.{ℕ, suc, Bool, true, false, Option, none, some, List, [], ◌∷◌, String, length}
use eclaire.Prelude.Dict.{Dict, get, put, remove}
use eclaire.Runtime.{ApprovalResult}

pub record Channel : Type 0 where
  pub owner : String
  pub number : ℕ

-- `pending` is the map of the gate; `waiting` are the requests that are blocked, `full` the results that
-- lie in a channel, and `sending` the responses that have found their channel.
pub record Gate : Type 0 where
  pub pending : Dict Channel
  pub waiting : List Channel
  pub sending : List (Channel × ApprovalResult)
  pub full : List (Channel × ApprovalResult)
  pub next : ℕ

abbrev pub new_approval_gate : Gate
new_approval_gate = record { pending = []; waiting = []; sending = []; full = []; next = 0 }

-- The start of `Request`; `id` is the first part of a fresh UUID.
abbrev pub request : String → Gate → Gate
request id g =
    let c : Channel = record { owner = id; number = g.next } in
    record g { pending = put g.pending id c; waiting = c ∷ g.waiting; next = suc g.next }

-- The deferred end of `Request`.
abbrev pub end_request : Channel → Gate → Gate
end_request c g = record g { pending = remove g.pending c.owner }

abbrev pub after_lookup : ApprovalResult → Option Channel → Gate → Gate × Bool
after_lookup r none g = (g, false)
after_lookup r (some c) g = (record g { sending = (c, r) ∷ g.sending }, true)

-- `Respond` up to its send; false is the error that no request with this ID is pending.
abbrev pub respond : String → ApprovalResult → Gate → Gate × Bool
respond id r g = after_lookup r (get g.pending id) g

unfoldable pub pending_count : Gate → ℕ
pending_count g = length g.pending
