-- ===== src/Gate/Steps/Blocking.antt =====
-- Responses that are never sent (internal/agent/approval.go).
use mathlib.Core.List.{Memᴰ}
use eclaire.Prelude.{◌≡◌, ◌≢◌, sym, ap, ◌⊎◌, inl, inr, ◌<◌, List, [], ◌∷◌, ◌++◌, arith, All}
use eclaire.Runtime.{ApprovalResult}
use eclaire.Gate.{Channel, Gate}
use eclaire.Gate.Steps.{Event, Step, ask, look_up, refuse, send, receive, time_out}

abbrev Message : Type 0
Message = Channel × ApprovalResult

-- The request of the channel has ended, the channel is full, and a response waits for room in it.
abbrev pub IsBlocked : Channel → ApprovalResult → ApprovalResult → Gate → Type 0
IsBlocked c r first g =
    Memᴰ (c, r) g.sending
    × Memᴰ (c, first) g.full
    × All (λ (w : Channel). w.number ≢ c.number) g.waiting
    × (c.number < g.next)

All-mem : (P : Message → Type 0) (m : Message) (ms : List Message) → All P ms → Memᴰ m ms → P m
All-mem P m [] h k = elim k [ ]
All-mem P m (x ∷ xs) h (Memᴰ.head e) = rw e h.0
All-mem P m (x ∷ xs) h (Memᴰ.tail k) = All-mem P m xs h.1 k

mem-split :
    (m : Message) (xs : List Message) (y : Message) (ys : List Message)
    → Memᴰ m (xs ++ y ∷ ys)
    → (m ≡ y) ⊎ Memᴰ m (xs ++ ys)
mem-split m [] y ys (Memᴰ.head e) = inl e
mem-split m [] y ys (Memᴰ.tail k) = inr k
mem-split m (x ∷ xs) y ys (Memᴰ.head e) = inr (Memᴰ.head e)
mem-split m (x ∷ xs) y ys (Memᴰ.tail k) = elim (mem-split m xs y ys k) [
  | inl e ↦ inl e
  | inr l ↦ inr (Memᴰ.tail l)
]

All-without :
    (P : Channel → Type 0) (xs : List Channel) (y : Channel) (ys : List Channel)
    → All P (xs ++ y ∷ ys)
    → P y × All P (xs ++ ys)
All-without P [] y ys h = h
All-without P (x ∷ xs) y ys h = let s = All-without P xs y ys h.1 in (s.0, (h.0, s.1))

-- A response to a request that has ended, whose channel already holds another response, stays blocked
-- whatever happens next.
pub step-IsBlocked :
    (c : Channel) (r first : ApprovalResult) (g : Gate) {e : Event} {g' : Gate}
    → Step g e g'
    → IsBlocked c r first g
    → IsBlocked c r first g'
step-IsBlocked c r first g (ask id) h =
    (h.0, h.1, ((λ e. omega (arith, e, h.3)), h.2), omega (arith, h.3))
step-IsBlocked c r first g (look_up id s d found) h = rw found (Memᴰ.tail h.0, h.1, h.2, h.3)
step-IsBlocked c r first g (refuse id s gone) h = h
step-IsBlocked c r first g (send xs ys d s split room) h = (
  elim (mem-split (c, r) xs (d, s) ys (rw split at h.0)) [
    | inl e ↦ absurd (
        All-mem (λ (m : Message). m.0.number ≢ d.number) (c, first) g.full room h.1
          (ap (λ (m : Message). m.0.number) e))
    | inr k ↦ k
  ],
  Memᴰ.tail h.1,
  h.2,
  h.3,
)
step-IsBlocked c r first g (receive us vs xs ys d s waits lies) h =
    let w = All-without (λ (w : Channel). w.number ≢ c.number) us d vs (rw waits at h.2) in
    (
      h.0,
      elim (mem-split (c, first) xs (d, s) ys (rw lies at h.1)) [
        | inl e ↦ absurd (w.0 (sym (ap (λ (m : Message). m.0.number) e)))
        | inr k ↦ k
      ],
      w.1,
      h.3,
    )
step-IsBlocked c r first g (time_out us vs d waits) h =
    let w = All-without (λ (w : Channel). w.number ≢ c.number) us d vs (rw waits at h.2) in
    (h.0, h.1, w.1, h.3)
