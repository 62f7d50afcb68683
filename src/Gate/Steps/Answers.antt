-- ===== src/Gate/Steps/Answers.antt =====
-- Each answer that a request receives was given to it (internal/agent/approval.go).
use mathlib.Core.List.{Memᴰ}
use eclaire.Prelude.{
  ◌≡◌, refl, ap, some, List, [], ◌∷◌, ◌++◌, String, ◌==◌, arith, All, All-imp, eq_iff, if-cases,
}
use eclaire.Prelude.Dict.{Dict, get, remove, All-put}
use eclaire.Runtime.{ApprovalResult}
use eclaire.Gate.{Channel, Gate, respond}
use eclaire.Gate.Steps.{
  Event, asked, expired, refused, responded, received, sent, Step, ask, look_up, refuse, send,
  receive, time_out, Reach, start, later,
}

abbrev Owns : String × Channel → Type 0
Owns (k, c) = c.owner ≡ k

abbrev Said : List Event → Channel × ApprovalResult → Type 0
Said t (c, r) = Memᴰ (responded c.owner r) t

abbrev IsSound : List Event → Gate → Type 0
IsSound t g = All Owns g.pending × All (Said t) g.sending × All (Said t) g.full

abbrev Fair : Event → List Event → Type 0
Fair (asked id) t = Unit
Fair (expired id) t = Unit
Fair (refused id) t = Unit
Fair (responded id r) t = Unit
Fair (received id r) t = Memᴰ (responded id r) t
Fair sent t = Unit

-- Each result that is received was given in a response to the same ID before.
abbrev pub Answered : List Event → Type 0
Answered [] = Unit
Answered (e ∷ t) = Fair e t × Answered t

owner_of :
    (d : Dict Channel) (k : String) (c : Channel) → All Owns d → get d k ≡ some c → c.owner ≡ k
unfolding get
owner_of [] k c h e = ground (arith, e)
owner_of ((j, v) ∷ d) k c h e = ground (arith, e, h, eq_iff j k, owner_of d k c h.1)

All-remove : (d : Dict Channel) (k : String) → All Owns d → All Owns (remove d k)
unfolding remove
All-remove [] k h = tt
All-remove ((j, v) ∷ d) k h =
    if-cases (All Owns) (j == k) _ _ (λ e. All-remove d k h.1) (λ e. (h.0, All-remove d k h.1))

All-split :
    {A : Type 0}
    → (P : A → Type 0) (xs : List A) (y : A) (ys : List A) → All P (xs ++ y ∷ ys)
    → P y × All P (xs ++ ys)
All-split P [] y ys h = h
All-split P (x ∷ xs) y ys h = let s = All-split P xs y ys h.1 in (s.0, (h.0, s.1))

Said-later :
    (e : Event) (t : List Event) (ms : List (Channel × ApprovalResult))
    → All (Said t) ms
    → All (Said (e ∷ t)) ms
Said-later e t ms h = All-imp (Said t) (Said (e ∷ t)) (λ m p. Memᴰ.tail p) ms h

looked_up :
    (t : List Event) (g : Gate) (id : String) (r : ApprovalResult) (c : Channel)
    → get g.pending id ≡ some c
    → IsSound t g
    → IsSound (responded id r ∷ t) (respond id r g).0
looked_up t g id r c found h = rw found (
  h.0,
  (
    Memᴰ.head (ap (λ k. responded k r) (owner_of g.pending id c h.0 found)),
    Said-later (responded id r) t g.sending h.1,
  ),
  Said-later (responded id r) t g.full h.2,
)

step-IsSound :
    (t : List Event) (g : Gate) {e : Event} {g' : Gate}
    → Step g e g'
    → IsSound t g
    → IsSound (e ∷ t) g' × Fair e t
step-IsSound t g (ask id) h = (
  (
    All-put Owns g.pending id (record { owner = id; number = g.next }) refl h.0,
    Said-later (asked id) t g.sending h.1,
    Said-later (asked id) t g.full h.2,
  ),
  tt,
)
step-IsSound t g (look_up id r c found) h = (looked_up t g id r c found h, tt)
step-IsSound t g (refuse id r gone) h =
    ((h.0, Said-later (refused id) t g.sending h.1, Said-later (refused id) t g.full h.2), tt)
step-IsSound t g (send xs ys c r split room) h =
    let s = All-split (Said t) xs (c, r) ys (rw split at h.1) in
    ((h.0, Said-later sent t (xs ++ ys) s.1, (Memᴰ.tail s.0, Said-later sent t g.full h.2)), tt)
step-IsSound t g (receive us vs xs ys c r waits lies) h =
    let s = All-split (Said t) xs (c, r) ys (rw lies at h.2) in
    (
      (
        All-remove g.pending c.owner h.0,
        Said-later (received c.owner r) t g.sending h.1,
        Said-later (received c.owner r) t (xs ++ ys) s.1,
      ),
      s.0,
    )
step-IsSound t g (time_out us vs c waits) h = (
  (
    All-remove g.pending c.owner h.0,
    Said-later (expired c.owner) t g.sending h.1,
    Said-later (expired c.owner) t g.full h.2,
  ),
  tt,
)

reach-IsSound : (t : List Event) (g : Gate) → Reach t g → IsSound t g × Answered t
reach-IsSound _ _ start = ((tt, tt, tt), tt)
reach-IsSound _ _ (later {t} {g} {e} {g'} before step) =
    let h = reach-IsSound t g before in let s = step-IsSound t g step h.0 in (s.0, (s.1, h.1))

-- In every order of steps, a request receives only results that a response to its ID gave before: an
-- approval of one request never answers another.
pub reach-Answered : (t : List Event) (g : Gate) → Reach t g → Answered t
reach-Answered t g h = (reach-IsSound t g h).1
