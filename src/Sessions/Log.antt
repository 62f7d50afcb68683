-- ===== src/Sessions/Log.antt =====
-- The event log of a session and the counters in its metadata (internal/persist/session.go).
use eclaire.Prelude.{
  ℕ, ◌+◌, ◌≡◌, ◌≢◌, refl, inl, inr, false, Option, none, some, List, [], ◌∷◌, ◌++◌, String, ◌==◌,
  eq_iff, arith, if◌then◌else◌, Bool-cases, Option-cases, length, length-append,
}
use mathlib.Core.Path.{subst}
use eclaire.Prelude.Times.{Time}
use eclaire.Prelude.Dict.{get, put, get-put}
use eclaire.Sessions.{
  Session, SessionEvent, EventData, SessionStore, append, read_events, counted, event_step_finish,
  get_meta,
}

-- The tokens of the finished steps of a log.
pub sum_steps : (EventData → ℕ) → List SessionEvent → ℕ
sum_steps tokens [] = 0
sum_steps tokens (e ∷ es) =
    (if e.type == event_step_finish then tokens e.payload else 0) + sum_steps tokens es

sum_steps-append :
    (tokens : EventData → ℕ) (es : List SessionEvent) (e : SessionEvent)
    → sum_steps tokens (es ++ e ∷ [])
      ≡ sum_steps tokens es + (if e.type == event_step_finish then tokens e.payload else 0)
unfolding sum_steps
sum_steps-append tokens [] e = omega arith
sum_steps-append tokens (x ∷ es) e = omega (arith, sum_steps-append tokens es e)

-- The counters of a session agree with its log.
pub record IsCounted (x : Session) : Type 0 where
  pub messages : x.meta.message_count ≡ length x.events
  pub tokens_in : x.meta.tokens_in ≡ sum_steps (λ p. p.tokens_in) x.events
  pub tokens_out : x.meta.tokens_out ≡ sum_steps (λ p. p.tokens_out) x.events

abbrev pub IsCountedAt : Option Session → Type 0
IsCountedAt none = Unit
IsCountedAt (some x) = IsCounted x

counted-IsCounted :
    (type : String) (now : Time) (payload : EventData) (x : Session)
    → IsCounted x
    → IsCounted (record x {
      meta = counted type now payload x.meta;
      events =
          x.events ++ record { seq = now; timestamp = now; type = type; payload = payload } ∷ [];
    })
counted-IsCounted type now payload x h =
    let e : SessionEvent = record { seq = now; timestamp = now; type = type; payload = payload } in
    record {
      messages = ground (arith, h.messages, length-append x.events (e ∷ []));
      tokens_in = ground (arith, h.tokens_in, sum_steps-append (λ p. p.tokens_in) x.events e);
      tokens_out = ground (arith, h.tokens_out, sum_steps-append (λ p. p.tokens_out) x.events e);
    }

abbrev pub AppendOutcome :
    String → String → Time → EventData → SessionStore → Option SessionStore → Type 0
AppendOutcome id type now payload s none = get_meta id s ≡ none
AppendOutcome id type now payload s (some t) =
    (get_meta id s ≢ none)
    × ((k : String)
        → read_events k t ≡ (
            if id == k
            then read_events k s
              ++ record { seq = now; timestamp = now; type = type; payload = payload } ∷ []
            else read_events k s))
    × ((k : String) → (id == k) ≡ false → get_meta k t ≡ get_meta k s)

-- `Append` to a session that exists puts the event behind its log, keeps what was logged, and
-- leaves the log and the metadata of every other session; to a session that does not exist it is
-- an error.
pub append-outcome :
    (id type : String) (now : Time) (payload : EventData) (s : SessionStore)
    → AppendOutcome id type now payload s (append id type now payload s)
unfolding append get_meta read_events
append-outcome id type now payload s = elim (Option-cases (get s.sessions id)) [
  | inl absent ↦ rw (absent, absent) refl
  | inr (x, present) ↦
      let e : SessionEvent = record {
        seq = now;
        timestamp = now;
        type = type;
        payload = payload;
      } in
      let y : Session = record x {
        meta = counted type now payload x.meta;
        events = x.events ++ e ∷ [];
      } in
      rw present (
        (λ h. ground (arith, present, h)),
        (λ k. ground (arith, present, get-put s.sessions id k y, eq_iff id k)),
        (λ k h. ground (arith, h, get-put s.sessions id k y)),
      )
]

-- A store in which the counters of every session agree with its log.
abbrev pub AllCounted : SessionStore → Type 0
AllCounted s = (k : String) → IsCountedAt (get s.sessions k)

put-AllCounted :
    (s : SessionStore) (id : String) (x : Session)
    → IsCounted x
    → AllCounted s
    → (k : String) → IsCountedAt (get (put s.sessions id x) k)
put-AllCounted s id x hx h k = elim (Bool-cases (id == k)) [
  | inl same ↦ rw (get-put s.sessions id k x) (rw same hx)
  | inr other ↦ rw (get-put s.sessions id k x) (rw other (h k))
]

abbrev pub AppendKeeps : Option SessionStore → Type 0
AppendKeeps none = Unit
AppendKeeps (some t) = AllCounted t

-- In a store where the message count of every session is the number of its logged events and its
-- token counts are the sums over the logged `step_finish` events, an `Append` that succeeds keeps
-- this so.
pub append-AllCounted :
    (id type : String) (now : Time) (payload : EventData) (s : SessionStore)
    → AllCounted s
    → AppendKeeps (append id type now payload s)
unfolding append
append-AllCounted id type now payload s h = elim (Option-cases (get s.sessions id)) [
  | inl absent ↦ rw absent tt
  | inr (x, present) ↦ rw present (
      put-AllCounted s id _
        (counted-IsCounted type now payload x (subst IsCountedAt present (h id))) h)
]
