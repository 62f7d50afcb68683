-- ===== src/Events/Laws.antt =====
-- What the event queues (internal/agent/sysevents.go) keep, drop and return.
use eclaire.Prelude.{
  ◌≡◌, refl, sym, ap, ◌∙◌, inl, inr, true, false, none, List, [], ◌∷◌, ◌++◌, String, ◌&&◌, ◌==◌,
  eq_iff, arith, if◌then◌else◌, Bool-cases, keep_last, keep_last-snoc, keep_last-keep_last,
}
use mathlib.Core.List.{append-nil, append_assoc}
use eclaire.Prelude.Text.{Chars, same, null, trim_space}
use eclaire.Prelude.Times.{Time}
use eclaire.Prelude.Dict.{get, put, get-put, get-remove}
use eclaire.Events.{
  SystemEvent, SessionQueue, SystemEventQueue, max_events_per_session, fresh_queue, enqueue_event,
  enqueue, drain, peek, has_events,
}

-- Events one after another, as `Enqueue` takes them into one queue.
pub enqueue_all : List SystemEvent → SessionQueue → SessionQueue
enqueue_all [] sq = sq
enqueue_all (e ∷ es) sq = enqueue_all es (enqueue_event e sq).0

-- The events that are not the repetition of the text before them.
unfoldable pub without_repeats : Chars → List SystemEvent → List SystemEvent
without_repeats last [] = []
without_repeats last (e ∷ es) =
    let rest = without_repeats last es in
    let kept = e ∷ without_repeats e.text es in if same last e.text then rest else kept

-- A queue that holds the last events of a history, and the text of its last one.
abbrev queue_of : List SystemEvent → Chars → SessionQueue
queue_of history last = record {
  events = keep_last max_events_per_session history;
  last_text = last;
}

keep_20 :
    (history : List SystemEvent) (e : SystemEvent)
    → keep_last 20 (keep_last 20 history ++ e ∷ []) ≡ keep_last 20 (history ++ e ∷ [])
keep_20 history e =
    keep_last-snoc 19 (keep_last 20 history) e
    ∙ ap (λ (es : List SystemEvent). es ++ e ∷ []) (keep_last-keep_last 19 history)
    ∙ sym (keep_last-snoc 19 history e)

enqueue_new :
    (e : SystemEvent) (history : List SystemEvent) (last : Chars)
    → same last e.text ≡ false
    → (enqueue_event e (queue_of history last)).0 ≡ queue_of (history ++ e ∷ []) e.text
unfolding enqueue_event
enqueue_new e history last new =
    rw new (
      ap (λ (es : List SystemEvent). record { events = es; last_text = e.text })
        (keep_20 history e))

enqueue_again :
    (e : SystemEvent) (sq : SessionQueue)
    → same sq.last_text e.text ≡ true
    → enqueue_event e sq ≡ (sq, false)
unfolding enqueue_event
enqueue_again e sq again = rw again refl

enqueue_all-from :
    (es history : List SystemEvent) (last : Chars)
    → (enqueue_all es (queue_of history last)).events
      ≡ keep_last max_events_per_session (history ++ without_repeats last es)
unfolding enqueue_all without_repeats
enqueue_all-from [] history last = rw append-nil refl
enqueue_all-from (e ∷ es) history last = elim (Bool-cases (same last e.text)) [
  | inl again ↦ ground (
    arith,
    again,
    enqueue_again e (queue_of history last) again,
    enqueue_all-from es history last,
  )
  | inr new ↦ ground (
    arith,
    new,
    enqueue_new e history last new,
    enqueue_all-from es (history ++ e ∷ []) e.text,
    append_assoc history (e ∷ []) (without_repeats e.text es),
  )
]

-- After any events the queue of a session holds the last 20 of them, not counting those that
-- repeat the text of the event before them, in their order.
pub enqueue_all-keep_last :
    (es : List SystemEvent)
    → (enqueue_all es (fresh_queue none)).events
      ≡ keep_last max_events_per_session (without_repeats [] es)
unfolding keep_last
enqueue_all-keep_last es = enqueue_all-from es [] []

-- What a session's queue holds: the queue as `Enqueue` finds it.
abbrev queue_at : String → SystemEventQueue → SessionQueue
queue_at key q = fresh_queue (get q.queues key)

-- `Enqueue` ignores a text that is blank; it puts any other event, its text trimmed, to the queue
-- of its own session and to no other one, and says whether the event was added.
pub enqueue-outcome :
    (key : String) (text : Chars) (source context_key : String) (now : Time) (q : SystemEventQueue)
    (k : String)
    → let e : SystemEvent = record {
      text = trim_space text;
      timestamp = now;
      source = source;
      context_key = context_key;
    } in
      let (q', added) = enqueue key text source context_key now q in
      (queue_at k q' ≡ (
        if null e.text
        then queue_at k q
        else if key == k
        then (enqueue_event e (queue_at key q)).0
        else queue_at k q))
      × (added ≡ (if null e.text then false else (enqueue_event e (queue_at key q)).1))
unfolding enqueue
enqueue-outcome key text source context_key now q k = elim (Bool-cases (null (trim_space text))) [
  | inl blank ↦ rw blank (refl, refl)
  | inr full ↦ rw full (put_queue (enqueue_event _ (queue_at key q)).0, refl)
]
  where
    put_queue :
        (sq : SessionQueue)
        → fresh_queue (get (put q.queues key sq) k) ≡ (if key == k then sq else queue_at k q)
    put_queue sq = ground (arith, get-put q.queues key k sq)

-- `Drain` returns what `Peek` shows, and then the session has no events; a session that had some
-- has also forgotten the text of the last one, and the other sessions are as they were.
pub drain-outcome :
    (key : String) (q : SystemEventQueue) (k : String)
    → let (q', events) = drain key q in
      (events ≡ peek key q)
      × (peek key q' ≡ [])
      × (queue_at k q' ≡ (if key == k && has_events key q then fresh_queue none else queue_at k q))
unfolding drain peek has_events
drain-outcome key q k =
    ground
      (arith, get-remove q.queues key k, get-remove q.queues key key, eq_iff key k, eq_iff key key)
