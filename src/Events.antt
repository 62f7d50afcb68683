-- ===== src/Events.antt =====
-- The system event queue of each session (internal/agent/sysevents.go). The mutex makes each
-- method one step; the clock is an argument. Texts are lists of code points.
pub mod Laws
use eclaire.Prelude.{
  ℕ, Bool, true, false, not, ◌||◌, Option, none, some, List, [], ◌∷◌, ◌++◌, String, if◌then◌else◌,
  keep_last,
}
use eclaire.Prelude.Times.{Time}
use eclaire.Prelude.Text.{Chars, same, null, trim_space}
use eclaire.Prelude.Dict.{Dict, get, put, remove}

abbrev pub max_events_per_session : ℕ
max_events_per_session = 20

pub record SystemEvent : Type 0 where
  pub text : Chars
  pub timestamp : Time
  pub source : String
  pub context_key : String

pub record SessionQueue : Type 0 where
  pub events : List SystemEvent
  pub last_text : Chars

pub record SystemEventQueue : Type 0 where
  pub queues : Dict SessionQueue

abbrev pub new_system_event_queue : SystemEventQueue
new_system_event_queue = record { queues = [] }

abbrev pub fresh_queue : Option SessionQueue → SessionQueue
fresh_queue none = record { events = []; last_text = [] }
fresh_queue (some sq) = sq

-- The part of `Enqueue` that works on the session's own queue.
unfoldable pub enqueue_event : SystemEvent → SessionQueue → SessionQueue × Bool
enqueue_event e sq = if same sq.last_text e.text then (sq, false) else (
  record { events = keep_last max_events_per_session (sq.events ++ e ∷ []); last_text = e.text },
  true,
)

store_queue : String → SystemEventQueue → SessionQueue × Bool → SystemEventQueue × Bool
store_queue key q (sq, added) = (record { queues = put q.queues key sq }, added)

unfoldable pub enqueue :
    String → Chars → String → String → Time → SystemEventQueue → SystemEventQueue × Bool
unfolding store_queue
enqueue key text source context_key now q =
    let e : SystemEvent = record {
      text = trim_space text;
      timestamp = now;
      source = source;
      context_key = context_key;
    } in
    if null e.text
    then (q, false)
    else store_queue key q (enqueue_event e (fresh_queue (get q.queues key)))

abbrev pub has_any : List SystemEvent → Bool
has_any [] = false
has_any (_ ∷ _) = true

drain_found : String → SystemEventQueue → Option SessionQueue → SystemEventQueue × List SystemEvent
drain_found key q none = (q, [])
drain_found key q (some sq) =
    if has_any sq.events then (record { queues = remove q.queues key }, sq.events) else (q, [])

unfoldable pub drain : String → SystemEventQueue → SystemEventQueue × List SystemEvent
unfolding drain_found
drain key q = drain_found key q (get q.queues key)

unfoldable pub peek : String → SystemEventQueue → List SystemEvent
peek key q = (fresh_queue (get q.queues key)).events

unfoldable pub has_events : String → SystemEventQueue → Bool
has_events key q = has_any (fresh_queue (get q.queues key)).events
