-- ===== src/Sessions.antt =====
-- The session store (internal/persist/session.go). A session is a directory with a `meta.json`, which
-- names its directory, and an `events.jsonl`; `sessions` maps the directories' names to what they
-- hold, in the order of `os.ReadDir`, and `archived` holds the directories moved under `archive`. That
-- a file which is there can be read and written is assumed. Token counts and sizes are unbounded. The
-- clock and a fresh identifier are arguments.
pub mod Log
pub mod Lifecycle
pub mod Reaping
mod Tests
use eclaire.Prelude.{
  ℕ, ◌+◌, ◌-◌, Bool, true, false, not, ◌&&◌, ◌||◌, Option, none, some, List, [], ◌∷◌, ◌++◌, String,
  ◌==◌, if◌then◌else◌, select,
}
use eclaire.Prelude.Times.{Time, after}
use eclaire.Prelude.Dict.{Dict, get, put, remove, values}
use eclaire.Prelude.Sorting.{sort_by}

pub record SessionMeta : Type 0 where
  pub id : String
  pub parent_id : String
  pub root_id : String
  pub agent_id : String
  pub title : String
  pub status : String
  pub kind : String
  pub project_root : String
  pub created_at : Time
  pub updated_at : Time
  pub message_count : ℕ
  pub tokens_in : ℕ
  pub tokens_out : ℕ
  pub child_ids : List String
  pub approval_patterns : Dict (List String)

-- The payload of an event: its JSON text, and what `StepData` reads from it (0 where it has no
-- such field).
pub record EventData : Type 0 where
  pub raw : String
  pub tokens_in : ℕ
  pub tokens_out : ℕ

pub record SessionEvent : Type 0 where
  pub seq : Time
  pub timestamp : Time
  pub type : String
  pub payload : EventData

abbrev pub event_step_finish : String
event_step_finish = "step_finish"

pub record Session : Type 0 where
  pub meta : SessionMeta
  pub events : List SessionEvent

pub record SessionStore : Type 0 where
  pub sessions : Dict Session
  pub archived : List Session

abbrev meta_of : Option Session → Option SessionMeta
meta_of none = none
meta_of (some x) = some x.meta

unfoldable pub get_meta : String → SessionStore → Option SessionMeta
get_meta id s = meta_of (get s.sessions id)

-- `MkdirAll`, `saveMeta` and `os.Create` of the events: a new directory, or one emptied.
abbrev pub place : SessionMeta → SessionStore → SessionStore
place meta s = record s { sessions = put s.sessions meta.id (record { meta = meta; events = [] }) }

-- `GetMeta`, a change and `saveMeta`; nothing where the session is not there.
change_found : String → (SessionMeta → SessionMeta) → Option Session → SessionStore → SessionStore
change_found id fn none s = s
change_found id fn (some x) s = record s {
  sessions = put s.sessions id (record x { meta = fn x.meta });
}

unfoldable pub change_meta : String → (SessionMeta → SessionMeta) → SessionStore → SessionStore
unfolding change_found
change_meta id fn s = change_found id fn (get s.sessions id) s

abbrev pub with_child : String → Time → SessionMeta → SessionMeta
with_child child now m = record m { child_ids = m.child_ids ++ child ∷ []; updated_at = now }

add_child : String → String → Time → SessionStore → SessionStore
unfolding change_meta
add_child parent child now s = change_meta parent (with_child child now) s

-- The root that a session takes from its parent.
abbrev root_through : String → Option SessionMeta → String
root_through parent none = parent
root_through parent (some p) = if p.root_id == "" then parent else p.root_id

abbrev pub root_for : String → String → SessionStore → String
root_for id parent s = if parent == "" then id else root_through parent (get_meta parent s)

abbrev pub new_meta : String → String → String → String → String → Time → SessionMeta
new_meta id parent root agent title now = record {
  id = id;
  parent_id = parent;
  root_id = root;
  agent_id = agent;
  title = title;
  status = "active";
  kind = "";
  project_root = "";
  created_at = now;
  updated_at = now;
  message_count = 0;
  tokens_in = 0;
  tokens_out = 0;
  child_ids = [];
  approval_patterns = [];
}

unfoldable pub create :
    String → Time → String → String → String → SessionStore → SessionStore × SessionMeta
unfolding add_child
create id now agent title parent s =
    let meta = new_meta id parent (root_for id parent s) agent title now in
    let t = place meta s in (if parent == "" then t else add_child parent id now t, meta)

abbrev pub main_session_id : String
main_session_id = "main"

abbrev pub main_meta : String → Time → SessionMeta
main_meta agent now = record (new_meta main_session_id "" "" agent "Main Session" now) {
  kind = "main";
}

main_found : String → Time → Option SessionMeta → SessionStore → SessionStore × SessionMeta
main_found agent now (some meta) s = (s, meta)
main_found agent now none s = (place (main_meta agent now) s, main_meta agent now)

unfoldable pub get_or_create_main : String → Time → SessionStore → SessionStore × SessionMeta
unfolding main_found
get_or_create_main agent now s = main_found agent now (get_meta main_session_id s) s

abbrev pub is_project_session : String → SessionMeta → Bool
is_project_session root m = m.kind == "project" && (m.project_root == root && m.status == "active")

first_project : String → List Session → Option SessionMeta
first_project root [] = none
first_project root (x ∷ xs) =
    if is_project_session root x.meta then some x.meta else first_project root xs

unfoldable pub find_by_project : String → SessionStore → Option SessionMeta
unfolding first_project
find_by_project root s = first_project root (values s.sessions)

-- The title is `filepath.Base(projectRoot)`, which is an argument.
abbrev pub project_meta : String → Time → String → String → String → SessionMeta
project_meta id now agent root title = record (new_meta id "" "" agent title now) {
  kind = "project";
  project_root = root;
}

project_found : SessionMeta → Option SessionMeta → SessionStore → SessionStore × SessionMeta
project_found meta (some existing) s = (s, existing)
project_found meta none s = (place meta s, meta)

unfoldable pub create_project :
    String → Time → String → String → String → SessionStore → SessionStore × SessionMeta
unfolding project_found
create_project id now agent root title s =
    project_found (project_meta id now agent root title) (find_by_project root s) s

unfoldable pub save_patterns : String → Dict (List String) → SessionStore → SessionStore
unfolding change_meta
save_patterns id patterns s = change_meta id (λ m. record m { approval_patterns = patterns }) s

-- What `Append` changes in the metadata.
abbrev pub counted : String → Time → EventData → SessionMeta → SessionMeta
counted type now payload m =
    let n = record m { message_count = m.message_count + 1; updated_at = now } in
    if type == event_step_finish
    then record n {
      tokens_in = m.tokens_in + payload.tokens_in;
      tokens_out = m.tokens_out + payload.tokens_out;
    }
    else n

-- An event of a session whose directory is missing is refused, and `none` is returned.
append_found :
    String → String → Time → EventData → Option Session → SessionStore → Option SessionStore
append_found id type now payload none s = none
append_found id type now payload (some x) s =
    let e : SessionEvent = record { seq = now; timestamp = now; type = type; payload = payload } in
    let y = record x { meta = counted type now payload x.meta; events = x.events ++ e ∷ [] } in
    some (record s { sessions = put s.sessions id y })

unfoldable pub append : String → String → Time → EventData → SessionStore → Option SessionStore
unfolding append_found
append id type now payload s = append_found id type now payload (get s.sessions id) s

abbrev events_of : Option Session → List SessionEvent
events_of none = []
events_of (some x) = x.events

unfoldable pub read_events : String → SessionStore → List SessionEvent
read_events id s = events_of (get s.sessions id)

abbrev metas : Dict Session → List SessionMeta
metas [] = []
metas ((name, x) ∷ d) = if name == "archive" then metas d else x.meta ∷ metas d

unfoldable pub list : SessionStore → List SessionMeta
list s = sort_by (λ a b. after a.updated_at b.updated_at) (metas s.sessions)

unfoldable pub update_status : String → String → Time → SessionStore → SessionStore
unfolding change_meta
update_status id status now s =
    change_meta id (λ m. record m { status = status; updated_at = now }) s

unfoldable pub update_title : String → String → Time → SessionStore → SessionStore
unfolding change_meta
update_title id title now s = change_meta id (λ m. record m { title = title; updated_at = now }) s

unfoldable pub delete : String → SessionStore → SessionStore
delete id s = record s { sessions = remove s.sessions id }

archive_found : String → Option Session → SessionStore → Option SessionStore
archive_found id none s = none
archive_found id (some x) s =
    some (record { sessions = remove s.sessions id; archived = s.archived ++ x ∷ [] })

-- `none` is the error of the rename where there is no such directory.
unfoldable pub archive : String → SessionStore → Option SessionStore
unfolding archive_found
archive id s = archive_found id (get s.sessions id) s
