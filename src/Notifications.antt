-- ===== src/Notifications.antt =====
-- The notification store (internal/agent/notifications.go). `entries` is the cache, oldest first;
-- `file` is what the lines of the JSONL file decode to. Whether the file can be written is an
-- argument (`saved`), as are the clock and a fresh identifier. Each method holds the mutex.
pub mod Listing
pub mod Resolution
use eclaire.Prelude.{
  ℕ, suc, ◌+◌, Bool, true, false, not, ◌&&◌, ◌||◌, Option, none, some, List, [], ◌∷◌, ◌++◌, String,
  ◌==◌, ltb, leb, if◌then◌else◌, reverse, map, keep_last, length,
}
use eclaire.Prelude.Times.{Time, is_zero}

abbrev pub severity_warning : String
severity_warning = "warning"

pub record Notification : Type 0 where
  pub id : String
  pub severity : String
  pub source : String
  pub title : String
  pub content : String
  pub agent_id : String
  pub job_id : String
  pub ref_id : String
  pub actions : List String
  pub created_at : Time
  pub read : Bool
  pub resolved : Bool

unfoldable pub actions_for_source : String → List String
actions_for_source source =
    if source == "reminder"
    then "complete" ∷ "dismiss" ∷ "snooze" ∷ []
    else if source == "approval"
    then "yes" ∷ "always" ∷ "no" ∷ []
    else "dismiss" ∷ []

-- A limit of 0, or below, is no limit.
pub record NotificationFilter : Type 0 where
  pub severity : String
  pub source : String
  pub unread_only : Bool
  pub limit : ℕ

pub record NotificationStore : Type 0 where
  pub entries : List Notification
  pub file : List Notification

abbrev pub max_entries : ℕ
max_entries = 1000

abbrev pub or_actions : List String → String → List String
or_actions [] source = actions_for_source source
or_actions (a ∷ as') source = a ∷ as'

-- The fields that `Add` fills in.
unfoldable pub completed : String → Time → Notification → Notification
completed fresh now n = record n {
  id = if n.id == "" then fresh else n.id;
  created_at = if is_zero n.created_at then now else n.created_at;
  actions = or_actions n.actions n.source;
}

-- The result is whether the line was written.
unfoldable pub add :
    String → Time → Bool → Notification → NotificationStore → NotificationStore × Bool
add fresh now saved n s =
    let n' = completed fresh now n in
    (
      record {
        entries = keep_last max_entries (s.entries ++ n' ∷ []);
        file = if saved then s.file ++ n' ∷ [] else s.file;
      },
      saved,
    )

-- The whole cache replaces the file, if it can be written.
abbrev pub rewrite : Bool → List Notification → NotificationStore → NotificationStore
rewrite saved entries s = record { entries = entries; file = if saved then entries else s.file }

abbrev pub mark_read_entry : Notification → Notification
mark_read_entry n = record n { read = true }

abbrev pub resolve_entry : Notification → Notification
resolve_entry n = record n { resolved = true; read = true }

-- The loop of `Drain`, which runs from the newest entry to the oldest: what it collects, and the
-- entries that it leaves.
drain_loop : List Notification → List Notification × List Notification
drain_loop [] = ([], [])
drain_loop (n ∷ ns) =
    let (pending, left) = drain_loop ns in
    if n.read then (pending, n ∷ left) else (pending ++ n ∷ [], mark_read_entry n ∷ left)

abbrev pub any {ℓ} : {A : Type ℓ} → List A → Bool
any [] = false
any (_ ∷ _) = true

unfoldable pub drain : Bool → NotificationStore → NotificationStore × List Notification
unfolding drain_loop
drain saved s =
    let (pending, left) = drain_loop s.entries in
    (if any pending then rewrite saved left s else record s { entries = left }, pending)

-- The tests that make the loop of `List` skip an entry.
unfoldable pub skips : NotificationFilter → Notification → Bool
skips f n =
    (f.unread_only && (n.read || n.resolved))
    || ((not (f.severity == "") && not (n.severity == f.severity))
        || (not (f.source == "") && not (n.source == f.source)))

-- The loop of `List` over the entries, newest first, when `found` of them have been collected.
list_loop : NotificationFilter → ℕ → List Notification → List Notification
list_loop f found [] = []
list_loop f found (n ∷ ns) =
    let skipped = list_loop f found ns in
    let more = list_loop f (suc found) ns in
    if skips f n
    then skipped
    else n ∷ (if ltb 0 f.limit && leb f.limit (suc found) then [] else more)

unfoldable pub list : NotificationFilter → NotificationStore → List Notification
unfolding list_loop
list f s = list_loop f 0 (reverse s.entries)

unfoldable pub pending : NotificationStore → List Notification
pending s = list (record { severity = ""; source = ""; unread_only = true; limit = 0 }) s

find : String → List Notification → Option Notification
find id [] = none
find id (n ∷ ns) = if n.id == id then some n else find id ns

unfoldable pub get : String → NotificationStore → Option Notification
unfolding find
get id s = find id s.entries

-- The first entry with the ID, changed; `none` if there is none.
change_first :
    (Notification → Notification) → String → List Notification → Option (List Notification)
change_first fn id [] = none
change_first fn id (n ∷ ns) =
    if n.id == id
    then some (fn n ∷ ns)
    else elim (change_first fn id ns) [ none ↦ none | some left ↦ some (n ∷ left) ]

change_saved : Bool → NotificationStore → Option (List Notification) → NotificationStore × Bool
change_saved saved s none = (s, false)
change_saved saved s (some left) = (rewrite saved left s, true)

unfoldable pub resolve : Bool → String → NotificationStore → NotificationStore × Bool
unfolding change_first change_saved
resolve saved id s = change_saved saved s (change_first resolve_entry id s.entries)

unfoldable pub mark_read : Bool → String → NotificationStore → NotificationStore × Bool
unfolding change_first change_saved
mark_read saved id s = change_saved saved s (change_first mark_read_entry id s.entries)

count_unread : List Notification → ℕ
count_unread [] = 0
count_unread (n ∷ ns) = if n.read then count_unread ns else suc (count_unread ns)

unfoldable pub mark_all_read : Bool → NotificationStore → NotificationStore × ℕ
unfolding count_unread
mark_all_read saved s =
    let unread = count_unread s.entries in
    let left = map mark_read_entry s.entries in
    (if ltb 0 unread then rewrite saved left s else record s { entries = left }, unread)

unfoldable pub count : NotificationStore → ℕ × ℕ
unfolding count_unread
count s = (length s.entries, count_unread s.entries)

abbrev backfilled : Notification → Notification
backfilled n = record n { actions = or_actions n.actions n.source }

-- Loading keeps the last 1000 lines, with the actions filled in where a line has none.
unfoldable pub load : List Notification → NotificationStore
load file = record { entries = keep_last max_entries (map backfilled file); file = file }
