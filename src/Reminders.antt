-- ===== src/Reminders.antt =====
-- The reminder store and the handlers of the reminder tool (internal/tool/reminder.go). The file
-- is missing, unreadable, or holds reminders; whether it can be written is an argument (`saved`),
-- and so are the clock, a fresh identifier and the results of `parseDue` and `parseDuration`
-- (`none` is their error).
pub mod Firing
pub mod Handlers
mod Tests
use eclaire.Prelude.{
  ℕ, ◌+◌, ◌*◌, Bool, true, false, not, ◌&&◌, ◌||◌, Option, none, some, List, [], ◌∷◌, ◌++◌, String,
  ◌==◌, if◌then◌else◌, select,
}
use eclaire.Prelude.Times.{Time, Duration, add, before, day}
use eclaire.Prelude.Sorting.{sort_by}

pub record Reminder : Type 0 where
  pub id : String
  pub text : String
  pub due_at : Time
  pub recurrence : String
  pub completed : Bool
  pub created_at : Time

pub data ReminderFile : Type 0 where
  missing unreadable : ReminderFile
  holds : List Reminder → ReminderFile

-- `none` is the error of an unreadable file.
unfoldable pub load : ReminderFile → Option (List Reminder)
load missing = some []
load unreadable = none
load (holds rs) = some rs

unfoldable pub save : Bool → List Reminder → ReminderFile → ReminderFile
save saved rs file = if saved then holds rs else file

unfoldable pub advance_recurrence : Time → String → Time
advance_recurrence current recurrence =
    if recurrence == "daily"
    then current + day
    else if recurrence == "weekly"
    then current + 7 * day
    else current + day

abbrev pub is_pending : Reminder → Bool
is_pending r = not r.completed

abbrev pending_of : Option (List Reminder) → Option (List Reminder)
pending_of none = none
pending_of (some rs) = some (sort_by (λ a b. before a.due_at b.due_at) (select is_pending rs))

unfoldable pub pending : ReminderFile → Option (List Reminder)
pending file = pending_of (load file)

-- The tests of the loop of `FireOverdue`.
unfoldable pub is_overdue : Time → Reminder → Bool
is_overdue now r = not r.completed && before r.due_at now

-- What the loop makes of a reminder that fires.
unfoldable pub fire_one : Reminder → Reminder
fire_one r =
    if r.recurrence == ""
    then record r { completed = true }
    else record r { due_at = advance_recurrence r.due_at r.recurrence }

fire_loop : Time → List Reminder → List Reminder
fire_loop now [] = []
fire_loop now (r ∷ rs) = (if is_overdue now r then fire_one r else r) ∷ fire_loop now rs

abbrev any : List Reminder → Bool
any [] = false
any (_ ∷ _) = true

-- The reminders that fired, and whether there was an error.
pub record Fired : Type 0 where
  pub fired : List Reminder
  pub error : Bool

fire_loaded : Bool → Time → Option (List Reminder) → ReminderFile → ReminderFile × Fired
unfolding fire_loop save
fire_loaded saved now none file = (file, record { fired = []; error = true })
fire_loaded saved now (some rs) file =
    let fired = select (is_overdue now) rs in
    if any fired
    then (save saved (fire_loop now rs) file, record { fired = fired; error = not saved })
    else (file, record { fired = []; error = false })

unfoldable pub fire_overdue : Bool → Time → ReminderFile → ReminderFile × Fired
unfolding fire_loaded
fire_overdue saved now file = fire_loaded saved now (load file) file

abbrev overdue_of : Time → Option (List Reminder) → Option (List Reminder)
overdue_of now none = none
overdue_of now (some rs) = some (select (λ r. before r.due_at now) rs)

unfoldable pub overdue : Time → ReminderFile → Option (List Reminder)
overdue now file = overdue_of now (pending file)

-- The answers of the handlers.
pub data Response : Type 0 where
  text_required due_required id_required duration_required : Response
  invalid_due invalid_duration load_error save_error not_found : Response
  added advanced marked_done : Response
  snoozed : Time → Response

abbrev or_empty : Option (List Reminder) → List Reminder
or_empty none = []
or_empty (some rs) = rs

-- The error of `Load` is ignored.
unfoldable pub handle_add :
    Bool
    → String
    → Time
    → String
    → String
    → String
    → Option Time
    → ReminderFile
    → ReminderFile × Response
unfolding save
handle_add saved fresh now text due recurrence parsed file =
    if text == ""
    then (file, text_required)
    else if due == ""
    then (file, due_required)
    else elim parsed [
      | none ↦ (file, invalid_due)
      | some t ↦
          let r : Reminder = record {
            id = fresh;
            text = text;
            due_at = t;
            recurrence = recurrence;
            completed = false;
            created_at = now;
          } in
          (save saved (or_empty (load file) ++ r ∷ []) file, if saved then added else save_error)
    ]

-- The first reminder with the ID is marked as done, or moved on if it recurs.
abbrev finish_one : Reminder → Reminder × Response
finish_one r =
    if r.recurrence == ""
    then (record r { completed = true }, marked_done)
    else (record r { due_at = advance_recurrence r.due_at r.recurrence }, advanced)

change_first :
    (Reminder → Reminder × Response) → String → List Reminder → Option (List Reminder × Response)
change_first fn id [] = none
change_first fn id (r ∷ rs) =
    if r.id == id
    then (let (r', a) = fn r in some (r' ∷ rs, a))
    else elim (change_first fn id rs) [ none ↦ none | some (left, a) ↦ some (r ∷ left, a) ]

change_saved : Bool → ReminderFile → Option (List Reminder × Response) → ReminderFile × Response
unfolding save
change_saved saved file none = (file, not_found)
change_saved saved file (some (left, a)) = (save saved left file, if saved then a else save_error)

change_loaded :
    Bool
    → (Reminder → Reminder × Response)
    → String
    → Option (List Reminder)
    → ReminderFile
    → ReminderFile × Response
unfolding change_first change_saved
change_loaded saved fn id none file = (file, load_error)
change_loaded saved fn id (some rs) file = change_saved saved file (change_first fn id rs)

unfoldable pub handle_done : Bool → String → ReminderFile → ReminderFile × Response
unfolding change_loaded
handle_done saved id file =
    if id == "" then (file, id_required) else change_loaded saved finish_one id (load file) file

abbrev snooze_one : Time → Reminder → Reminder × Response
snooze_one t r = (record r { due_at = t }, snoozed t)

unfoldable pub handle_snooze :
    Bool → Time → String → String → Option Duration → ReminderFile → ReminderFile × Response
unfolding change_loaded
handle_snooze saved now id duration parsed file =
    if id == ""
    then (file, id_required)
    else if duration == ""
    then (file, duration_required)
    else elim parsed [
      | none ↦ (file, invalid_duration)
      | some d ↦ change_loaded saved (snooze_one (add now d)) id (load file) file
    ]
