-- ===== src/Todos.antt =====
-- The task lists of the sessions (internal/tool/todos.go). The text of the answer is left out;
-- `session` is what SessionIDFunc reads out of the context, "" where there is none.
pub mod Changes
mod Tests
use eclaire.Prelude.{
  ℕ, zero, suc, ◌+◌, Bool, true, false, not, ◌&&◌, ◌||◌, Option, none, some, List, [], ◌∷◌, ◌++◌,
  String, ◌==◌, if◌then◌else◌, length,
}
use eclaire.Prelude.Dict.{Dict, get, put}
use eclaire.Prelude.Text.{Chars, codes, trim_space, null}

pub record TodoItem : Type 0 where
  pub content : String
  pub status : String
  pub active_form : String

pub record TodoWriteOutput : Type 0 where
  pub is_new : Bool
  pub todos : List TodoItem
  pub just_completed : List String
  pub just_started : String
  pub completed : ℕ
  pub total : ℕ

abbrev pub TodoStore : Type 0
TodoStore = Dict (List TodoItem)

unfoldable pub set_todos : String → List TodoItem → TodoStore → TodoStore
set_todos session items s = put s session items

abbrev pub or_none : Option (List TodoItem) → List TodoItem
or_none none = []
or_none (some items) = items

unfoldable pub get_todos : TodoStore → String → List TodoItem
get_todos s session = or_none (get s session)

abbrev pub is_completed : TodoItem → Bool
is_completed t = t.status == "completed"

-- wasCompleted[content]
unfoldable pub was_completed : String → List TodoItem → Bool
was_completed content [] = false
was_completed content (t ∷ ts) =
    (is_completed t && (t.content == content)) || was_completed content ts

unfoldable pub newly_completed : List TodoItem → List TodoItem → List String
newly_completed old [] = []
newly_completed old (t ∷ ts) =
    let rest = newly_completed old ts in
    if is_completed t && not (was_completed t.content old) then t.content ∷ rest else rest

abbrev pub count_completed : List TodoItem → ℕ
count_completed [] = 0
count_completed (t ∷ ts) = if is_completed t then suc (count_completed ts) else count_completed ts

abbrev shown_form : TodoItem → String
shown_form t = if t.active_form == "" then t.content else t.active_form

-- The loop over the new items, with what was found before.
unfoldable pub started : String → List TodoItem → String
started found [] = found
started found (t ∷ ts) =
    let next = started (shown_form t) ts in
    let same = started found ts in
    if (t.status == "in_progress") && (found == "") then next else same

abbrev is_empty : List TodoItem → Bool
is_empty [] = true
is_empty (t ∷ ts) = false

unfoldable pub diff : String → List TodoItem → TodoStore → TodoStore × TodoWriteOutput
diff session new_todos s =
    let old = get_todos s session in
    (
      put s session new_todos,
      record {
        is_new = is_empty old;
        todos = new_todos;
        just_completed = newly_completed old new_todos;
        just_started = started "" new_todos;
        completed = count_completed new_todos;
        total = length new_todos;
      },
    )

pub data TodoError : Type 0 where
  no_todos : TodoError
  no_content no_active_form bad_status : ℕ → TodoError

abbrev is_blank : String → Bool
is_blank s = null (trim_space (codes s))

abbrev pub is_status : String → Bool
is_status status = (status == "pending") || ((status == "in_progress") || (status == "completed"))

unfoldable pub check_item : ℕ → TodoItem → Option TodoError
check_item i t =
    if is_blank t.content
    then some (no_content i)
    else if is_blank t.active_form
    then some (no_active_form i)
    else if is_status t.status
    then none
    else some (bad_status i)

abbrev or_later : Option TodoError → Option TodoError → Option TodoError
or_later none rest = rest
or_later (some e) rest = some e

unfoldable pub validate : ℕ → List TodoItem → Option TodoError
validate i [] = none
validate i (t ∷ ts) = or_later (check_item i t) (validate (suc i) ts)

abbrev session_of : String → String
session_of session = if session == "" then "default" else session

-- The handler of the tool, and whether it appends an event to the session's log.
pub data Handled : Type 0 where
  rejected : TodoError → Handled
  written : TodoWriteOutput → Bool → Handled

after_check : Bool → String → List TodoItem → Option TodoError → TodoStore → TodoStore × Handled
after_check has_sessions session items (some e) s = (s, rejected e)
after_check has_sessions session items none s =
    let (s', output) = diff (session_of session) items s in
    (s', written output (has_sessions && not (session_of session == "default")))

unfoldable pub handle_todos : Bool → String → List TodoItem → TodoStore → TodoStore × Handled
unfolding after_check
handle_todos has_sessions session [] s = (s, rejected no_todos)
handle_todos has_sessions session (t ∷ ts) s =
    after_check has_sessions session (t ∷ ts) (validate 0 (t ∷ ts)) s

unfoldable pub has_incomplete_todos : List TodoItem → Bool
has_incomplete_todos [] = false
has_incomplete_todos (t ∷ ts) = not (is_completed t) || has_incomplete_todos ts

unfoldable pub current_todo_active_form : List TodoItem → String
current_todo_active_form [] = ""
current_todo_active_form (t ∷ ts) =
    let rest = current_todo_active_form ts in
    if t.status == "in_progress" then shown_form t else rest
