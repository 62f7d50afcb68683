-- ===== src/Todos/Tests.antt =====
-- A list that is written twice (internal/tool/todos.go).
use eclaire.Prelude.{◌≡◌, ◌≢◌, refl, ◌↔◌, false, List, [], ◌∷◌, String, ◌==◌, arith, eq_iff}
use eclaire.Todos.{TodoItem, TodoStore, get_todos, diff, has_incomplete_todos}
use mathlib.Core.List.{Memᴰ}
use eclaire.Todos.Changes.{IsNews, diff-Written}

abbrev item : String → TodoItem
item status = record { content = "test"; status = status; active_form = "testing" }

-- A list with one task in progress, in the session "a".
abbrev before : TodoStore
before = ("a", item "in_progress" ∷ []) ∷ []

abbrev finished : List TodoItem
finished = item "completed" ∷ []

abbrev session : String
session = "a"

abbrev other : String
other = "b"

apart : (other == session) ≡ false
apart = refl

b_not_a : other ≢ session
b_not_a e = ground (arith, e, apart, eq_iff other session)

diff-Written_example :
    let (s', output) = diff session finished before in
    (get_todos s' session ≡ finished)
    × (get_todos s' other ≡ get_todos before other)
    × ((c : String) → Memᴰ c output.just_completed ↔ IsNews c (get_todos before session) finished)
    × ((has_incomplete_todos finished ≡ false) ↔ (output.completed ≡ output.total))
diff-Written_example = diff-Written session other finished before b_not_a
