-- ===== src/Reminders/Tests.antt =====
-- Small reminder files on which the theorems are tried.
use eclaire.Prelude.{◌≡◌, refl, true, false, some, List, [], ◌∷◌, String, All, ◌&&◌, ◌==◌}
use eclaire.Prelude.Times.{Time, add, pos, minute}
use eclaire.Reminders.{Reminder, holds, fire_overdue, handle_snooze, is_overdue, snooze_one}
use eclaire.Reminders.Firing.{fires_once}
use eclaire.Reminders.Handlers.{HandlerOutcome, handle_snooze-outcome}

abbrev reminder : String → Time → String → Reminder
reminder id due recurrence = record {
  id = id;
  text = "stand up";
  due_at = due;
  recurrence = recurrence;
  completed = false;
  created_at = 0;
}

abbrev three : List Reminder
three = reminder "a" 5 "" ∷ reminder "b" 50 "" ∷ reminder "c" 5 "daily" ∷ []

fires_once_example :
    All
      (λ r. (r.recurrence == "" && is_overdue 10 r) ≡ false)
      (fire_overdue true 99 (fire_overdue true 10 (holds three)).0).1.fired
fires_once_example = fires_once true 10 99 three

handle_snooze-outcome_example :
    HandlerOutcome
      (snooze_one (add 10 (pos minute)))
      true
      "b"
      three
      (handle_snooze true 10 "b" "1m" (some (pos minute)) (holds three))
handle_snooze-outcome_example = handle_snooze-outcome true 10 "b" "1m" (pos minute) three refl refl
