-- ===== src/Executor/Tests.antt =====
-- Small executors on which the theorems are tried.
use eclaire.Prelude.{
  ◌*◌, ◌≡◌, ◌≢◌, refl, true, false, if◌then◌else◌, none, some, [], ◌∷◌, All, length, select, arith,
}
use eclaire.Prelude.Times.{second}
use eclaire.Prelude.Dict.{get}
use eclaire.Jobs.{ScheduleKind, Job, TimeLib}
use eclaire.Jobs.Store.Invariant.{IsStore}
use eclaire.Notifications.{NotificationStore}
use eclaire.Reminders.{Reminder, holds}
use eclaire.Executor.{Setting, World, refused, BackgroundResult, tick, fire_reminders}
use eclaire.Executor.Running.{execute_job, execute_and_apply, notify_background}
use eclaire.Executor.Firing.{tick-starts_once}
use eclaire.Executor.Running.Reporting.{
  Reported, is_failure, execute_and_apply-Reported, Unheeded, fire_reminders-Unheeded, is_past_due,
}

abbrev lib : TimeLib
lib = record {
  parse_rfc3339 = λ _. none;
  parse_duration = λ _. none;
  minute_of = λ _. 0;
  hour_of = λ _. 0;
  day_of = λ _. 1;
  month_of = λ _. 1;
  weekday_of = λ _. 0;
}

abbrev env : Setting
env = record {
  lib = lib;
  now = 600 * second;
  fresh = "n1";
  saved = true;
  known_agent = λ _. true;
  runner = λ agent prompt session. refused "timeout";
  cut = λ text n. text;
}

abbrev later : Setting
later = record env { now = 700 * second; fresh = "n2" }

abbrev job : Job
job = record {
  id = "a";
  name = "Backup";
  schedule = record { kind = ScheduleKind.at; at = "1m"; every = ""; expr = ""; timezone = "" };
  agent_id = "coding";
  prompt = "back up";
  session_target = "isolated";
  enabled = true;
  delete_after_run = false;
  context_messages = "";
  state = record {
    next_run_at = some 5;
    last_run_at = none;
    running_at = none;
    last_status = "";
    last_error = "";
    consecutive_errors = 0;
  };
  created_at = 1;
  updated_at = 1;
}

abbrev reminder : Reminder
reminder = record {
  id = "r";
  text = "call";
  due_at = 5;
  recurrence = "";
  completed = false;
  created_at = 0;
}

abbrev no_notes : NotificationStore
no_notes = record { entries = []; file = [] }

abbrev world : World
world = record {
  store = record { jobs = ("a", job) ∷ []; file = none };
  notifications = some no_notes;
  reminders = some (holds (reminder ∷ []));
  sessions = none;
  sys_events = none;
  main_session = "main";
  run_log = some [];
  published = [];
  last_reap_at = 0;
}

world-IsStore : IsStore world.store.jobs
unfolding get
world-IsStore = (refl, refl, tt)

tick-starts_once_example :
    All (λ k. All (λ j. j.id ≢ k.id) (tick env world).1) (tick later (tick env world).0).1
tick-starts_once_example = tick-starts_once env later world world-IsStore

execute_and_apply-Reported_example :
    (br : BackgroundResult) × (s : NotificationStore) × Reported
      (execute_and_apply env job world)
      br
      s
    × (length (notify_background later br s).entries
        ≡ (if is_failure (execute_job env job world) then 2 else 0))
execute_and_apply-Reported_example =
    execute_and_apply-Reported env later job world no_notes refl (omega arith)

fire_reminders-Unheeded_example :
    Unheeded env later world (select (is_past_due env) (reminder ∷ [])) (fire_reminders env world)
fire_reminders-Unheeded_example =
    fire_reminders-Unheeded env later world no_notes (reminder ∷ []) refl refl refl
