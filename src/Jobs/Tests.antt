-- ===== src/Jobs/Tests.antt =====
-- Small stores of jobs on which the theorems are tried.
use eclaire.Prelude.{
  ◌≤◌, ◌+◌, ◌*◌, ◌≡◌, refl, true, false, Option, none, some, [], ◌∷◌, String, All,
}
use eclaire.Prelude.Times.{Time, pos, minute, second}
use eclaire.Prelude.Dict.{get}
use eclaire.Jobs.{ScheduleKind, Job, TimeLib}
use eclaire.Jobs.Cron.{next_cron}
use eclaire.Jobs.Cron.Search.{next_cron-IsNextMatch, IsNextMatch}
use eclaire.Jobs.Store.{JobStore, add, remove_job, clear_stale_running, next_due, next_wake_at}
use eclaire.Jobs.Store.Invariant.{IsStore, operations-IsStore}
use eclaire.Jobs.Store.Operations.{
  AddOutcome, add-outcome, RemoveOutcome, remove_job-outcome, clear_stale_running-outcome, cleared,
}
use eclaire.Jobs.Store.Due.{next_due-exact, next_wake_at-earliest, IsDue}
use eclaire.Jobs.Retry.{on_error, compute_delay}
use eclaire.Jobs.Retry.Laws.{fail_all, wait_after, fail_all-enabled, on_error-one_shot}
use eclaire.Jobs.Retry.Wake.{compute_delay-in_time}

-- Ten minutes past the epoch; every text is the duration of one minute.
abbrev lib : TimeLib
lib = record {
  parse_rfc3339 = λ _. none;
  parse_duration = λ _. some (pos minute);
  minute_of = λ _. 0;
  hour_of = λ _. 0;
  day_of = λ _. 1;
  month_of = λ _. 1;
  weekday_of = λ _. 0;
}

abbrev noon : Time
noon = 600 * second

abbrev timer : ScheduleKind → String → Job
timer kind id = record {
  id = id;
  name = id;
  schedule = record { kind = kind; at = "1m"; every = "1m"; expr = "* * * * *"; timezone = "" };
  agent_id = "orchestrator";
  prompt = "say hello";
  session_target = "isolated";
  enabled = true;
  delete_after_run = false;
  context_messages = "";
  state = record {
    next_run_at = some noon;
    last_run_at = none;
    running_at = none;
    last_status = "";
    last_error = "";
    consecutive_errors = 0;
  };
  created_at = 1;
  updated_at = 1;
}

abbrev one_shot : Job
one_shot = timer ScheduleKind.at "a"

abbrev hourly : Job
hourly = timer ScheduleKind.every "b"

abbrev two_jobs : JobStore
two_jobs = record {
  jobs = ("a", one_shot) ∷ ("b", hourly) ∷ [];
  file = some (one_shot ∷ hourly ∷ []);
}

two_jobs-IsStore : IsStore two_jobs.jobs
unfolding get
two_jobs-IsStore = (refl, refl, (refl, refl, tt))

next_due-exact_example :
    All (λ j. (get two_jobs.jobs j.id ≡ some j) × IsDue noon j) (next_due noon two_jobs)
next_due-exact_example = (next_due-exact noon two_jobs two_jobs-IsStore).0

add-outcome_example :
    AddOutcome lib "fresh" noon
      (timer ScheduleKind.every "")
      two_jobs
      (add lib "fresh" noon true (timer ScheduleKind.every "") two_jobs)
add-outcome_example = add-outcome lib "fresh" noon true (timer ScheduleKind.every "") two_jobs

next_cron-IsNextMatch_example :
    (r : Option Time) × (next_cron lib "*/5 * * * *" noon ≡ some r)
    × IsNextMatch lib "*/5 * * * *" noon r
next_cron-IsNextMatch_example = next_cron-IsNextMatch lib "*/5 * * * *" noon

operations-IsStore_example :
    IsStore (add lib "fresh" noon true (timer ScheduleKind.cron "c") two_jobs).0.jobs
operations-IsStore_example =
    (operations-IsStore lib "fresh" noon true (timer ScheduleKind.cron "c") "a" (λ j. j) two_jobs
      (λ j. refl) two_jobs-IsStore).0

remove_job-outcome_example : RemoveOutcome "a" two_jobs (remove_job true "a" two_jobs)
remove_job-outcome_example = remove_job-outcome true "a" two_jobs

clear_stale_running-outcome_example :
    get (clear_stale_running true two_jobs).0.jobs "b" ≡ cleared (some hourly)
unfolding get
clear_stale_running-outcome_example = clear_stale_running-outcome true two_jobs "b"

first_found : get two_jobs.jobs "a" ≡ some one_shot
unfolding get
first_found = refl

next_wake_at-earliest_example : (w : Time) × (next_wake_at two_jobs ≡ some w) × (w ≤ noon)
next_wake_at-earliest_example =
    (next_wake_at-earliest two_jobs).0 "a" one_shot noon first_found (refl, refl)

fail_all-enabled_example :
    let j = on_error lib noon "z" (fail_all lib ((noon, "x") ∷ (noon, "y") ∷ []) one_shot) in
    (j.enabled ≡ true) × (j.state.next_run_at ≡ some (noon + wait_after lib 2))
fail_all-enabled_example =
    fail_all-enabled lib ((noon, "x") ∷ (noon, "y") ∷ []) noon "z" one_shot refl refl refl

on_error-one_shot_example :
    (on_error lib noon "x" one_shot).state.next_run_at ≡ some (noon + 30 * second)
on_error-one_shot_example = (on_error-one_shot lib noon "x" one_shot refl).0

compute_delay-in_time_example : compute_delay 0 two_jobs ≤ 60 * second
compute_delay-in_time_example = (compute_delay-in_time 0 two_jobs).0
