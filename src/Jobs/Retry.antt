-- ===== src/Jobs/Retry.antt =====
-- What a finished run does to its job (internal/agent/jobexec.go, `applySuccess`, `applyError` and
-- `recomputeAll`), and the delay of the timer (`computeDelay`). Every instant that one call reads
-- from the clock is one `now`.
pub mod Laws
pub mod Wake
use eclaire.Prelude.{
  ℕ, zero, suc, ◌+◌, ◌-◌, ◌*◌, Bool, true, false, not, ◌&&◌, Option, none, some, List, [], ◌∷◌,
  String, ltb, leb, if◌then◌else◌, is_some,
}
use eclaire.Prelude.Times.{Time, before, is_zero, second, minute}
use eclaire.Jobs.{ScheduleKind, Job, JobState, TimeLib}
use eclaire.Jobs.Schedule.{NextRun, next, failed, compute_next_run}
use eclaire.Jobs.Store.{JobStore, StoreError, update, remove_job, list, next_wake_at}

abbrev pub transient_backoffs : List ℕ
transient_backoffs = 30 * second ∷ 60 * second ∷ 5 * minute ∷ []

abbrev pub max_transient_retries : ℕ
max_transient_retries = 3

-- transientBackoffs[i], read in range only
abbrev at_index : List ℕ → ℕ → ℕ
at_index [] i = 0
at_index (x ∷ xs) zero = x
at_index (x ∷ xs) (suc i) = at_index xs i

-- The index is held below the length of the table.
unfoldable pub backoff : ℕ → ℕ
backoff errors = at_index transient_backoffs (if leb 3 (errors - 1) then 2 else errors - 1)

abbrev pub set_next : Option Time → Job → Job
set_next t j = record j { state = record j.state { next_run_at = t } }

abbrev pub disable : Job → Job
disable j = record j { enabled = false }

-- The outcome that both ways of finishing write first.
abbrev pub finished : Time → String → String → ℕ → Job → Job
finished now status error errors j = record j {
  state = record j.state {
    running_at = none;
    last_run_at = some now;
    last_status = status;
    last_error = error;
    consecutive_errors = errors;
  };
}

reschedule : NextRun → Job → Job
reschedule (failed e) j = disable j
reschedule (next t) j = set_next t j

module _ (lib : TimeLib) where
  after_success : ScheduleKind → Time → Job → Job
  unfolding reschedule
  after_success ScheduleKind.at now j = set_next none (disable j)
  after_success ScheduleKind.every now j =
      reschedule (compute_next_run lib j.schedule now (some now)) j
  after_success ScheduleKind.cron now j =
      reschedule (compute_next_run lib j.schedule now (some now)) j
  after_success (ScheduleKind.unknown k) now j = j

  -- The function that `applySuccess` gives to `Update`.
  unfoldable pub on_success : Time → Job → Job
  unfolding after_success
  on_success now j = after_success j.schedule.kind now (finished now "ok" "" 0 j)

  no_earlier : Time → Option Time → Option Time
  no_earlier least none = none
  no_earlier least (some t) = some (if before t least then least else t)

  retry_recurring : Time → NextRun → Job → Job
  unfolding no_earlier
  retry_recurring now (failed e) j = disable j
  retry_recurring now (next t) j =
      let errors = j.state.consecutive_errors in
      set_next (if leb errors 3 then no_earlier (now + backoff errors) t else t) j

  after_error : ScheduleKind → Time → Job → Job
  unfolding retry_recurring
  after_error ScheduleKind.at now j =
      let errors = j.state.consecutive_errors in
      if leb errors max_transient_retries
      then set_next (some (now + backoff errors)) j
      else set_next none (disable j)
  after_error ScheduleKind.every now j =
      retry_recurring now (compute_next_run lib j.schedule now (some now)) j
  after_error ScheduleKind.cron now j =
      retry_recurring now (compute_next_run lib j.schedule now (some now)) j
  after_error (ScheduleKind.unknown k) now j = j

  -- The function that `applyError` gives to `Update`.
  unfoldable pub on_error : Time → String → Job → Job
  unfolding after_error
  on_error now message j =
      after_error j.schedule.kind now
        (finished now "error" message (j.state.consecutive_errors + 1) j)

  -- `j` is the job as it was when the run began. Errors of the store are logged only.
  unfoldable pub apply_success : Time → Bool → Job → JobStore → JobStore
  unfolding on_success
  apply_success now saved j s =
      if j.delete_after_run
      then (remove_job saved j.id s).0
      else (update now saved j.id (on_success now) s).0

  unfoldable pub apply_error : Time → Bool → Job → String → JobStore → JobStore
  apply_error now saved j message s = (update now saved j.id (on_error now message) s).0

  abbrev time_or_nil : Option Time → Option Time
  time_or_nil none = none
  time_or_nil (some t) = if is_zero t then none else some t

  recomputed : NextRun → Job → Job
  recomputed (failed e) j = j
  recomputed (next t) j = set_next t j

  unfoldable pub recompute_one : Time → Job → Job
  unfolding recomputed
  recompute_one now j =
      recomputed (compute_next_run lib j.schedule now (time_or_nil j.state.last_run_at)) j

  abbrev is_at : ScheduleKind → Bool
  is_at ScheduleKind.at = true
  is_at _ = false

  -- Disabled jobs, and one-shot jobs that have their time, are passed over.
  unfoldable pub recomputes : Job → Bool
  recomputes j = j.enabled && not (is_at j.schedule.kind && is_some j.state.next_run_at)

  recompute_loop : Time → Bool → List Job → JobStore → JobStore
  recompute_loop now saved [] s = s
  recompute_loop now saved (j ∷ js) s =
      recompute_loop now saved js
        (if recomputes j then (update now saved j.id (recompute_one now) s).0 else s)

  unfoldable pub recompute_all : Time → Bool → JobStore → JobStore
  unfolding recompute_loop
  recompute_all now saved s = recompute_loop now saved (list s) s

delay_until : Time → Option Time → ℕ
delay_until now none = 60 * second
delay_until now (some wake) =
    if before wake now
    then 0
    else if ltb (60 * second) (wake - now)
    then 60 * second
    else wake - now

unfoldable pub compute_delay : Time → JobStore → ℕ
unfolding delay_until
compute_delay now s = delay_until now (next_wake_at s)
