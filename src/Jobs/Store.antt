-- ===== src/Jobs/Store.antt =====
-- The job store (internal/agent/jobstore.go, `JobStore`). `jobs` is the map; `file` is what the
-- JSON file holds, `none` if there is none. A write replaces the file whole or fails (`saved` is
-- what the file system answers), since `save` writes a temporary file and renames it. The clock and
-- a fresh identifier are arguments. The mutex makes each operation one step.
pub mod Invariant
pub mod Operations
pub mod Due
use eclaire.Prelude.{
  ℕ, Bool, true, false, not, ◌&&◌, ◌||◌, Option, none, some, List, [], ◌∷◌, String, ◌==◌, ltb,
  if◌then◌else◌, is_some, length, select,
}
use eclaire.Prelude.Times.{Time, after, before}
use eclaire.Prelude.Dict.{Dict, get, put, remove, has, values}
use eclaire.Prelude.Sorting.{sort_by}
use eclaire.Jobs.{Job, JobState, TimeLib}
use eclaire.Jobs.Schedule.{NextRun, next, failed, ScheduleError, compute_next_run}

pub record JobStore : Type 0 where
  pub jobs : Dict Job
  pub file : Option (List Job)

pub data StoreError : Type 0 where
  already_exists not_found save_failed : StoreError
  bad_schedule : ScheduleError → StoreError

pub data Reply {ℓ} (A : Type ℓ) : Type ℓ where
  ok : A → Reply A
  err : StoreError → Reply A

-- `load` into the empty map; with two jobs of one ID the later one stays
load_into : Dict Job → List Job → Dict Job
load_into m [] = m
load_into m (j ∷ js) = load_into (put m j.id j) js

unfoldable pub new_job_store : Option (List Job) → JobStore
unfolding load_into
new_job_store none = record { jobs = []; file = none }
new_job_store (some js) = record { jobs = load_into [] js; file = some js }

abbrev pub created_before : Job → Job → Bool
created_before a b = before a.created_at b.created_at

abbrev pub created_after : Job → Job → Bool
created_after a b = after a.created_at b.created_at

-- The error is `none` when the write succeeds.
unfoldable pub save : Bool → JobStore → JobStore × Option StoreError
save saved s =
    if saved
    then (record s { file = some (sort_by created_before (values s.jobs)) }, none)
    else (s, some save_failed)

-- The fields that `Add` sets before the schedule is read.
abbrev pub stamped : String → Time → Job → Job
stamped fresh now j = record j {
  id = if j.id == "" then fresh else j.id;
  created_at = now;
  updated_at = now;
  session_target = if j.session_target == "" then "isolated" else j.session_target;
  enabled = true;
}

abbrev pub with_next : Option Time → Job → Job
with_next t j = record j { state = record j.state { next_run_at = t } }

insert_saved : Job → JobStore → JobStore × Option StoreError → JobStore × Reply Job
insert_saved j s (s', none) = (s', ok j)
insert_saved j s (s', some e) = (record s' { jobs = remove s'.jobs j.id }, err e)

insert_scheduled : Bool → Job → NextRun → JobStore → JobStore × Reply Job
unfolding insert_saved save
insert_scheduled saved j (failed e) s = (s, err (bad_schedule e))
insert_scheduled saved j (next t) s =
    let stored = with_next t j in
    insert_saved stored s (save saved (record s { jobs = put s.jobs stored.id stored }))

module _ (lib : TimeLib) where
  unfoldable pub add : String → Time → Bool → Job → JobStore → JobStore × Reply Job
  unfolding insert_scheduled
  add fresh now saved j s =
      let j' = stamped fresh now j in
      if has s.jobs j'.id
      then (s, err already_exists)
      else insert_scheduled saved j' (compute_next_run lib j'.schedule now none) s

remove_saved : String → Job → JobStore × Option StoreError → JobStore × Reply Job
remove_saved id j (s', none) = (s', ok j)
remove_saved id j (s', some e) = (record s' { jobs = put s'.jobs id j }, err e)

remove_found : Bool → String → Option Job → JobStore → JobStore × Reply Job
unfolding remove_saved save
remove_found saved id none s = (s, err not_found)
remove_found saved id (some j) s =
    remove_saved id j (save saved (record s { jobs = remove s.jobs id }))

unfoldable pub remove_job : Bool → String → JobStore → JobStore × Reply Job
unfolding remove_found
remove_job saved id s = remove_found saved id (get s.jobs id) s

pub list : JobStore → List Job
list s = sort_by created_after (values s.jobs)

update_found :
    Time → Bool → String → (Job → Job) → Option Job → JobStore → JobStore × Option StoreError
unfolding save
update_found now saved id fn none s = (s, some not_found)
update_found now saved id fn (some j) s =
    save saved (record s { jobs = put s.jobs id (record (fn j) { updated_at = now }) })

-- A failed write is reported, and the map keeps the new job.
unfoldable pub update : Time → Bool → String → (Job → Job) → JobStore → JobStore × Option StoreError
unfolding update_found
update now saved id fn s = update_found now saved id fn (get s.jobs id) s

abbrev pub set_running : Option Time → Job → Job
set_running t j = record j { state = record j.state { running_at = t } }

unfoldable pub mark_running : Time → Bool → String → Time → JobStore → JobStore × Option StoreError
unfolding update
mark_running clock saved id now s = update clock saved id (set_running (some now)) s

abbrev past : Time → Option Time → Bool
past now none = false
past now (some t) = not (after t now)

-- The tests of the loop of `NextDue`.
unfoldable pub is_due : Time → Job → Bool
is_due now j = j.enabled && (not (is_some j.state.running_at) && past now j.state.next_run_at)

abbrev or_zero : Option Time → Time
or_zero none = 0
or_zero (some t) = t

-- The sorted jobs all have a next run, so the 0 is never read.
abbrev pub next_key : Job → Time
next_key j = or_zero j.state.next_run_at

unfoldable pub next_due : Time → JobStore → List Job
next_due now s =
    sort_by (λ a b. before (next_key a) (next_key b)) (select (is_due now) (values s.jobs))

earlier : Option Time → Time → Option Time
earlier none t = some t
earlier (some e) t = some (if before t e then t else e)

wake_step : Bool → Option Time → Option Time → Option Time
unfolding earlier
wake_step false next_run earliest = earliest
wake_step true none earliest = earliest
wake_step true (some t) earliest = earlier earliest t

wake_from : Option Time → List Job → Option Time
unfolding wake_step
wake_from earliest [] = earliest
wake_from earliest (j ∷ js) = wake_from (wake_step j.enabled j.state.next_run_at earliest) js

unfoldable pub next_wake_at : JobStore → Option Time
unfolding wake_from
next_wake_at s = wake_from none (values s.jobs)

abbrev pub any_running : Dict Job → Bool
any_running [] = false
any_running ((k, j) ∷ d) = is_some j.state.running_at || any_running d

unfoldable pub clear_running : Dict Job → Dict Job
clear_running [] = []
clear_running ((k, j) ∷ d) = (k, set_running none j) ∷ clear_running d

unfoldable pub clear_stale_running : Bool → JobStore → JobStore × Option StoreError
unfolding save clear_running
clear_stale_running saved s =
    if any_running s.jobs then save saved (record s { jobs = clear_running s.jobs }) else (s, none)

pub count : JobStore → ℕ
count s = length s.jobs
