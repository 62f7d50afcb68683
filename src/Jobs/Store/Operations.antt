-- ===== src/Jobs/Store/Operations.antt =====
-- What the operations of the job store (internal/agent/jobstore.go) do to the map and the file.
use eclaire.Prelude.{
  Bool, true, false, Option, none, some, [], ◌∷◌, String, ◌==◌, eq_iff, ◌≡◌, ◌≢◌, refl, ◌⊎◌, inl,
  inr, arith, if◌then◌else◌, Option-cases, is_some,
}
use eclaire.Prelude.Times.{Time}
use eclaire.Prelude.Dict.{Dict, get, put, remove, get-put, get-remove, values}
use eclaire.Prelude.Sorting.{sort_by}
use eclaire.Jobs.{Job, TimeLib}
use eclaire.Jobs.Schedule.{NextRun, next, failed, compute_next_run}
use eclaire.Jobs.Store.{
  JobStore, not_found, save_failed, Reply, ok, err, stamped, with_next, add, remove_job, update,
  insert_scheduled, remove_found, update_found, created_before, clear_running, clear_stale_running,
  set_running, any_running,
}

-- What the map answers, for every key.
abbrev pub SameJobs : JobStore → JobStore → Type 0
SameJobs s t = (k : String) → get t.jobs k ≡ get s.jobs k

abbrev pub IsWritten : JobStore → Type 0
IsWritten s = s.file ≡ some (sort_by created_before (values s.jobs))

-- The stored job after a successful `Add` of `j`.
pub record IsAdded (lib : TimeLib) (fresh : String) (now : Time) (j stored : Job) (s t : JobStore)
    : Type 0 where
  pub was_absent : get s.jobs stored.id ≡ none
  pub written : IsWritten t
  pub lookup : (k : String) → get t.jobs k ≡ (if stored.id == k then some stored else get s.jobs k)
  pub enabled : stored.enabled ≡ true
  pub same_name : stored.name ≡ j.name
  pub same_prompt : stored.prompt ≡ j.prompt
  pub same_agent : stored.agent_id ≡ j.agent_id
  pub same_schedule : stored.schedule ≡ j.schedule
  pub same_context : stored.context_messages ≡ j.context_messages
  pub targeted :
      stored.session_target ≡ (if j.session_target == "" then "isolated" else j.session_target)
  pub dated : (stored.created_at ≡ now) × (stored.updated_at ≡ now)
  pub same_kind : stored.delete_after_run ≡ j.delete_after_run
  pub scheduled : compute_next_run lib j.schedule now none ≡ next stored.state.next_run_at
  pub identified : stored.id ≡ (if j.id == "" then fresh else j.id)

abbrev pub AddOutcome : TimeLib → String → Time → Job → JobStore → JobStore × Reply Job → Type 0
AddOutcome lib fresh now j s (t, ok stored) = IsAdded lib fresh now j stored s t
AddOutcome lib fresh now j s (t, err e) = SameJobs s t × (t.file ≡ s.file)

insert-outcome :
    (lib : TimeLib) (fresh : String) (now : Time) (saved : Bool) (j : Job) (s : JobStore)
    (r : NextRun)
    → get s.jobs (stamped fresh now j).id ≡ none
    → compute_next_run lib j.schedule now none ≡ r
    → AddOutcome lib fresh now j s (insert_scheduled saved (stamped fresh now j) r s)
unfolding insert_scheduled
insert-outcome lib fresh now saved j s (failed e) absent scheduled = (λ k. refl, refl)
insert-outcome lib fresh now true j s (next t) absent scheduled = record {
  was_absent = absent;
  written = refl;
  lookup = λ k. get-put s.jobs (stamped fresh now j).id k (with_next t (stamped fresh now j));
  enabled = refl;
  same_name = refl;
  same_prompt = refl;
  same_agent = refl;
  same_schedule = refl;
  same_context = refl;
  targeted = refl;
  dated = (refl, refl);
  same_kind = refl;
  scheduled = scheduled;
  identified = refl;
}
insert-outcome lib fresh now false j s (next t) absent scheduled = (
  λ k.
      let id = (stamped fresh now j).id in
      ground (
        arith,
        get-remove (put s.jobs id (with_next t (stamped fresh now j))) id k,
        get-put s.jobs id k (with_next t (stamped fresh now j)),
        eq_iff id k,
      ),
  refl,
)

-- `Add` either stores the job under an ID that was free (the one given, or the fresh one if none is), enabled, with the
-- next run of its schedule, in the isolated session where no other is given, and with its name, prompt,
-- agent, schedule, context and `DeleteAfterRun` as given, writes the file and changes no other
-- job; or it returns an error, and then every job and the file are as before.
pub add-outcome :
    (lib : TimeLib) (fresh : String) (now : Time) (saved : Bool) (j : Job) (s : JobStore)
    → AddOutcome lib fresh now j s (add lib fresh now saved j s)
unfolding add
add-outcome lib fresh now saved j s = elim (Option-cases (get s.jobs (stamped fresh now j).id)) [
  | inl absent ↦ rw absent (
      insert-outcome lib fresh now saved j s (compute_next_run lib j.schedule now none) absent refl)
  | inr (old, present) ↦ rw present (λ k. refl, refl)
]

abbrev pub RemoveOutcome : String → JobStore → JobStore × Reply Job → Type 0
RemoveOutcome id s (t, ok j) =
    (get s.jobs id ≡ some j)
    × IsWritten t
    × ((k : String) → get t.jobs k ≡ (if id == k then none else get s.jobs k))
RemoveOutcome id s (t, err e) =
    SameJobs s t × (t.file ≡ s.file) × ((e ≡ not_found) ⊎ (e ≡ save_failed))

remove-outcome :
    (saved : Bool) (id : String) (s : JobStore) (j : Job)
    → get s.jobs id ≡ some j
    → RemoveOutcome id s (remove_found saved id (some j) s)
unfolding remove_found
remove-outcome true id s j h = (h, refl, get-remove s.jobs id)
remove-outcome false id s j h = (
  λ k. ground (arith, get-put (remove s.jobs id) id k j, get-remove s.jobs id k, eq_iff id k),
  refl,
  inr refl,
)

-- `Remove` either returns the job that the ID had, writes the file without it and keeps every
-- other job; or it fails, because the ID is free or the file cannot be written, and then every job
-- and the file are as before.
pub remove_job-outcome :
    (saved : Bool) (id : String) (s : JobStore) → RemoveOutcome id s (remove_job saved id s)
unfolding remove_job
remove_job-outcome saved id s = elim (Option-cases (get s.jobs id)) [
  | inl absent ↦ rw absent (λ k. refl, refl, inl refl)
  | inr (j, present) ↦ rw present (remove-outcome saved id s j present)
]

abbrev pub updated : String → Time → (Job → Job) → Option Job → Option Job
updated id now fn none = none
updated id now fn (some j) = some (record (fn j) { updated_at = now })

-- Whatever the file system answers, `Update` changes the map at its ID alone, where a job is
-- replaced by what `fn` makes of it and a free ID stays free; it succeeds exactly when the ID is
-- taken and the file is written, and a failed write leaves the file as it was.
pub update-outcome :
    (now : Time) (saved : Bool) (id : String) (fn : Job → Job) (s : JobStore)
    → let (t, e) = update now saved id fn s in
      ((k : String)
        → get t.jobs k ≡ (if id == k then updated id now fn (get s.jobs id) else get s.jobs k))
      × (e ≡ (
          if is_some (get s.jobs id)
          then (if saved then none else some save_failed)
          else some not_found))
      × ((e ≡ none) × IsWritten t ⊎ (e ≢ none) × (t.file ≡ s.file))
unfolding update
update-outcome now saved id fn s = elim (Option-cases (get s.jobs id)) [
  | inl absent ↦ rw absent (λ k. ground (arith, eq_iff id k), refl, inr (λ e. cc, refl))
  | inr (j, present) ↦ rw present (changed saved j)
]
  where
    changed :
        (saved : Bool) (j : Job)
        → ((k : String)
            → get (update_found now saved id fn (some j) s).0.jobs k
              ≡ (if id == k then some (record (fn j) { updated_at = now }) else get s.jobs k))
          × ((update_found now saved id fn (some j) s).1
              ≡ (if saved then none else some save_failed))
          × (((update_found now saved id fn (some j) s).1 ≡ none)
                × IsWritten (update_found now saved id fn (some j) s).0
              ⊎ ((update_found now saved id fn (some j) s).1 ≢ none)
                × ((update_found now saved id fn (some j) s).0.file ≡ s.file))
    changed true j = (λ k. get-put s.jobs id k _, refl, inl (refl, refl))
    changed false j = (λ k. get-put s.jobs id k _, refl, inr (λ e. cc, refl))

abbrev pub cleared : Option Job → Option Job
cleared none = none
cleared (some j) = some (set_running none j)

get-clear_running : (d : Dict Job) (k : String) → get (clear_running d) k ≡ cleared (get d k)
unfolding get clear_running
get-clear_running [] k = refl
get-clear_running ((i, j) ∷ d) k = ground (arith, get-clear_running d k)

not_running : (d : Dict Job) (k : String) → any_running d ≡ false → cleared (get d k) ≡ get d k
unfolding get
not_running [] k h = refl
not_running ((i, j) ∷ d) k h = ground (arith, not_running d k)

-- After `ClearStaleRunning` every job is as before but marked as running nowhere, also when the
-- write fails.
pub clear_stale_running-outcome :
    (saved : Bool) (s : JobStore) (k : String)
    → get (clear_stale_running saved s).0.jobs k ≡ cleared (get s.jobs k)
unfolding clear_stale_running
clear_stale_running-outcome saved s k =
    ground (arith, get-clear_running s.jobs k, not_running s.jobs k)
