-- ===== src/Jobs/Store/Invariant.antt =====
-- The well-formedness of the job map: each job stands under its own ID, once. Every operation of
-- the store (internal/agent/jobstore.go) keeps it.
use eclaire.Prelude.{
  Bool, true, false, Option, none, some, List, [], ◌∷◌, String, ◌==◌, eq_iff, ◌≡◌, refl, ◌∙◌, inl,
  inr, arith, Bool-cases, Option-cases,
}
use eclaire.Prelude.Times.{Time}
use eclaire.Prelude.Dict.{Dict, get, put, remove, get-put, get-remove}
use eclaire.Jobs.{Job, TimeLib}
use eclaire.Jobs.Schedule.{NextRun, next, failed, compute_next_run}
use eclaire.Jobs.Store.{
  JobStore, add, remove_job, update, insert_scheduled, remove_found, update_found, clear_running,
  clear_stale_running, stamped, with_next, load_into, new_job_store,
}

abbrev pub IsStore : Dict Job → Type 0
IsStore [] = Unit
IsStore ((k, j) ∷ d) = (j.id ≡ k) × (get d k ≡ none) × IsStore d

put-IsStore : (d : Dict Job) (k : String) (j : Job) → j.id ≡ k → IsStore d → IsStore (put d k j)
unfolding put get
put-IsStore [] k j e h = (e, refl, tt)
put-IsStore ((i, w) ∷ d) k j e h = elim (Bool-cases (i == k)) [
  | inl same ↦ rw same (e, ground (arith, eq_iff i k), h.2)
  | inr other ↦
      rw other
        (h.0, ground (arith, get-put d k i j, eq_iff i k, eq_iff k i), put-IsStore d k j e h.2)
]

remove-IsStore : (d : Dict Job) (k : String) → IsStore d → IsStore (remove d k)
unfolding remove get
remove-IsStore [] k h = h
remove-IsStore ((i, w) ∷ d) k h = elim (Bool-cases (i == k)) [
  | inl same ↦ rw same (remove-IsStore d k h.2)
  | inr other ↦ rw other (h.0, ground (arith, get-remove d k i), remove-IsStore d k h.2)
]

get-id : (d : Dict Job) (k : String) (j : Job) → IsStore d → get d k ≡ some j → j.id ≡ k
unfolding get
get-id [] k j h e = cc
get-id ((i, w) ∷ d) k j h e = ground (arith, eq_iff i k, get-id d k j h.2)

get-none-clear : (d : Dict Job) (k : String) → get d k ≡ none → get (clear_running d) k ≡ none
unfolding get clear_running
get-none-clear [] k h = refl
get-none-clear ((i, w) ∷ d) k h = ground (arith, get-none-clear d k)

clear-IsStore : (d : Dict Job) → IsStore d → IsStore (clear_running d)
unfolding clear_running
clear-IsStore [] h = h
clear-IsStore ((i, w) ∷ d) h = (h.0, get-none-clear d i h.1, clear-IsStore d h.2)

load-IsStore : (d : Dict Job) (js : List Job) → IsStore d → IsStore (load_into d js)
unfolding load_into
load-IsStore d [] h = h
load-IsStore d (j ∷ js) h = load-IsStore (put d j.id j) js (put-IsStore d j.id j refl h)

-- Whatever the file holds, the map that `NewJobStore` loads has each job under its own ID, once.
pub new_job_store-IsStore : (file : Option (List Job)) → IsStore (new_job_store file).jobs
unfolding new_job_store
new_job_store-IsStore none = tt
new_job_store-IsStore (some js) = load-IsStore [] js tt

insert-IsStore :
    (saved : Bool) (j : Job) (r : NextRun) (s : JobStore)
    → IsStore s.jobs
    → IsStore (insert_scheduled saved j r s).0.jobs
unfolding insert_scheduled
insert-IsStore saved j (failed e) s h = h
insert-IsStore true j (next t) s h = put-IsStore s.jobs j.id (with_next t j) refl h
insert-IsStore false j (next t) s h =
    remove-IsStore (put s.jobs j.id (with_next t j)) j.id
      (put-IsStore s.jobs j.id (with_next t j) refl h)

add-IsStore :
    (lib : TimeLib) (fresh : String) (now : Time) (saved : Bool) (j : Job) (s : JobStore)
    → IsStore s.jobs
    → IsStore (add lib fresh now saved j s).0.jobs
unfolding add
add-IsStore lib fresh now saved j s h = elim (Option-cases (get s.jobs (stamped fresh now j).id)) [
  | inl absent ↦
      rw absent
        (insert-IsStore saved (stamped fresh now j) (compute_next_run lib j.schedule now none) s h)
  | inr (old, present) ↦ rw present h
]

remove-found-IsStore :
    (saved : Bool) (id : String) (o : Option Job) (s : JobStore)
    → get s.jobs id ≡ o
    → IsStore s.jobs
    → IsStore (remove_found saved id o s).0.jobs
unfolding remove_found
remove-found-IsStore saved id none s e h = h
remove-found-IsStore true id (some j) s e h = remove-IsStore s.jobs id h
remove-found-IsStore false id (some j) s e h =
    put-IsStore (remove s.jobs id) id j (get-id s.jobs id j h e) (remove-IsStore s.jobs id h)

update-found-IsStore :
    (now : Time) (saved : Bool) (id : String) (fn : Job → Job)
    (keeps : (j : Job) → (fn j).id ≡ j.id) (o : Option Job) (s : JobStore)
    → get s.jobs id ≡ o
    → IsStore s.jobs
    → IsStore (update_found now saved id fn o s).0.jobs
unfolding update_found
update-found-IsStore now saved id fn keeps none s e h = h
update-found-IsStore now true id fn keeps (some j) s e h =
    put-IsStore s.jobs id _ (keeps j ∙ get-id s.jobs id j h e) h
update-found-IsStore now false id fn keeps (some j) s e h =
    put-IsStore s.jobs id _ (keeps j ∙ get-id s.jobs id j h e) h

clearing-IsStore :
    (saved : Bool) (s : JobStore) → IsStore s.jobs → IsStore (clear_stale_running saved s).0.jobs
unfolding clear_stale_running
clearing-IsStore saved s h = ground (arith, clear-IsStore s.jobs h)

-- From a store that has each job under its own ID, once, adding, removing, updating by a function
-- that keeps the ID, and clearing the running marks lead to such a store, whether they succeed or
-- fail.
pub operations-IsStore :
    (lib : TimeLib) (fresh : String) (now : Time) (saved : Bool) (j : Job) (id : String)
    (fn : Job → Job) (s : JobStore)
    → ((w : Job) → (fn w).id ≡ w.id)
    → IsStore s.jobs
    → IsStore (add lib fresh now saved j s).0.jobs
      × IsStore (remove_job saved id s).0.jobs
      × IsStore (update now saved id fn s).0.jobs
      × IsStore (clear_stale_running saved s).0.jobs
unfolding remove_job update
operations-IsStore lib fresh now saved j id fn s keeps h = (
  add-IsStore lib fresh now saved j s h,
  remove-found-IsStore saved id (get s.jobs id) s refl h,
  update-found-IsStore now saved id fn keeps (get s.jobs id) s refl h,
  clearing-IsStore saved s h,
)
