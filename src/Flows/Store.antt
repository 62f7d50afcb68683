-- ===== src/Flows/Store.antt =====
-- The store of flow runs (internal/agent/flowstore.go).
use eclaire.Prelude.{
  ◌≡◌, refl, Bool, false, some, [], ◌∷◌, String, ◌==◌, arith, ltb, if◌then◌else◌, Bool-cases, inl,
  inr, All,
}
use eclaire.Prelude.Times.{Time}
use eclaire.Prelude.Dict.{Dict, get, put, get-put, values}
use eclaire.Prelude.Sorting.{sort_by}
use eclaire.Flows.{
  FlowRun, FlowStore, is_running, expired, prune, older, write, save, stale, fail_running,
  running_count, clear_stale_running,
}

prune-All :
    (cutoff : Time) (d : Dict FlowRun) → All (λ e. expired cutoff e.1 ≡ false) (prune cutoff d)
unfolding prune
prune-All cutoff [] = tt
prune-All cutoff ((k, r) ∷ d) = elim (Bool-cases (expired cutoff r)) [
  | inl e ↦ rw e (prune-All cutoff d)
  | inr e ↦ rw e (e, prune-All cutoff d)
]

get-prune :
    (cutoff : Time) (d : Dict FlowRun) (k : String) (r : FlowRun)
    → get d k ≡ some r
    → expired cutoff r ≡ false
    → get (prune cutoff d) k ≡ some r
unfolding get prune
get-prune cutoff [] k r h e = cc
get-prune cutoff ((j, q) ∷ d) k r h e = ground (arith, h, e, get-prune cutoff d k r)

-- `Save` keeps every run that is still going or not older than the cutoff, the saved one included,
-- and no other; and the file then holds the runs of the map, or is as before if it cannot be written.
pub save-outcome :
    (cutoff : Time) (saved : Bool) (run : FlowRun) (s : FlowStore)
    → let t = (save cutoff saved run s).0 in
      All (λ e. expired cutoff e.1 ≡ false) t.runs
      × ((k : String) (r : FlowRun)
          → (if run.id == k then some run else get s.runs k) ≡ some r
          → expired cutoff r ≡ false
          → get t.runs k ≡ some r)
      × (t.file ≡ (if saved then some (sort_by older (values t.runs)) else s.file))
unfolding save write
save-outcome cutoff saved run s = (
  prune-All cutoff (put s.runs run.id run),
  λ k r h e. get-prune cutoff _ k r (ground (arith, h, get-put s.runs run.id k run)) e,
  refl,
)

All-failed : (d : Dict FlowRun) → All (λ e. is_running e.1.status ≡ false) (fail_running d)
unfolding fail_running
All-failed [] = tt
All-failed ((k, r) ∷ d) = (ground arith, All-failed d)

All-prune :
    (cutoff : Time) (d : Dict FlowRun)
    → All (λ e. is_running e.1.status ≡ false) d
    → All (λ e. is_running e.1.status ≡ false) (prune cutoff d)
unfolding prune
All-prune cutoff [] h = tt
All-prune cutoff ((k, r) ∷ d) h = elim (Bool-cases (expired cutoff r)) [
  | inl e ↦ rw e (All-prune cutoff d h.1)
  | inr e ↦ rw e (h.0, All-prune cutoff d h.1)
]

get-fail_running :
    (d : Dict FlowRun) (k : String) (r : FlowRun)
    → get d k ≡ some r
    → get (fail_running d) k ≡ some (stale r)
unfolding get fail_running
get-fail_running [] k r h = cc
get-fail_running ((j, q) ∷ d) k r h = ground (arith, h, get-fail_running d k r)

-- After a restart no run is going on: those that were are failed, and a run that had ended and is not
-- older than the cutoff is as before.
pub clear_stale_running-ended :
    (cutoff : Time) (saved : Bool) (s : FlowStore)
    → let t = (clear_stale_running cutoff saved s).0 in
      All (λ e. is_running e.1.status ≡ false) t.runs
      × ((k : String) (r : FlowRun)
          → get s.runs k ≡ some r
          → expired cutoff (stale r) ≡ false
          → get t.runs k ≡ some (stale r))
unfolding clear_stale_running write
clear_stale_running-ended cutoff saved s = elim (Bool-cases (ltb 0 (running_count s.runs))) [
  | inl e ↦ rw e (
    All-prune cutoff _ (All-failed s.runs),
    (λ k r h f. get-prune cutoff _ k (stale r) (get-fail_running s.runs k r h) f),
  )
  | inr e ↦ rw e (All-failed s.runs, (λ k r h f. get-fail_running s.runs k r h))
]
