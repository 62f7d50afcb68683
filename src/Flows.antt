-- ===== src/Flows.antt =====
-- The data of flows (internal/agent/flow.go) and the store of their runs (internal/agent/flowstore.go,
-- `FlowStore`). A run's `Error` is kept as what its text is made of. `cutoff` is the instant 30 days
-- before the call, and `saved` the answer of the file system to a write, which replaces the file whole.
pub mod Run
pub mod Store
mod Tests
use eclaire.Prelude.{
  ℕ, suc, Bool, true, false, not, ◌&&◌, Option, none, some, List, [], ◌∷◌, String, ltb,
  if◌then◌else◌,
}
use eclaire.Prelude.Times.{Time, after, before}
use eclaire.Prelude.Dict.{Dict, get, put, values}
use eclaire.Prelude.Sorting.{sort_by}

pub record FlowStep : Type 0 where
  pub name : String
  pub agent : String
  pub prompt : String

pub record FlowDef : Type 0 where
  pub id : String
  pub name : String
  pub description : String
  pub steps : List FlowStep

pub data FlowStatus : Type 0 where
  running completed failed : FlowStatus

pub data FlowError : Type 0 where
  agent_not_found template_error : ℕ → FlowStep → FlowError
  run_error : ℕ → FlowStep → String → FlowError
  gateway_restarted : FlowError

pub record FlowRun : Type 0 where
  pub id : String
  pub flow_def : FlowDef
  pub status : FlowStatus
  pub current_step : ℕ
  pub step_outputs : List String
  pub input : String
  pub error : Option FlowError
  pub created_at : Time

pub record FlowStore : Type 0 where
  pub runs : Dict FlowRun
  pub file : Option (List FlowRun)

abbrev pub is_running : FlowStatus → Bool
is_running FlowStatus.running = true
is_running _ = false

abbrev pub expired : Time → FlowRun → Bool
expired cutoff r = not (is_running r.status) && before r.created_at cutoff

unfoldable pub prune : Time → Dict FlowRun → Dict FlowRun
prune cutoff [] = []
prune cutoff ((k, r) ∷ d) = if expired cutoff r then prune cutoff d else (k, r) ∷ prune cutoff d

abbrev pub older : FlowRun → FlowRun → Bool
older a b = before a.created_at b.created_at

-- `save` of the source, which prunes before it writes
unfoldable pub write : Time → Bool → FlowStore → FlowStore × Bool
write cutoff saved s =
    let runs = prune cutoff s.runs in
    (
      record { runs = runs; file = if saved then some (sort_by older (values runs)) else s.file },
      saved,
    )

unfoldable pub save : Time → Bool → FlowRun → FlowStore → FlowStore × Bool
unfolding write
save cutoff saved run s = write cutoff saved (record s { runs = put s.runs run.id run })

load_into : Dict FlowRun → List FlowRun → Dict FlowRun
load_into d [] = d
load_into d (r ∷ rs) = load_into (put d r.id r) rs

unfoldable pub new_flow_store : Option (List FlowRun) → FlowStore
unfolding load_into
new_flow_store none = record { runs = []; file = none }
new_flow_store (some rs) = record { runs = load_into [] rs; file = some rs }

pub list : FlowStore → List FlowRun
list s = sort_by (λ a b. after a.created_at b.created_at) (values s.runs)

abbrev pub stale : FlowRun → FlowRun
stale r =
    if is_running r.status
    then record r { status = FlowStatus.failed; error = some gateway_restarted }
    else r

unfoldable pub fail_running : Dict FlowRun → Dict FlowRun
fail_running [] = []
fail_running ((k, r) ∷ d) = (k, stale r) ∷ fail_running d

unfoldable pub running_count : Dict FlowRun → ℕ
running_count [] = 0
running_count ((k, r) ∷ d) = if is_running r.status then suc (running_count d) else running_count d

unfoldable pub clear_stale_running : Time → Bool → FlowStore → FlowStore × ℕ
unfolding write
clear_stale_running cutoff saved s =
    let n = running_count s.runs in
    let t = record s { runs = fail_running s.runs } in
    (if ltb 0 n then (write cutoff saved t).0 else t, n)
