-- ===== src/Flows/Tests.antt =====
-- Small flows on which the theorems are tried.
use eclaire.Prelude.{true, none, some, [], ◌∷◌, ◌==◌}
use eclaire.Flows.{FlowStep, FlowDef}
use eclaire.Flows.Run.{Setting, World, finished, run_flow}
use eclaire.Flows.Run.Trace.{Ended, run_flow-Ended}

abbrev env : Setting
env = record {
  now = 100;
  cutoff = 50;
  known_agent = λ a. a == "coding";
  template = λ prompt input prev. some prompt;
  runner = λ i agent prompt. finished prompt "";
  disk = λ _. true;
}

abbrev world : World
world = record { tasks = []; store = none; published = []; emitted = [] }

abbrev good : FlowStep
good = record { name = "build"; agent = "coding"; prompt = "build it" }

abbrev bad : FlowStep
bad = record { name = "ship"; agent = "nobody"; prompt = "ship it" }

abbrev flow : FlowDef
flow = record { id = "f"; name = "Release"; description = ""; steps = good ∷ bad ∷ [] }

run_flow-Ended_example :
    Ended env "now" 0 "" (good ∷ bad ∷ []) [] (run_flow env "f1" flow "now" world).1
run_flow-Ended_example = run_flow-Ended env "now" "f1" flow world
