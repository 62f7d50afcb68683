-- ===== src/Flows/Run.antt =====
-- The execution of a flow (internal/agent/flow.go, `FlowExecutor.Run`). What the agents answer, the
-- templates and the disk are given as functions: `runner` answers the step of an index, `template`
-- is `templatePrompt`, `disk` tells whether the run store could be written. The human-readable
-- text of the stream events is left out, and so are the events of the agents' own runs.
pub mod Trace
use eclaire.Prelude.{
  ℕ, zero, suc, Bool, true, false, Option, none, some, List, [], ◌∷◌, ◌++◌, String, ◌==◌,
  if◌then◌else◌, length,
}
use eclaire.Prelude.Text.{text_append, decimal}
use eclaire.Prelude.Times.{Time}
use eclaire.Tasks.{Tasks, TaskStatus, create, set_flow_id, set_session_id, update_status}
use eclaire.Flows.{
  FlowStep, FlowDef, FlowStatus, FlowError, agent_not_found, template_error, run_error, FlowRun,
  FlowStore, save,
}

pub data RunResult : Type 0 where
  finished : String → String → RunResult
  broken : String → RunResult

pub data FlowEvent : Type 0 where
  flow_started : String → String → ℕ → FlowEvent
  flow_completed : String → String → FlowStatus → Option FlowError → FlowEvent

pub data StreamEvent : Type 0 where
  started completed : StreamEvent
  step_started step_completed : String → StreamEvent

pub record Setting : Type 0 where
  pub now : Time
  pub cutoff : Time
  pub known_agent : String → Bool
  pub template : String → String → String → Option String
  pub runner : ℕ → String → String → RunResult
  pub disk : FlowRun → Bool

pub record World : Type 0 where
  pub tasks : Tasks
  pub store : Option FlowStore
  pub published : List FlowEvent
  pub emitted : List StreamEvent

pub data StepOutcome : Type 0 where
  aborted : FlowRun → World → StepOutcome
  advanced : FlowRun → World → String → StepOutcome

abbrev publish : FlowEvent → World → World
publish e w = record w { published = w.published ++ e ∷ [] }

abbrev emit : StreamEvent → World → World
emit e w = record w { emitted = w.emitted ++ e ∷ [] }

abbrev pub fail_run : FlowError → FlowRun → FlowRun
fail_run e run = record run { status = FlowStatus.failed; error = some e }

module _ (env : Setting) where
  saved_in : FlowRun → Option FlowStore → Option FlowStore
  saved_in run none = none
  saved_in run (some s) = some (save env.cutoff (env.disk run) run s).0

  -- A failed write is logged only.
  unfoldable save_run : FlowRun → World → World
  unfolding saved_in
  save_run run w = record w { store = saved_in run w.store }

  -- fmt.Sprintf("%s_step_%d", flowID, i)
  abbrev step_task : String → ℕ → String
  step_task flow i = text_append flow (text_append "_step_" (decimal i))

  abbrev set_status : String → TaskStatus → String → String → World → World
  set_status id status output error w = record w {
    tasks = (update_status env.now id status output error w.tasks).0;
  }

  unfoldable create_task : String → String → String → String → World → World
  create_task flow id agent prompt w =
      set_status id TaskStatus.running "" ""
        (record w { tasks = set_flow_id id flow (create env.now id agent prompt w.tasks) })

  abbrev note_session : String → String → World → World
  note_session id session w =
      if session == "" then w else record w { tasks = set_session_id id session w.tasks }

  abort : FlowError → FlowRun → World → StepOutcome
  unfolding save_run
  abort e run w = aborted (fail_run e run) (save_run (fail_run e run) w)

  after_agent : ℕ → FlowStep → String → FlowRun → World → RunResult → StepOutcome
  unfolding save_run
  after_agent i step task run w (broken message) =
      let run' = fail_run (run_error i step message) run in
      aborted run' (
        publish (flow_completed run.id run.flow_def.name FlowStatus.failed run'.error)
          (save_run run' (set_status task TaskStatus.failed "" message w)))
  after_agent i step task run w (finished output session) =
      let run' = record run { step_outputs = run.step_outputs ++ output ∷ [] } in
      advanced run'
        (emit (step_completed step.agent) (
          save_run run'
            (note_session task session (set_status task TaskStatus.completed output "" w))))
        output

  with_prompt : ℕ → FlowStep → FlowRun → World → Option String → StepOutcome
  unfolding abort after_agent create_task
  with_prompt i step run w none = abort (template_error i step) run w
  with_prompt i step run w (some prompt) =
      let task = step_task run.id i in
      after_agent i step task run
        (emit (step_started step.agent) (create_task run.id task step.agent prompt w))
        (env.runner i step.agent prompt)

  unfoldable run_step : ℕ → FlowStep → String → FlowRun → World → StepOutcome
  unfolding abort with_prompt
  run_step i step prev run w =
      let run' = record run { current_step = i } in
      if env.known_agent step.agent
      then with_prompt i step run' w (env.template step.prompt run.input prev)
      else abort (agent_not_found i step) run' w

  finish : FlowRun → World → World × FlowRun
  unfolding save_run
  finish run w =
      let run' = record run { status = FlowStatus.completed } in
      (
        emit StreamEvent.completed (
            publish (flow_completed run.id run.flow_def.name FlowStatus.completed none)
              (save_run run' w)),
        run',
      )

  unfoldable run_steps : ℕ → List FlowStep → String → FlowRun → World → World × FlowRun
  unfolding run_step finish
  run_steps i [] prev run w = finish run w
  run_steps i (step ∷ steps) prev run w = elim (run_step i step prev run w) [
    | aborted run' w' ↦ (w', run')
    | advanced run' w' output ↦ run_steps (suc i) steps output run' w'
  ]

  -- `id` is the fresh identifier of the run. An error is returned exactly when the run has failed.
  unfoldable pub run_flow : String → FlowDef → String → World → World × FlowRun
  unfolding run_steps save_run
  run_flow id def input w =
      let run : FlowRun = record {
        id = id;
        flow_def = def;
        status = FlowStatus.running;
        current_step = 0;
        step_outputs = [];
        input = input;
        error = none;
        created_at = env.now;
      } in
      run_steps 0 def.steps "" run (
        emit StreamEvent.started
          (publish (flow_started id def.name (length def.steps)) (save_run run w)))
