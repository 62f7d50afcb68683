-- ===== src/Flows/Run/Trace.antt =====
-- What a flow run has done when it ends (internal/agent/flow.go, `FlowExecutor.Run`).
use eclaire.Prelude.{
  ℕ, suc, ◌+◌, ◌≡◌, refl, sym, ap, ◌∙◌, ◌⊎◌, true, some, List, [], ◌∷◌, ◌++◌, String, arith, inl,
  inr, length, Bool-cases, Option-cases,
}
use mathlib.Core.List.{append_assoc, append-nil}
use eclaire.Flows.{FlowStep, FlowDef, FlowStatus, FlowRun}
use eclaire.Flows.Run.{
  Setting, World, RunResult, finished, broken, StepOutcome, aborted, advanced, after_agent,
  with_prompt, run_step, abort, finish, run_steps, run_flow,
}

module _ (env : Setting) (input : String) where
  -- The steps from index `i` on, each prompted with the output of the one before (`prev` at first),
  -- have given these outputs.
  pub data IsTrace : ℕ → String → List FlowStep → List String → Type 0 where
    nothing_done : (i : ℕ) (prev : String) → IsTrace i prev [] []
    step_done :
        (i : ℕ) (prev : String) (step : FlowStep) (steps : List FlowStep)
        (prompt output session : String) (outputs : List String)
        → env.known_agent step.agent ≡ true
        → env.template step.prompt input prev ≡ some prompt
        → env.runner i step.agent prompt ≡ finished output session
        → IsTrace (suc i) output steps outputs
        → IsTrace i prev (step ∷ steps) (output ∷ outputs)

  -- What a step has done to the run, before it is known how the flow goes on.
  pub data Stepped (i : ℕ) (prev : String) (step : FlowStep) (run : FlowRun)
      : StepOutcome → Type 0 where
    stepped_out :
        (run' : FlowRun) (w : World)
        → run'.status ≡ FlowStatus.failed
        → run'.current_step ≡ i
        → run'.step_outputs ≡ run.step_outputs
        → Stepped i prev step run (aborted run' w)
    stepped_on :
        (run' : FlowRun) (w : World) (prompt output session : String)
        → env.known_agent step.agent ≡ true
        → env.template step.prompt input prev ≡ some prompt
        → env.runner i step.agent prompt ≡ finished output session
        → run'.input ≡ input
        → run'.step_outputs ≡ run.step_outputs ++ output ∷ []
        → Stepped i prev step run (advanced run' w output)

  agent-Stepped :
      (i : ℕ) (prev : String) (step : FlowStep) (run base : FlowRun) (task prompt : String)
      (w : World) (r : RunResult)
      → env.known_agent step.agent ≡ true
      → env.template step.prompt input prev ≡ some prompt
      → env.runner i step.agent prompt ≡ r
      → run.current_step ≡ i
      → run.input ≡ input
      → run.step_outputs ≡ base.step_outputs
      → Stepped i prev step base (after_agent env i step task run w r)
  unfolding after_agent
  agent-Stepped i prev step run base task prompt w (broken message) a t r c n o =
      stepped_out _ _ refl c o
  agent-Stepped i prev step run base task prompt w (finished output session) a t r c n o =
      stepped_on _ _ prompt output session a t r n (ap (λ os. os ++ output ∷ []) o)

  step-Stepped :
      (i : ℕ) (prev : String) (step : FlowStep) (run : FlowRun) (w : World)
      → run.input ≡ input
      → Stepped i prev step run (run_step env i step prev run w)
  unfolding run_step with_prompt abort
  step-Stepped i prev step run w n = elim (Bool-cases (env.known_agent step.agent)) [
    | inr e ↦ rw e (stepped_out _ _ refl refl refl)
    | inl e ↦ elim (Option-cases (env.template step.prompt run.input prev)) [
      | inl f ↦ rw (e, f) (stepped_out _ _ refl refl refl)
      | inr (prompt, f) ↦
          rw (e, f) (agent-Stepped i prev step _ run _ prompt _ _ e (rw n at f) refl refl n refl)
    ]
  ]

  -- The outputs of the steps, and how the run ended: all of the steps were done, or a proper part of
  -- them was and the run stands at the first that was not.
  pub data Ended (i : ℕ) (prev : String) (steps : List FlowStep) (before : List String)
      (run : FlowRun) : Type 0 where
    all_done :
        (outputs : List String)
        → run.status ≡ FlowStatus.completed
        → run.step_outputs ≡ before ++ outputs
        → IsTrace i prev steps outputs
        → Ended i prev steps before run
    stopped_at :
        (outputs : List String) (part rest : List FlowStep) (step : FlowStep)
        → run.status ≡ FlowStatus.failed
        → run.current_step ≡ i + length outputs
        → run.step_outputs ≡ before ++ outputs
        → steps ≡ part ++ step ∷ rest
        → IsTrace i prev part outputs
        → Ended i prev steps before run

  one_more :
      (i : ℕ) (prev : String) (step : FlowStep) (steps : List FlowStep) (os os' : List String)
      (run : FlowRun) (prompt output session : String)
      → env.known_agent step.agent ≡ true
      → env.template step.prompt input prev ≡ some prompt
      → env.runner i step.agent prompt ≡ finished output session
      → os' ≡ os ++ output ∷ []
      → Ended (suc i) output steps os' run
      → Ended i prev (step ∷ steps) os run
  one_more i prev step steps os os' run prompt output session a t r e (all_done outputs s o x) =
      all_done (output ∷ outputs) s (o ∙ ap (λ l. l ++ outputs) e ∙ append_assoc os _ _)
        (step_done i prev step steps prompt output session outputs a t r x)
  one_more i prev step steps os os' run prompt output session a t r e
        (stopped_at outputs part rest at s c o p x) =
      stopped_at (output ∷ outputs) (step ∷ part) rest at s (omega (arith, c))
        (o ∙ ap (λ l. l ++ outputs) e ∙ append_assoc os _ _) (ap (λ l. step ∷ l) p)
        (step_done i prev step part prompt output session outputs a t r x)

  cases :
      {i : ℕ} {prev : String} {step : FlowStep} {run : FlowRun} (r : StepOutcome)
      → Stepped i prev step run r
      → ((run' : FlowRun) × (w : World) × (r ≡ aborted run' w)
          × (run'.status ≡ FlowStatus.failed)
          × (run'.current_step ≡ i)
          × (run'.step_outputs ≡ run.step_outputs))
        ⊎ ((run' : FlowRun) × (w : World) × (prompt : String) × (output : String)
            × (session : String) × (r ≡ advanced run' w output)
            × (env.known_agent step.agent ≡ true)
            × (env.template step.prompt input prev ≡ some prompt)
            × (env.runner i step.agent prompt ≡ finished output session)
            × (run'.input ≡ input)
            × (run'.step_outputs ≡ run.step_outputs ++ output ∷ []))
  cases _ (stepped_out run' w s c o) = inl (run', w, refl, s, c, o)
  cases _ (stepped_on run' w p output q a t r n o) =
      inr (run', w, p, output, q, refl, a, t, r, n, o)

  steps-Ended :
      (i : ℕ) (steps : List FlowStep) (prev : String) (run : FlowRun) (w : World)
      → run.input ≡ input
      → Ended i prev steps run.step_outputs (run_steps env i steps prev run w).1
  unfolding run_steps finish
  steps-Ended i [] prev run w n = all_done [] refl (sym (append-nil _)) (nothing_done i prev)
  steps-Ended i (step ∷ steps) prev run w n =
      elim (cases (run_step env i step prev run w) (step-Stepped i prev step run w n)) [
        | inl (run', w', same, failed, at, o) ↦
            rw (same, run_steps)
              (stopped_at [] [] steps step failed (omega (arith, at)) (o ∙ sym (append-nil _)) refl
                (nothing_done i prev))
        | inr (run', w', prompt, output, session, same, a, t, r, n', o) ↦
            rw (same, run_steps)
              (one_more i prev step steps run.step_outputs _ _ prompt output session a t r o
                (steps-Ended (suc i) steps output run' w' n'))
      ]

  -- A flow run ends: either as completed, when each step's agent was known, its template held and its
  -- agent answered, prompted with the output of the step before; or as failed, standing at a step, when
  -- that holds of the steps before it, and their outputs are the run's.
  pub run_flow-Ended :
      (id : String) (def : FlowDef) (w : World)
      → Ended 0 "" def.steps [] (run_flow env id def input w).1
  unfolding run_flow
  run_flow-Ended id def w = steps-Ended 0 def.steps "" _ _ refl
