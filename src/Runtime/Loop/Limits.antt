-- ===== src/Runtime/Loop/Limits.antt =====
-- The limits of a turn: the tokens it uses and how often it asks the model
-- (internal/agent/runtime.go, `RunTurn`).
use eclaire.Prelude.{
  ◌≡◌, ◌≢◌, refl, sym, ap, ◌∙◌, ◌↔◌, ◌⊎◌, inl, inr, Option, none, some, ℕ, zero, suc, ◌+◌, ◌≤◌, ◌<◌,
  List, [], ◌∷◌, ltb, if◌then◌else◌, if-cases, arith,
}
use mathlib.Core.Path.{subst}
use eclaire.Prelude.Times.{ℤ, pos, negsuc}
use eclaire.Runtime.{ToolCall, Runtime, Setting, act, asked_model}
use eclaire.Runtime.Streams.{
  Usage, StreamPart, Reading, new_reading, Read, read_all, stream_error, read_stream,
}
use eclaire.Runtime.Turns.{
  FinishReason, end_turn, max_iterations, loop_detected, degenerate_output, consecutive_errors,
  token_budget, cancelled, Message, Turn, ModelLib, Calls, max_session_toks,
}
use eclaire.Runtime.Turns.Laws.{run_calls-Collected, run_calls-keep}
use eclaire.Runtime.Loop.{
  iterate, note_answer, add_step, with_answer, new_turn, run_turn, has_parts, after_read, streamed,
}
use eclaire.Runtime.Loop.Invariants.{StepHolds, EndHolds, turn-Holds}
use eclaire.Runtime.Loop.Reports.{
  asks, asks-append, called-Asks, Spent, move-Spent, reported, sum_of, ReadTells,
  read_stream-ReadTells,
}
use eclaire.Runtime.Loop.Rounds.{started, after_tools, with_answer-Holds, with_calls-Holds}

-- The answer's message changes neither the usage nor the runtime.
pub noted-Same :
    (r : Reading) (t : Turn)
    → let u = note_answer r t in (u.total_usage ≡ t.total_usage) × (u.runtime ≡ t.runtime)
unfolding note_answer
noted-Same r t =
    if-cases (λ (u : Turn). (u.total_usage ≡ t.total_usage) × (u.runtime ≡ t.runtime)) (has_parts r)
      _ _ (λ e. (refl, refl)) (λ e. (refl, refl))

-- The cap on the tokens of a turn: what is set, if it is positive, and else 2,000,000.
abbrev pub cap : ℤ → ℕ
cap (pos (suc n)) = suc n
cap (pos zero) = 2_000_000
cap (negsuc n) = 2_000_000

cap-is : (m : ℤ) → max_session_toks m ≡ cap m
unfolding max_session_toks
cap-is (pos zero) = refl
cap-is (pos (suc n)) = refl
cap-is (negsuc n) = refl

cap-Positive : (m : ℤ) → 0 < cap m
cap-Positive (pos zero) = omega arith
cap-Positive (pos (suc n)) = omega arith
cap-Positive (negsuc n) = omega arith

module _ (env : Setting) (model : ModelLib) (n : ℕ) where
  abbrev Within : Turn → Type 0
  Within t = Spent model n 0 t × (sum_of t.total_usage < cap env.max_session_tokens)

  -- Every request was answered, unless the turn was cancelled in the last one.
  abbrev pub Budgeted : FinishReason → Turn → Type 0
  Budgeted reason t =
      (Spent model n 0 t ⊎ ((reason ≡ cancelled) × Spent model n 1 t))
      × ((reason ≡ token_budget) ↔ (cap env.max_session_tokens ≤ sum_of t.total_usage))

  abbrev pub Failed : Turn → Type 0
  Failed t = Spent model n 1 t × (sum_of t.total_usage < cap env.max_session_tokens)

  unlimited :
      (reason : FinishReason) (t : Turn) → reason ≢ token_budget → Within t → Budgeted reason t
  unlimited reason t h (s, k) = (inl s, (λ e. absurd (h e), λ e. absurd (omega (arith, e, k))))

  move-Within :
      (t u : Turn)
      → asks u.runtime.actions ≡ asks t.runtime.actions
      → u.total_usage ≡ t.total_usage
      → Within t
      → Within u
  move-Within t u same usage (s, k) = (
    move-Spent model n 0 t u same usage s,
    subst (λ (v : Usage). v.input_tokens + v.output_tokens < cap env.max_session_tokens) (sym usage)
        k,
  )

  noted-Within : (r : Reading) (t : Turn) → Within t → Within (note_answer r t)
  noted-Within r t =
      let k = noted-Same r t in
      move-Within t (note_answer r t) (ap (λ (rt : Runtime). asks rt.actions) k.1) k.0

  calls-Within :
      (tcs : List ToolCall) (t : Turn) → Within t → Within (after_tools (started env tcs t).0)
  calls-Within tcs t =
      let c : Calls = record { parts = []; result_map = []; turn = t } in
      move-Within t (after_tools (started env tcs t).0)
        (run_calls-keep env (λ (rt : Runtime). asks rt.actions ≡ asks t.runtime.actions)
          (λ tc rt h. called-Asks env tc rt ∙ h) tcs c refl)
        (run_calls-Collected env tcs c).0.2

  answered-Within :
      (r : Reading) (t : Turn)
      → Spent model n 0 t
      → StepHolds Within Budgeted Failed (with_answer env model r t)
  answered-Within r t s =
      let m = cap-is env.max_session_tokens in
      with_answer-Holds env model Within Budgeted Failed r t
        (λ over. (inl s, (λ e. omega (arith, over, m), λ e. refl)))
        (λ under.
          let w : Within t = (s, omega (arith, under, m)) in
          let noted = noted-Within r t w in
          (
            unlimited degenerate_output t (λ e. cc) w,
            with_calls-Holds env model Within Budgeted Failed r.pending (note_answer r t)
                (λ e. unlimited end_turn (note_answer r t) (λ f. cc) noted)
                (λ tc tcs e.
                  let u = after_tools (started env (tc ∷ tcs) (note_answer r t)).0 in
                  let v = calls-Within (tc ∷ tcs) (note_answer r t) noted in
                  (
                    λ f. unlimited consecutive_errors u (λ g. cc) v,
                    λ f history. (
                      move-Within u (record u { loop_history = history }) refl refl v,
                      unlimited loop_detected (record u { loop_history = history }) (λ g. cc)
                          (move-Within u (record u { loop_history = history }) refl refl v),
                    ),
                  )),
          ))

  -- The answer that was read adds its tokens.
  added-Spent :
      (t : Turn) (parts : List StreamPart) (r : Reading) (rt : Runtime)
      → Spent model n 0 t
      → model.stream t.runtime.actions t.messages ≡ some parts
      → asks rt.actions ≡ suc (asks t.runtime.actions)
      → sum_of r.step_usage ≡ reported parts 0
      → Spent model n 0 (add_step r rt t)
  unfolding add_step
  added-Spent t parts r rt s e asked usage = record {
    answers = record { past = t.runtime.actions; prompt = t.messages; parts = parts } ∷ s.answers;
    told = (e, s.asked ∙ omega arith, s.told);
    asked = omega (arith, asked, s.asked);
    summed = omega (arith, s.summed, usage);
  }

  read-Within :
      (t : Turn) (parts : List StreamPart) (x : Read)
      → Within t
      → model.stream t.runtime.actions t.messages ≡ some parts
      → ReadTells (reported parts 0) (act asked_model t.runtime) x
      → StepHolds Within Budgeted Failed
          (after_read env model x (record t { runtime = act asked_model t.runtime }))
  unfolding after_read add_step
  read-Within t parts (stream_error error rt) (s, k) e told = (
    record {
      answers = s.answers;
      told = s.told;
      asked =
          omega (arith, ap asks told, s.asked, asks-append t.runtime.actions (asked_model ∷ []));
      summed = s.summed;
    },
    k,
  )
  read-Within t parts (read_all r rt) (s, k) e (usage, same) =
      let asked : asks rt.actions ≡ suc (asks t.runtime.actions) =
        omega (arith, ap asks same, asks-append t.runtime.actions (asked_model ∷ [])) in
      let next = added-Spent t parts r rt s e asked usage in
      answered-Within r (add_step r rt (record t { runtime = act asked_model t.runtime })) (
        move-Spent model n 0 (add_step r rt t)
          (add_step r rt (record t { runtime = act asked_model t.runtime })) refl refl next)

  unread :
      (t : Turn)
      → Spent model n 0 t
      → Spent model n 1 (record t { runtime = act asked_model t.runtime })
  unread t s = record {
    answers = s.answers;
    told = s.told;
    asked = omega (arith, s.asked, asks-append t.runtime.actions (asked_model ∷ []));
    summed = s.summed;
  }

  streamed-Within :
      (t : Turn) (o : Option (List StreamPart))
      → Within t
      → model.stream t.runtime.actions t.messages ≡ o
      → StepHolds Within Budgeted Failed
          (streamed env model o (record t { runtime = act asked_model t.runtime }))
  unfolding streamed
  streamed-Within t none (s, k) e =
      let u : Turn = record t { runtime = act asked_model t.runtime } in
      if-cases (StepHolds Within Budgeted Failed) (model.is_cancelled u.runtime.actions) _ _
        (λ f. (inr (refl, unread t s), (λ g. cc, λ g. absurd (omega (arith, g, k)))))
        (λ f. (unread t s, k))
  streamed-Within t (some parts) w e =
      let u : Turn = record t { runtime = act asked_model t.runtime } in
      read-Within t parts (read_stream parts new_reading u.runtime) w e
        (read_stream-ReadTells parts new_reading u.runtime)

  step-Within : (t : Turn) → Within t → StepHolds Within Budgeted Failed (iterate env model t)
  unfolding iterate
  step-Within t w =
      if-cases (StepHolds Within Budgeted Failed) (model.is_cancelled t.runtime.actions) _ _
        (λ e. unlimited cancelled t (λ f. cc) w)
        (λ e. streamed-Within t (model.stream t.runtime.actions t.messages) w refl)

  last-Within :
      (t : Turn)
      → Within t
      → Budgeted (if ltb 0 t.total_tool_calls then max_iterations else end_turn) t
  last-Within t h =
      if-cases (λ (reason : FinishReason). Budgeted reason t) (ltb 0 t.total_tool_calls) _ _
        (λ e. unlimited max_iterations t (λ f. cc) h) (λ e. unlimited end_turn t (λ f. cc) h)

-- The tokens of a turn are the input and output tokens that the model reported in the answers to the
-- turn's requests, each counted once. The turn ends for its token budget exactly when they reach the
-- cap, which is 2,000,000 where no positive one is set; where the stream fails they are below it. Only
-- the request in which the turn is cancelled or its stream fails goes without an answer.
pub run_turn-Budgeted :
    (env : Setting) (model : ModelLib) (rt : Runtime) (messages : List Message)
    → EndHolds
        (Budgeted env model (asks rt.actions))
        (Failed env model (asks rt.actions))
        (run_turn env model rt messages)
run_turn-Budgeted env model rt messages =
    let n = asks rt.actions in
    turn-Holds env model (Within env model n) (Budgeted env model n) (Failed env model n)
      (step-Within env model n) (last-Within env model n) rt messages
      (step-Within env model n (new_turn rt messages) (
        record { answers = []; told = tt; asked = omega arith; summed = refl },
        cap-Positive env.max_session_tokens,
      ))
