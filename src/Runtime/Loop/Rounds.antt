-- ===== src/Runtime/Loop/Rounds.antt =====
-- One iteration of a turn seen from its effects on the state (internal/agent/runtime.go, `RunTurn`).
use eclaire.Prelude.{
  ◌≡◌, refl, ◌≤◌, ◌<◌, Bool, true, false, not, ◌&&◌, Option, none, some, List, [], ◌∷◌, ◌++◌,
  String, ◌==◌, leb, if-cases, arith, leb→le,
}
use eclaire.LoopDetection.{is_looping, is_degenerate, loop_window_size, loop_max_repeats}
use eclaire.Runtime.{ToolCall, Runtime, Setting, act, asked_model}
use eclaire.Runtime.Streams.{StreamPart, Reading, Read, read_all, stream_error}
use eclaire.Runtime.Turns.{
  FinishReason, end_turn, loop_detected, degenerate_output, consecutive_errors, token_budget,
  cancelled, Turn, ModelLib, Calls, run_calls, tool_message, max_session_toks, degenerate_threshold,
  hash_tool_iteration,
}
use eclaire.Runtime.Loop.{
  iterate, watch, after_calls, with_calls, note_answer, add_step, with_answer, after_read, streamed,
  tokens, add_message,
}
use eclaire.Runtime.Loop.Invariants.{StepHolds}

-- The state behind the tool calls, before the signature is looked at.
abbrev pub after_tools : Calls → Turn
after_tools c = add_message (tool_message c.parts) c.turn

abbrev pub started : Setting → List ToolCall → Turn → Calls × Bool
started env tcs t = run_calls env tcs (record { parts = []; result_map = []; turn = t })

module _ (env : Setting) (model : ModelLib) (P : Turn → Type 0) (Q : FinishReason → Turn → Type 0)
    (R : Turn → Type 0) where
  watch-Holds :
      (signature : String) (t : Turn)
      → ((history : List String) → P (record t { loop_history = history }))
      → ((history : List String) → Q loop_detected (record t { loop_history = history }))
      → StepHolds P Q R (watch signature t)
  unfolding watch
  watch-Holds signature t h k =
      let history = t.loop_history ++ signature ∷ [] in
      if-cases (StepHolds P Q R) (signature == "") _ _ (λ e. h t.loop_history)
        (λ e.
          if-cases (StepHolds P Q R) (is_looping history loop_window_size loop_max_repeats) _ _
            (λ f. k history) (λ f. h history))

  calls-Holds :
      (tcs : List ToolCall) (x : Calls × Bool)
      → (x.1 ≡ true → Q consecutive_errors (after_tools x.0))
      → (x.1 ≡ false
          → (history : List String)
          → P (record (after_tools x.0) { loop_history = history })
            × Q loop_detected (record (after_tools x.0) { loop_history = history }))
      → StepHolds P Q R (after_calls env model tcs x)
  unfolding after_calls
  calls-Holds tcs (c, true) broke whole = broke refl
  calls-Holds tcs (c, false) broke whole =
      watch-Holds (hash_tool_iteration model.digest tcs c.result_map) (after_tools c)
        (λ history. (whole refl history).0) (λ history. (whole refl history).1)

  pub with_calls-Holds :
      (tcs : List ToolCall) (t : Turn)
      → (tcs ≡ [] → Q end_turn t)
      → ((tc : ToolCall) (rest : List ToolCall)
          → tcs ≡ tc ∷ rest
          → let x = started env (tc ∷ rest) t in
            (x.1 ≡ true → Q consecutive_errors (after_tools x.0))
            × (x.1 ≡ false
                → (history : List String)
                → P (record (after_tools x.0) { loop_history = history })
                  × Q loop_detected (record (after_tools x.0) { loop_history = history })))
      → StepHolds P Q R (with_calls env model tcs t)
  unfolding with_calls
  with_calls-Holds [] t ends runs = ends refl
  with_calls-Holds (tc ∷ tcs) t ends runs =
      calls-Holds (tc ∷ tcs) (started env (tc ∷ tcs) t) (runs tc tcs refl).0 (runs tc tcs refl).1

  pub with_answer-Holds :
      (r : Reading) (t : Turn)
      → (max_session_toks env.max_session_tokens ≤ tokens t → Q token_budget t)
      → (tokens t < max_session_toks env.max_session_tokens
          → Q degenerate_output t
            × StepHolds P Q R (with_calls env model r.pending (note_answer r t)))
      → StepHolds P Q R (with_answer env model r t)
  unfolding with_answer
  with_answer-Holds r t over under =
      if-cases (StepHolds P Q R) (leb (max_session_toks env.max_session_tokens) (tokens t)) _ _
        (λ e. over (leb→le _ _ e))
        (λ e.
          let u = under (ground (arith, e)) in
          if-cases (StepHolds P Q R)
            (not (r.text_content == "") && is_degenerate r.text_content degenerate_threshold) _ _
            (λ f. u.0) (λ f. u.1))

  after_read-Holds :
      (x : Read) (t : Turn)
      → ((rt : Runtime) → R (record t { runtime = rt }))
      → ((r : Reading) (rt : Runtime) → StepHolds P Q R (with_answer env model r (add_step r rt t)))
      → StepHolds P Q R (after_read env model x t)
  unfolding after_read
  after_read-Holds (stream_error e rt) t fail answer = fail rt
  after_read-Holds (read_all r rt) t fail answer = answer r rt

  streamed-Holds :
      (o : Option (List StreamPart)) (t : Turn)
      → ((rt : Runtime) → Q cancelled (record t { runtime = rt }))
      → ((rt : Runtime) → R (record t { runtime = rt }))
      → ((r : Reading) (rt : Runtime) → StepHolds P Q R (with_answer env model r (add_step r rt t)))
      → StepHolds P Q R (streamed env model o t)
  unfolding streamed
  streamed-Holds none t stop fail answer =
      if-cases (StepHolds P Q R) (model.is_cancelled t.runtime.actions) _ _ (λ e. stop t.runtime)
        (λ e. fail t.runtime)
  streamed-Holds (some parts) t stop fail answer = after_read-Holds _ t fail answer

  -- An iteration in three cases, whatever the world outside does: it is cancelled, the stream fails,
  -- or the answer is read.
  pub iterate-Holds :
      (t : Turn)
      → ((rt : Runtime) → Q cancelled (record t { runtime = rt }))
      → ((rt : Runtime) → R (record t { runtime = rt }))
      → ((r : Reading) (rt : Runtime) → StepHolds P Q R (with_answer env model r (add_step r rt t)))
      → StepHolds P Q R (iterate env model t)
  unfolding iterate add_step
  iterate-Holds t stop fail answer =
      if-cases (StepHolds P Q R) (model.is_cancelled t.runtime.actions) _ _ (λ e. stop t.runtime)
        (λ e.
          streamed-Holds (model.stream t.runtime.actions t.messages)
            (record t { runtime = act asked_model t.runtime }) stop fail answer)
