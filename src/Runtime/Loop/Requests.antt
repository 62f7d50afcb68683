-- ===== src/Runtime/Loop/Requests.antt =====
-- How often a turn asks the model (internal/agent/runtime.go, `RunTurn`).
use eclaire.Prelude.{
  sym, ℕ, zero, suc, ◌+◌, ◌≤◌, List, [], ◌∷◌, if-cases, arith, Option, none, some,
}
use mathlib.Core.Path.{subst}
use eclaire.Runtime.{ToolCall, Runtime, Setting, StreamEvent, emit, act, asked_model}
use eclaire.Runtime.Calls.{execute_tool_call}
use eclaire.Runtime.Streams.{
  StreamPart, text_part, reasoning_part, input_delta, input_start, input_end, call_part,
  finish_part, error_part, Reading, new_reading, Read, read_all, stream_error, read_stream,
}
use eclaire.Runtime.Turns.{FinishReason, Message, Turn, ModelLib, max_iter, hard_max_iterations}
use eclaire.Runtime.Turns.Laws.{run_calls-keep, max_iter-Clamped}
use eclaire.Runtime.Loop.{
  Stepped, goes_on, stops, cancelled_in_stream, fails, Ended, summary, stream_failed, iterate,
  run_loop, note_answer, add_step, with_answer, new_turn, run_turn, after_read, streamed,
  after_step,
}
use eclaire.Runtime.Loop.Invariants.{StepHolds}
use eclaire.Runtime.Loop.Rounds.{with_answer-Holds, with_calls-Holds}
use eclaire.Runtime.Loop.Limits.{noted-Same}
use eclaire.Runtime.Loop.Reports.{asks, asks-append, called-Asks}

-- A property of the runtime that reading, emitting and the tool calls keep.
module _ (env : Setting) (model : ModelLib) (P : Runtime → Type 0)
    (emitted : (e : StreamEvent) (rt : Runtime) → P rt → P (emit e rt))
    (called : (tc : ToolCall) (rt : Runtime) → P rt → P (execute_tool_call env tc rt).0) where
  abbrev Kept : Turn → Type 0
  Kept t = P t.runtime

  abbrev Ends : FinishReason → Turn → Type 0
  Ends reason t = P t.runtime

  abbrev ReadHolds : Read → Type 0
  ReadHolds (read_all r rt) = P rt
  ReadHolds (stream_error e rt) = P rt

  read-Holds :
      (ps : List StreamPart) (r : Reading) (rt : Runtime) → P rt → ReadHolds (read_stream ps r rt)
  unfolding read_stream
  read-Holds [] r rt h = h
  read-Holds (text_part delta ∷ ps) r rt h = read-Holds ps _ _ (emitted _ rt h)
  read-Holds (reasoning_part delta ∷ ps) r rt h = read-Holds ps _ rt h
  read-Holds (input_start id name ∷ ps) r rt h = read-Holds ps _ rt h
  read-Holds (input_delta delta ∷ ps) r rt h = read-Holds ps _ rt h
  read-Holds (input_end ∷ ps) r rt h = read-Holds ps r rt h
  read-Holds (call_part tc ∷ ps) r rt h = read-Holds ps _ _ (emitted _ rt h)
  read-Holds (finish_part usage ∷ ps) r rt h = read-Holds ps _ rt h
  read-Holds (error_part none ∷ ps) r rt h = read-Holds ps r rt h
  read-Holds (error_part (some e) ∷ ps) r rt h = h

  calls-Kept :
      (r : Reading) (t : Turn) → P t.runtime → StepHolds Kept Ends Kept (with_answer env model r t)
  calls-Kept r t h =
      let noted = subst P (sym (noted-Same r t).1) h in
      with_answer-Holds env model Kept Ends Kept r t (λ over. h)
        (λ under. (
          h,
          with_calls-Holds env model Kept Ends Kept r.pending (note_answer r t) (λ e. noted)
              (λ tc tcs e.
                let k =
                  run_calls-keep env P called (tc ∷ tcs)
                    (record { parts = []; result_map = []; turn = note_answer r t }) noted in
                (λ f. k, λ f history. (k, k))),
        ))

  read-Kept :
      (x : Read) (t : Turn) → ReadHolds x → StepHolds Kept Ends Kept (after_read env model x t)
  unfolding after_read add_step
  read-Kept (stream_error e rt) t h = h
  read-Kept (read_all r rt) t h = calls-Kept r (add_step r rt t) (emitted _ rt h)

  streamed-Kept :
      (o : Option (List StreamPart)) (t : Turn)
      → P t.runtime
      → StepHolds Kept Ends Kept (streamed env model o t)
  unfolding streamed
  streamed-Kept none t h =
      if-cases (StepHolds Kept Ends Kept) (model.is_cancelled t.runtime.actions) _ _ (λ e. h)
        (λ e. h)
  streamed-Kept (some parts) t h = read-Kept _ t (read-Holds parts new_reading t.runtime h)

  iterate-Kept :
      (t : Turn)
      → P t.runtime
      → P (act asked_model t.runtime)
      → StepHolds Kept Ends Kept (iterate env model t)
  unfolding iterate
  iterate-Kept t h k =
      if-cases (StepHolds Kept Ends Kept) (model.is_cancelled t.runtime.actions) _ _ (λ e. h)
        (λ e. streamed-Kept _ (record t { runtime = act asked_model t.runtime }) k)

abbrev pub turn_of : Ended → Turn
turn_of (summary s t) = t
turn_of (stream_failed e t) = t

module _ (env : Setting) (model : ModelLib) where
  abbrev Most : ℕ → Runtime → Type 0
  Most n rt = asks rt.actions ≤ n

  called-Most :
      (n : ℕ) (tc : ToolCall) (rt : Runtime) → Most n rt → Most n (execute_tool_call env tc rt).0
  called-Most n tc rt h = omega (arith, h, called-Asks env tc rt)

  after-Most :
      (n m most iter : ℕ) (x : Stepped) (next : Turn → Ended)
      → n ≤ m
      → StepHolds
          (λ (t : Turn). Most n t.runtime)
          (λ (r : FinishReason) (t : Turn). Most n t.runtime)
          (λ (t : Turn). Most n t.runtime)
          x
      → ((t : Turn) → Most n t.runtime → Most m (turn_of (next t)).runtime)
      → Most m (turn_of (after_step most iter x next)).runtime
  unfolding after_step
  after-Most n m most iter (goes_on t) next le h k = k t h
  after-Most n m most iter (stops reason t) next le h k = omega (arith, le, h)
  after-Most n m most iter (cancelled_in_stream t) next le h k = omega (arith, le, h)
  after-Most n m most iter (fails e t) next le h k = omega (arith, le, h)

  loop-Most :
      (n most left iter : ℕ) (t : Turn)
      → Most n t.runtime
      → Most (n + left) (turn_of (run_loop env model most left iter t)).runtime
  unfolding run_loop
  loop-Most n most zero iter t h = omega (arith, h)
  loop-Most n most (suc left) iter t h =
      after-Most (suc n) (n + suc left) most iter (iterate env model t) _ (omega arith)
        (iterate-Kept env model (Most (suc n)) (λ e rt k. k) (called-Most (suc n)) t
          (omega (arith, h)) (omega (arith, h, asks-append t.runtime.actions (asked_model ∷ []))))
        (λ u k.
          subst (λ (m : ℕ). Most m (turn_of (run_loop env model most left (suc iter) u)).runtime)
            (omega arith) (loop-Most (suc n) most left (suc iter) u k))

  -- `RunTurn` ends, whatever the model, the tools and the human answer: it asks the model at most as
  -- often as the clamped number of iterations says, and never more than `HardMaxIterations` times.
  pub run_turn-Ends :
      (rt : Runtime) (messages : List Message)
      → let end = turn_of (run_turn env model rt messages) in
        (asks end.runtime.actions ≤ asks rt.actions + max_iter env.max_iterations)
        × (asks end.runtime.actions ≤ asks rt.actions + hard_max_iterations)
  unfolding run_turn
  run_turn-Ends rt messages =
      let most = max_iter env.max_iterations in
      let c = max_iter-Clamped env.max_iterations in
      let h = loop-Most (asks rt.actions) most most 0 (new_turn rt messages) (omega arith) in
      (h, omega (arith, h, c.1, c.2))
