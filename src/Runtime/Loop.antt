-- ===== src/Runtime/Loop.antt =====
-- The iterations of one turn of a conversation (internal/agent/runtime.go, `RunTurn`): the model is
-- asked, its tool calls are run, and their results are given back to it, until it calls no tool or a
-- limit stops it.
pub mod Invariants
pub mod Rounds
pub mod Replies
pub mod Reports
pub mod Limits
pub mod Requests
use eclaire.Prelude.{
  ℕ, zero, suc, ◌+◌, ◌≤◌, Bool, true, false, not, ◌&&◌, ◌||◌, Option, none, some, List, [], ◌∷◌,
  ◌++◌, String, ◌==◌, ltb, leb, if◌then◌else◌, map, length,
}
use eclaire.Prelude.Text.{text_append}
use eclaire.Prelude.Times.{ℤ, pos, negsuc}
use eclaire.Prelude.Dict.{Dict, get, put}
use eclaire.LoopDetection.{is_looping, is_degenerate, loop_window_size, loop_max_repeats, count_of}
use eclaire.Runtime.{
  ToolCall, Output, output_text, output_error, ToolResult, Action, asked_model, Runtime, Setting,
  act, emit, step_finish,
}
use eclaire.Runtime.Calls.{execute_tool_call}
use eclaire.Runtime.Streams.{
  Usage, no_usage, add_usage, StreamPart, Reading, new_reading, Read, read_all, stream_error,
  read_stream,
}
use eclaire.Runtime.Turns.{
  FinishReason, end_turn, max_iterations, loop_detected, degenerate_output, consecutive_errors,
  token_budget, cancelled, Message, user_message, assistant, tool_message, TurnSummary, ModelLib,
  Turn, max_iter, max_session_toks, hash_tool_iteration, Calls, run_calls, degenerate_threshold,
}

-- How an iteration ends.
pub data Stepped : Type 0 where
  goes_on : Turn → Stepped
  stops : FinishReason → Turn → Stepped
  cancelled_in_stream : Turn → Stepped
  fails : String → Turn → Stepped

-- What `RunTurn` returns: the new messages stand in the last state of the turn.
pub data Ended : Type 0 where
  summary : TurnSummary → Turn → Ended
  stream_failed : String → Turn → Ended

abbrev pub add_message : Message → Turn → Turn
add_message m t = record t {
  messages = t.messages ++ m ∷ [];
  new_messages = t.new_messages ++ m ∷ [];
}

watch : String → Turn → Stepped
watch signature t =
    let next = record t { loop_history = t.loop_history ++ signature ∷ [] } in
    if signature == ""
    then goes_on t
    else if is_looping next.loop_history loop_window_size loop_max_repeats
    then stops loop_detected next
    else goes_on next

abbrev pub has_parts : Reading → Bool
has_parts r = not (r.text_content == "") || ltb 0 (length r.pending)

-- The assistant's message, if it has parts, and the final texts.
unfoldable pub note_answer : Reading → Turn → Turn
note_answer r t =
    let u = record t {
      final_text = if r.text_content == "" then t.final_text else r.text_content;
      final_reasoning =
          if r.reasoning_content == "" then t.final_reasoning else r.reasoning_content;
    } in
    if has_parts r then add_message (assistant r.text_content r.pending) u else u

abbrev pub tokens : Turn → ℕ
tokens t = t.total_usage.input_tokens + t.total_usage.output_tokens

-- The usage of the step is added and shown.
unfoldable pub add_step : Reading → Runtime → Turn → Turn
add_step r rt t =
    let u = add_usage t.total_usage r.step_usage in
    record t { runtime = emit (step_finish u.input_tokens u.output_tokens) rt; total_usage = u }

abbrev summary_of : FinishReason → ℕ → Turn → TurnSummary
summary_of reason iterations t = record {
  text = t.final_text;
  reasoning = t.final_reasoning;
  tool_calls = t.total_tool_calls;
  iterations = iterations;
  usage = t.total_usage;
  finish_reason = reason;
}

abbrev least : ℕ → ℕ → ℕ
least m n = if leb m n then m else n

-- The end of the loop; `most` is maxIter.
abbrev done : ℕ → FinishReason → Turn → Ended
done most reason t = summary (summary_of reason (least most (suc t.total_tool_calls)) t) t

-- The loop broke off by itself, or all its iterations are used up.
abbrev exhausted : ℕ → Turn → Ended
exhausted most t = done most (if ltb 0 t.total_tool_calls then max_iterations else end_turn) t

after_step : ℕ → ℕ → Stepped → (Turn → Ended) → Ended
after_step most iter (goes_on t) next = next t
after_step most iter (stops reason t) next = done most reason t
after_step most iter (cancelled_in_stream t) next = summary (summary_of cancelled iter t) t
after_step most iter (fails e t) next = stream_failed e t

abbrev pub new_turn : Runtime → List Message → Turn
new_turn rt messages = record {
  runtime = rt;
  messages = messages;
  new_messages = [];
  total_usage = no_usage;
  total_tool_calls = 0;
  final_text = "";
  final_reasoning = "";
  loop_history = [];
  consecutive = [];
  total_error_resets = 0;
}

module _ (env : Setting) (model : ModelLib) where
  after_calls : List ToolCall → Calls × Bool → Stepped
  unfolding watch
  after_calls tcs (c, true) = stops consecutive_errors (add_message (tool_message c.parts) c.turn)
  after_calls tcs (c, false) =
      watch (hash_tool_iteration model.digest tcs c.result_map)
        (add_message (tool_message c.parts) c.turn)

  pub with_calls : List ToolCall → Turn → Stepped
  unfolding after_calls
  with_calls [] t = stops end_turn t
  with_calls (tc ∷ tcs) t =
      after_calls (tc ∷ tcs)
        (run_calls env (tc ∷ tcs) (record { parts = []; result_map = []; turn = t }))

  -- What an iteration does with the whole answer of the model.
  unfoldable pub with_answer : Reading → Turn → Stepped
  unfolding with_calls
  with_answer r t =
      if leb (max_session_toks env.max_session_tokens) (tokens t)
      then stops token_budget t
      else if not (r.text_content == "") && is_degenerate r.text_content degenerate_threshold
      then stops degenerate_output t
      else with_calls r.pending (note_answer r t)

  after_read : Read → Turn → Stepped
  unfolding with_answer
  after_read (stream_error error rt) t =
      fails (text_append "stream error: " error) (record t { runtime = rt })
  after_read (read_all r rt) t = with_answer r (add_step r rt t)

  streamed : Option (List StreamPart) → Turn → Stepped
  unfolding after_read
  streamed none t =
      if model.is_cancelled t.runtime.actions
      then cancelled_in_stream t
      else fails (text_append "model stream: " model.stream_failure) t
  streamed (some parts) t = after_read (read_stream parts new_reading t.runtime) t

  unfoldable pub iterate : Turn → Stepped
  unfolding streamed
  iterate t =
      if model.is_cancelled t.runtime.actions
      then stops cancelled t
      else streamed (model.stream t.runtime.actions t.messages)
          (record t { runtime = act asked_model t.runtime })

  -- `left` iterations after the first `iter`.
  unfoldable pub run_loop : ℕ → ℕ → ℕ → Turn → Ended
  unfolding after_step
  run_loop most zero iter t = exhausted most t
  run_loop most (suc left) iter t = after_step most iter (iterate t) (run_loop most left (suc iter))

  unfoldable pub run_turn : Runtime → List Message → Ended
  run_turn rt messages =
      let most = max_iter env.max_iterations in run_loop most most 0 (new_turn rt messages)
