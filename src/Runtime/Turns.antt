-- ===== src/Runtime/Turns.antt =====
-- The state of one turn of a conversation, and the loop over the tool calls of one answer
-- (internal/agent/runtime.go, `RunTurn`).
-- The system prompt and the specifications of the tools are part of the model, which is a parameter;
-- so is SHA-256, of `hashToolIteration` (internal/agent/loop.go).
pub mod Laws
use eclaire.Prelude.{
  ℕ, zero, suc, ◌+◌, ◌≤◌, Bool, true, false, not, ◌&&◌, ◌||◌, Option, none, some, List, [], ◌∷◌,
  ◌++◌, String, ◌==◌, ltb, leb, if◌then◌else◌, map, length,
}
use eclaire.Prelude.Text.{text_append}
use eclaire.Prelude.Times.{ℤ, pos, negsuc}
use eclaire.Prelude.Dict.{Dict, get, put}
use eclaire.LoopDetection.{is_looping, is_degenerate, loop_window_size, loop_max_repeats, count_of}
use eclaire.Runtime.{
  ToolCall, Output, output_text, output_error, ToolResult, Action, asked_model, Runtime, Setting,
  act, emit, step_finish,
}
use eclaire.Runtime.Calls.{execute_tool_call}
use eclaire.Runtime.Streams.{
  Usage, no_usage, add_usage, StreamPart, Reading, new_reading, Read, read_all, stream_error,
  read_stream,
}

abbrev pub hard_max_iterations : ℕ
hard_max_iterations = 200

abbrev pub default_max_session_tokens : ℕ
default_max_session_tokens = 2_000_000

abbrev pub degenerate_threshold : ℕ
degenerate_threshold = 20

abbrev pub max_consecutive_tool_errors : ℕ
max_consecutive_tool_errors = 3

abbrev pub max_error_resets : ℕ
max_error_resets = 2

pub data FinishReason : Type 0 where
  end_turn max_iterations loop_detected degenerate_output consecutive_errors token_budget
        cancelled :
      FinishReason

-- The parts of the assistant's messages are its text and its calls; those of a tool's message are
-- the results, each with the id of its call. The user's and the system's are texts.
pub data Message : Type 0 where
  user_message : String → Message
  system_message : String → Message
  assistant : String → List ToolCall → Message
  tool_message : List (String × Output) → Message

pub record TurnSummary : Type 0 where
  pub text : String
  pub reasoning : String
  pub tool_calls : ℕ
  pub iterations : ℕ
  pub usage : Usage
  pub finish_reason : FinishReason

-- The model answers a prompt, or fails; `is_cancelled` is ctx.Err() != nil. Both may depend on all
-- that was asked before.
pub record ModelLib : Type 0 where
  pub stream : List Action → List Message → Option (List StreamPart)
  pub stream_failure : String
  pub is_cancelled : List Action → Bool
  pub digest : String → String

-- The variables of `RunTurn`.
pub record Turn : Type 0 where
  pub runtime : Runtime
  pub messages : List Message
  pub new_messages : List Message
  pub total_usage : Usage
  pub total_tool_calls : ℕ
  pub final_text : String
  pub final_reasoning : String
  pub loop_history : List String
  pub consecutive : Dict ℕ
  pub total_error_resets : ℕ

clamp_pos : ℕ → ℕ
clamp_pos zero = hard_max_iterations
clamp_pos (suc n) = if ltb hard_max_iterations (suc n) then hard_max_iterations else suc n

unfoldable pub max_iter : ℤ → ℕ
unfolding clamp_pos
max_iter (negsuc n) = hard_max_iterations
max_iter (pos n) = clamp_pos n

unfoldable pub max_session_toks : ℤ → ℕ
max_session_toks (pos (suc n)) = suc n
max_session_toks (pos zero) = default_max_session_tokens
max_session_toks (negsuc n) = default_max_session_tokens

abbrev zero_byte : String
zero_byte = "\0"

abbrev text_result : Output → String
text_result (output_text s) = s
text_result (output_error s) = ""

abbrev result_of : Option String → String
result_of none = ""
result_of (some s) = s

hashed : List ToolCall → Dict String → String
hashed [] results = ""
hashed (tc ∷ tcs) results = text_append tc.name (
    text_append zero_byte (
      text_append tc.input (
        text_append zero_byte (
          text_append (result_of (get results tc.id))
            (text_append zero_byte (hashed tcs results))))))

unfoldable pub hash_tool_iteration : (String → String) → List ToolCall → Dict String → String
unfolding hashed
hash_tool_iteration digest [] results = ""
hash_tool_iteration digest (tc ∷ tcs) results = digest (hashed (tc ∷ tcs) results)

-- The variables of the loop over the calls of one answer.
pub record Calls : Type 0 where
  pub parts : List (String × Output)
  pub result_map : Dict String
  pub turn : Turn

-- The count of the tool's errors, and whether to stop.
unfoldable pub count_error : ToolCall → Bool → Turn → Turn × Bool
count_error tc false t = (record t { consecutive = put t.consecutive tc.name 0 }, false)
count_error tc true t =
    let n = suc (count_of t.consecutive tc.name) in
    if leb max_consecutive_tool_errors n
    then if leb max_error_resets (suc t.total_error_resets)
      then (
        record t {
          consecutive = put t.consecutive tc.name n;
          total_error_resets = suc t.total_error_resets;
        },
        true,
      )
      else (
        record t {
          consecutive = put t.consecutive tc.name 0;
          total_error_resets = suc t.total_error_resets;
        },
        false,
      )
    else (record t { consecutive = put t.consecutive tc.name n }, false)

note_result : ToolCall → Runtime × ToolResult → Calls → Calls × Bool
unfolding count_error
note_result tc (rt, r) c =
    let (t, stop) =
      count_error tc r.is_error
        (record c.turn { runtime = rt; total_tool_calls = suc c.turn.total_tool_calls }) in
    (
      record {
        parts = c.parts ++ (tc.id, r.output) ∷ [];
        result_map = put c.result_map tc.id (text_result r.output);
        turn = t;
      },
      stop,
    )

module _ (env : Setting) where
  unfoldable pub run_one : ToolCall → Calls → Calls × Bool
  unfolding note_result
  run_one tc c = note_result tc (execute_tool_call env tc c.turn.runtime) c

  -- The loop over the pending calls, with `iterBroke`.
  unfoldable pub run_calls : List ToolCall → Calls → Calls × Bool
  run_calls [] c = (c, false)
  run_calls (tc ∷ tcs) c =
      let (c', stop) = run_one tc c in
      let rest = run_calls tcs c' in if stop then (c', true) else rest
