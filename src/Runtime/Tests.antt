-- ===== src/Runtime/Tests.antt =====
-- Turns and tool calls at fixed inputs (internal/agent/runtime.go).
use eclaire.Prelude.{
  ◌≡◌, ℕ, ◌+◌, ◌≤◌, true, false, some, none, List, [], ◌∷◌, ◌++◌, String, ◌==◌, leb, if◌then◌else◌,
  length,
}
use eclaire.Prelude.Times.{pos}
use eclaire.Hooks.{wrote}
use eclaire.Inputs.{text}
use eclaire.Tools.{new_registry}
use eclaire.Permissions.{PermissionMode, new_permission_checker}
use eclaire.Runtime.{ToolCall, ToolAnswer, responded, tool_failed, Action, Runtime, Setting}
use eclaire.Runtime.Calls.{execute_tool_call}
use eclaire.Runtime.Calls.Safety.{Answered, IsCleared, execute_tool_call-Answered}
use eclaire.Runtime.Streams.{StreamPart, call_part, text_part}
use eclaire.Runtime.Turns.{
  FinishReason, Message, user_message, Turn, ModelLib, max_iter, hard_max_iterations,
}
use eclaire.Runtime.Loop.{run_turn}
use eclaire.Runtime.Loop.Invariants.{EndHolds}
use eclaire.Runtime.Loop.Replies.{Replied, IsReplied, run_turn-Replied}
use eclaire.Runtime.Loop.Limits.{Budgeted, Failed, run_turn-Budgeted}
use eclaire.Runtime.Loop.Reports.{asks}
use eclaire.Runtime.Loop.Requests.{turn_of, run_turn-Ends}

-- The tool "read" answers, and any other fails.
abbrev answer_of : ToolCall → ToolAnswer
answer_of tc = if tc.name == "read" then responded "text" false else tool_failed "broken"

abbrev env : Setting
env = record {
  agent_id = "coding";
  session_id = "";
  hook_runner = none;
  perm_mode = PermissionMode.write_only;
  tools = "read" ∷ "shell" ∷ [];
  max_iterations = pos 3;
  max_session_tokens = pos 1000;
  hooks = λ (past : List Action). record {
    quoted = λ (s : String). s;
    glob = λ (pattern name : String). false;
    parse_duration = λ (s : String). none;
    run = λ command timeout payload. wrote "";
    unmarshal = λ (s : String). none;
  };
  refill = λ (elapsed rate window : ℕ). 0;
  clock = λ (past : List Action). 1000;
  json = record {
    unmarshal = λ (s : String). some [];
    valid = λ (s : String). true;
    is_control = λ (n : ℕ). false;
  };
  paths = λ (past : List Action). record {
    abs = λ (p : String). some p;
    clean = λ (p : String). p;
    dir = λ (p : String). "/";
    base = λ (p : String). p;
    join = λ (p q : String). p;
    eval_symlinks = λ (p : String). some p;
  };
  quoted = λ (s : String). s;
  shell = record { parse = λ (s : String). none; base = λ (s : String). s; subcommands = [] };
  cut = λ (s : String). s;
  json_error = λ (s : String). "";
  path_error = "";
  show_roots = λ (roots : List String). "";
  approver = none;
  run_tool = λ (past : List Action) (tc : ToolCall). answer_of tc;
}

abbrev start : Runtime
start = record {
  perm_checker = none;
  workspace_roots = "/work" ∷ [];
  write_roots = none;
  sessions = none;
  actions = [];
  events = [];
}

abbrev call_of : String → String → ToolCall
call_of id name = record { id = id; name = name; input = "{}" }

abbrev model_with : List StreamPart → ModelLib
model_with first = record {
  stream = λ (past : List Action) (messages : List Message).
      some (if leb (length messages) 1 then first else text_part "done" ∷ []);
  stream_failure = "";
  is_cancelled = λ (past : List Action). false;
  digest = λ (s : String). s;
}

-- One answer with a call, and the final text.
abbrev one_call : ModelLib
one_call = model_with (call_part (call_of "1" "read") ∷ [])

abbrev question : List Message
question = user_message "read it" ∷ []

-- A write in the workspace, with a hook, a checker and a human who approves.
abbrev guarded : Setting
guarded = record env {
  tools = "write" ∷ [];
  hook_runner =
      some (record { event = "PreToolUse"; matcher = "*"; command = "look"; timeout = "" } ∷ []);
  approver =
      some (λ past action shown input.
        some (record { approved = true; persist = false; reason = "" }));
  json = record env.json { unmarshal = λ (s : String). some (("path", text "/work/a") ∷ []) };
}

abbrev checked : Runtime
checked = record start { perm_checker = some (new_permission_checker new_registry) }

execute_tool_call-Answered_example :
    Answered
      (call_of "1" "write")
      (IsCleared guarded (call_of "1" "write") checked)
      checked
      (execute_tool_call guarded (call_of "1" "write") checked)
execute_tool_call-Answered_example =
    execute_tool_call-Answered guarded (call_of "1" "write") checked

run_turn-Replied_example :
    EndHolds
      (λ (reason : FinishReason) (t : Turn).
        Replied reason t.new_messages × (t.messages ≡ question ++ t.new_messages))
      (λ (t : Turn). IsReplied t.new_messages × (t.messages ≡ question ++ t.new_messages))
      (run_turn env one_call start question)
run_turn-Replied_example = run_turn-Replied env one_call start question

run_turn-Budgeted_example :
    EndHolds
      (Budgeted env one_call 0)
      (Failed env one_call 0)
      (run_turn env one_call start question)
run_turn-Budgeted_example = run_turn-Budgeted env one_call start question

run_turn-Ends_example :
    let end = turn_of (run_turn env one_call start question) in
    (asks end.runtime.actions ≤ asks start.actions + max_iter env.max_iterations)
    × (asks end.runtime.actions ≤ asks start.actions + hard_max_iterations)
run_turn-Ends_example = run_turn-Ends env one_call start question
