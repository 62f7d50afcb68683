-- ===== src/Runtime.antt =====
-- One tool call of the agentic loop (internal/agent/runtime.go, `executeToolCall`): hooks, permission,
-- workspace boundary, input check, the tool itself, hooks. `actions` lists what the runtime asked of
-- the world outside, in order; each answer of that world is a function of all that was asked before,
-- and is a field of the `Setting`. The log is left out.
pub mod Approvals
pub mod Workspace
pub mod Calls
pub mod Streams
pub mod Clearance
pub mod Turns
pub mod Loop
mod Tests
use eclaire.Prelude.{
  ℕ, zero, suc, Bool, true, false, not, ◌&&◌, ◌||◌, Option, none, some, List, [], ◌∷◌, ◌++◌, String,
  ◌==◌, if◌then◌else◌, map,
}
use eclaire.Prelude.Text.{text_append}
use eclaire.Prelude.Times.{Time, ℤ}
use eclaire.Prelude.Dict.{Dict}
use eclaire.Hooks.{
  Runner, PreAnswer, passed, denied_with, broken, PostAnswer, said, post_broken, run_pre, run_post,
  pre_tool_use, post_tool_use, post_tool_use_failure, HookLib,
}
use eclaire.Inputs.{JsonLib, InputError, validate_tool_input, show_error, summarize_tool_input}
use eclaire.Inputs.Workspace.{
  PathLib, check_workspace_boundary, extract_write_dir, BoundaryAnswer, inside, unresolved, outside,
  show_boundary,
}
use eclaire.RateLimits.{Refill}
use eclaire.Permissions.{
  PermissionChecker, PermissionMode, Decision, allowed, prompt, deny, check_with_mode, approve,
  approve_pattern,
}
use eclaire.Permissions.Patterns.{ShellLib, extract_shell_pattern}
use eclaire.Sessions.{SessionStore, save_patterns}

pub record ToolCall : Type 0 where
  pub id : String
  pub name : String
  pub input : String

-- What a tool answers: a response, or an error.
pub data ToolAnswer : Type 0 where
  responded : String → Bool → ToolAnswer
  tool_failed : String → ToolAnswer

pub data Output : Type 0 where
  output_text output_error : String → Output

pub record ToolResult : Type 0 where
  pub output : Output
  pub is_error : Bool

pub record ApprovalResult : Type 0 where
  pub approved : Bool
  pub persist : Bool
  pub reason : String

pub data StreamEvent : Type 0 where
  text_delta : String → StreamEvent
  tool_call : ToolCall → StreamEvent
  tool_result : String → String → String → StreamEvent
  step_finish : ℕ → ℕ → StreamEvent

-- A request for approval names its action and shows its description and input.
pub data Action : Type 0 where
  asked_model : Action
  ran_hooks : String → String → Action
  read_clock : Action
  asked_human : String → String → String → Action
  ran_tool : ToolCall → Action

pub record Runtime : Type 0 where
  pub perm_checker : Option PermissionChecker
  pub workspace_roots : List String
  pub write_roots : Option (List String)
  pub sessions : Option SessionStore
  pub actions : List Action
  pub events : List StreamEvent

-- The fields of ConversationRuntime that do not change, and the world outside. `hooks` is the shell
-- of the hooks, `approver` is `none` where there is no approver, and its answer `none` an error.
-- `shell` parses shell commands, `cut` is cmd[:200], `quoted` the verb %q and `show_roots` the verb
-- %v; `json_error` and `path_error` are the texts of errors of Go's library.
pub record Setting : Type 0 where
  pub agent_id : String
  pub session_id : String
  pub hook_runner : Runner
  pub perm_mode : PermissionMode
  pub tools : List String
  pub max_iterations : ℤ
  pub max_session_tokens : ℤ
  pub hooks : List Action → HookLib
  pub refill : Refill
  pub clock : List Action → Time
  pub json : JsonLib
  pub paths : List Action → PathLib
  pub quoted : String → String
  pub shell : ShellLib
  pub cut : String → String
  pub json_error : String → String
  pub path_error : String
  pub show_roots : List String → String
  pub approver : Option (List Action → String → String → String → Option ApprovalResult)
  pub run_tool : List Action → ToolCall → ToolAnswer

abbrev pub act : Action → Runtime → Runtime
act a rt = record rt { actions = rt.actions ++ a ∷ [] }

abbrev pub emit : StreamEvent → Runtime → Runtime
emit e rt = record rt { events = rt.events ++ e ∷ [] }

-- What is left of the call after a stage: it is over, or goes on.
pub data Stage : Type 0 where
  over : Runtime × ToolResult → Stage
  on : Runtime → Stage

-- The end of every branch that refuses: an event, and a result that is an error.
unfoldable pub refuse : ToolCall → String → Runtime → Runtime × ToolResult
refuse tc msg rt =
    (emit (tool_result tc.name tc.id msg) rt, record { output = output_text msg; is_error = true })
