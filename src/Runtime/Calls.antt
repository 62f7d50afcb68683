-- ===== src/Runtime/Calls.antt =====
-- The run of a tool with its hooks, and the whole call (internal/agent/runtime.go,
-- `executeToolCall`).
pub mod Safety
use eclaire.Prelude.{
  ℕ, zero, suc, Bool, true, false, not, ◌&&◌, ◌||◌, Option, none, some, List, [], ◌∷◌, ◌++◌, String,
  ◌==◌, if◌then◌else◌, map,
}
use eclaire.Prelude.Text.{text_append}
use eclaire.Prelude.Times.{Time, ℤ}
use eclaire.Prelude.Dict.{Dict}
use eclaire.Hooks.{
  Runner, PreAnswer, passed, denied_with, broken, PostAnswer, said, post_broken, run_pre, run_post,
  pre_tool_use, post_tool_use, post_tool_use_failure, HookLib,
}
use eclaire.Inputs.{JsonLib, InputError, validate_tool_input, show_error, summarize_tool_input}
use eclaire.Inputs.Workspace.{
  PathLib, check_workspace_boundary, extract_write_dir, BoundaryAnswer, inside, unresolved, outside,
  show_boundary,
}
use eclaire.RateLimits.{Refill}
use eclaire.Permissions.{
  PermissionChecker, PermissionMode, Decision, allowed, prompt, deny, check_with_mode, approve,
  approve_pattern,
}
use eclaire.Permissions.Patterns.{ShellLib, extract_shell_pattern}
use eclaire.Sessions.{SessionStore, save_patterns}
use eclaire.Runtime.{
  ToolCall, ToolAnswer, responded, tool_failed, Output, output_text, output_error, ToolResult,
  ApprovalResult, StreamEvent, tool_result, Action, asked_human, ran_hooks, ran_tool, read_clock,
  Runtime, Setting, act, emit, Stage, over, on, refuse,
}
use eclaire.Runtime.Approvals.{permission_stage}
use eclaire.Runtime.Workspace.{boundary_stage}

abbrev pub known : String → List String → Bool
known name [] = false
known name (t ∷ ts) = (t == name) || known name ts

module _ (env : Setting) where
  abbrev is_failure : ToolAnswer → Bool
  is_failure (responded content is_error) = is_error
  is_failure (tool_failed error) = true

  abbrev text_of : ToolAnswer → String
  text_of (responded content is_error) = content
  text_of (tool_failed error) = text_append "Error: " error

  and_extra : String → PostAnswer → String
  and_extra text (said extra) =
      if extra == "" then text else text_append text (text_append "\n[hook]: " extra)
  and_extra text (post_broken error) = text

  -- The text after the hooks; those after a failure change nothing.
  after_hooks : ToolCall → String → ToolAnswer → Runtime → String
  unfolding and_extra
  after_hooks tc input answer rt =
      if is_failure answer
      then text_of answer
      else and_extra (text_of answer) (
          run_post (env.hooks rt.actions) env.hook_runner tc.name input (text_of answer)
            env.agent_id "")

  abbrev post_event : ToolAnswer → String
  post_event answer = if is_failure answer then post_tool_use_failure else post_tool_use

  -- Without a runner no hook is run.
  pub note_hooks : String → String → Runner → Runtime → Runtime
  note_hooks event name none rt = rt
  note_hooks event name (some hooks) rt = act (ran_hooks event name) rt

  pub finish_call : ToolCall → String → ToolAnswer → Runtime → Runtime × ToolResult
  unfolding after_hooks note_hooks
  finish_call tc input answer rt =
      let text = after_hooks tc input answer rt in
      (
        emit (tool_result tc.name tc.id text)
            (note_hooks (post_event answer) tc.name env.hook_runner rt),
        record { output = output_text text; is_error = is_failure answer },
      )

  -- Step 3: the tool is run if the agent has it.
  run_known : ToolCall → String → Bool → Runtime → Runtime × ToolResult
  unfolding finish_call
  run_known tc input true rt =
      let call : ToolCall = record { id = tc.id; name = tc.name; input = input } in
      finish_call tc input (env.run_tool rt.actions call) (act (ran_tool call) rt)
  run_known tc input false rt =
      let msg = text_append "tool " (text_append (env.quoted tc.name) " not found") in
      (
        emit (tool_result tc.name tc.id msg) rt,
        record { output = output_error msg; is_error = true },
      )

  -- Step 2c and 3: the input is checked before.
  unfoldable pub run_stage : ToolCall → String → Option InputError → Runtime → Runtime × ToolResult
  unfolding refuse run_known
  run_stage tc input (some error) rt =
      refuse tc
        (text_append "Invalid tool input: " (show_error env.quoted (env.json_error input) error)) rt
  run_stage tc input none rt = run_known tc input (known tc.name env.tools) rt

  after_boundary : ToolCall → String → Stage → Runtime × ToolResult
  unfolding run_stage
  after_boundary tc input (over r) = r
  after_boundary tc input (on rt) = run_stage tc input (validate_tool_input env.json input) rt

  after_permission : ToolCall → String → Stage → Runtime × ToolResult
  unfolding boundary_stage after_boundary
  after_permission tc input (over r) = r
  after_permission tc input (on rt) =
      after_boundary tc input (boundary_stage env tc input rt.workspace_roots rt)

  unfoldable pub go_on : ToolCall → String → Runtime → Runtime × ToolResult
  unfolding after_permission permission_stage
  go_on tc input rt = after_permission tc input (permission_stage env tc input rt.perm_checker rt)

  -- An error of the hooks is logged, and the call goes on with its own input.
  after_pre : ToolCall → PreAnswer → Runtime → Runtime × ToolResult
  unfolding refuse go_on
  after_pre tc (denied_with message) rt =
      refuse tc
        (text_append "Permission denied: "
          (if message == "" then "denied by pre-hook" else message))
        rt
  after_pre tc (passed updated) rt = go_on tc (if updated == "" then tc.input else updated) rt
  after_pre tc (broken error) rt = go_on tc tc.input rt

  unfoldable pub execute_tool_call : ToolCall → Runtime → Runtime × ToolResult
  unfolding after_pre note_hooks
  execute_tool_call tc rt =
      after_pre tc (run_pre (env.hooks rt.actions) env.hook_runner tc.name tc.input env.agent_id "")
        (note_hooks pre_tool_use tc.name env.hook_runner rt)
