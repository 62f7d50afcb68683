-- ===== src/Runtime/Workspace.antt =====
-- The workspace boundary of a tool call (internal/agent/runtime.go, `executeToolCall`, step 2b, and
-- `extendWorkspaceRoots`; internal/tool/executor.go, `AddSandboxWriteRoot`).
pub mod Laws
use eclaire.Prelude.{
  ℕ, zero, suc, Bool, true, false, not, ◌&&◌, ◌||◌, Option, none, some, List, [], ◌∷◌, ◌++◌, String,
  ◌==◌, if◌then◌else◌, map,
}
use eclaire.Prelude.Text.{text_append}
use eclaire.Prelude.Times.{Time, ℤ}
use eclaire.Prelude.Dict.{Dict}
use eclaire.Hooks.{
  Runner, PreAnswer, passed, denied_with, broken, PostAnswer, said, post_broken, run_pre, run_post,
  pre_tool_use, post_tool_use, post_tool_use_failure, HookLib,
}
use eclaire.Inputs.{JsonLib, InputError, validate_tool_input, show_error, summarize_tool_input}
use eclaire.Inputs.Workspace.{
  PathLib, check_workspace_boundary, extract_write_dir, BoundaryAnswer, inside, unresolved, outside,
  show_boundary,
}
use eclaire.RateLimits.{Refill}
use eclaire.Permissions.{
  PermissionChecker, PermissionMode, Decision, allowed, prompt, deny, check_with_mode, approve,
  approve_pattern,
}
use eclaire.Permissions.Patterns.{ShellLib, extract_shell_pattern}
use eclaire.Sessions.{SessionStore, save_patterns}
use eclaire.Runtime.{
  ToolCall, ToolAnswer, responded, tool_failed, Output, output_text, output_error, ToolResult,
  ApprovalResult, StreamEvent, tool_result, Action, asked_human, ran_hooks, ran_tool, read_clock,
  Runtime, Setting, act, emit, Stage, over, on, refuse,
}

abbrev pub outside_action : String
outside_action = "write_outside_workspace"

module _ (env : Setting) where
  member_root : String → List String → Bool
  member_root root [] = false
  member_root root (r ∷ rs) = (r == root) || member_root root rs

  -- Here `none` is an executor without a sandbox.
  add_sandbox_write_root : String → Option (List String) → Option (List String)
  unfolding member_root
  add_sandbox_write_root root none = none
  add_sandbox_write_root root (some roots) =
      some (if member_root root roots then roots else roots ++ root ∷ [])

  unfoldable pub extend_workspace_roots : String → List String → List String
  extend_workspace_roots dir roots = if dir == "" then roots else roots ++ dir ∷ []

  extend : String → Runtime → Runtime
  unfolding add_sandbox_write_root extend_workspace_roots
  extend dir rt = record rt {
    workspace_roots = extend_workspace_roots dir rt.workspace_roots;
    write_roots = add_sandbox_write_root dir rt.write_roots;
  }

  outside_answer : ToolCall → String → String → Option ApprovalResult → Runtime → Stage
  unfolding refuse extend
  outside_answer tc input reason none rt =
      over (refuse tc (text_append "Permission denied: " reason) rt)
  outside_answer tc input reason (some r) rt =
      if r.approved
      then on (extend (extract_write_dir env.json (env.paths rt.actions) input) rt)
      else over (refuse tc (text_append "Permission denied: " reason) rt)

  abbrev pub outside_description : String → String
  outside_description reason = text_append "Agent " (
      text_append (env.quoted env.agent_id)
        (text_append " wants to write outside workspace: " reason))

  ask_outside :
      ToolCall
      → String
      → String
      → Option (List Action → String → String → String → Option ApprovalResult)
      → Runtime
      → Stage
  unfolding refuse outside_answer
  ask_outside tc input reason none rt =
      over (refuse tc (text_append "Permission denied: " reason) rt)
  ask_outside tc input reason (some request) rt =
      outside_answer tc input reason
        (request rt.actions outside_action (outside_description reason) input)
        (act (asked_human outside_action (outside_description reason) input) rt)

  abbrev reason_of : BoundaryAnswer → Runtime → String
  reason_of answer rt =
      show_boundary env.quoted env.path_error (env.show_roots rt.workspace_roots) answer

  unfoldable pub bounded : ToolCall → String → BoundaryAnswer → Runtime → Stage
  unfolding ask_outside
  bounded tc input inside rt = on rt
  bounded tc input unresolved rt = ask_outside tc input (reason_of unresolved rt) env.approver rt
  bounded tc input (outside target) rt =
      ask_outside tc input (reason_of (outside target) rt) env.approver rt

  -- Step 2b, the workspace boundary; without roots there is none.
  unfoldable pub boundary_stage : ToolCall → String → List String → Runtime → Stage
  unfolding bounded
  boundary_stage tc input [] rt = on rt
  boundary_stage tc input (root ∷ roots) rt =
      bounded tc input
        (check_workspace_boundary env.json (env.paths rt.actions) tc.name input (root ∷ roots)) rt
