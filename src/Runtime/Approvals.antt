-- ===== src/Runtime/Approvals.antt =====
-- The permission of a tool call, and a human's approval (internal/agent/runtime.go,
-- `executeToolCall`, step 2, and `persistApprovals`).
pub mod Laws
use eclaire.Prelude.{
  ℕ, zero, suc, Bool, true, false, not, ◌&&◌, ◌||◌, Option, none, some, List, [], ◌∷◌, ◌++◌, String,
  ◌==◌, if◌then◌else◌, map,
}
use eclaire.Prelude.Text.{text_append}
use eclaire.Prelude.Times.{Time, ℤ}
use eclaire.Prelude.Dict.{Dict}
use eclaire.Hooks.{
  Runner, PreAnswer, passed, denied_with, broken, PostAnswer, said, post_broken, run_pre, run_post,
  pre_tool_use, post_tool_use, post_tool_use_failure, HookLib,
}
use eclaire.Inputs.{JsonLib, InputError, validate_tool_input, show_error, summarize_tool_input}
use eclaire.Inputs.Workspace.{
  PathLib, check_workspace_boundary, extract_write_dir, BoundaryAnswer, inside, unresolved, outside,
  show_boundary,
}
use eclaire.RateLimits.{Refill}
use eclaire.Permissions.{
  PermissionChecker, PermissionMode, Decision, allowed, prompt, deny, check_with_mode, approve,
  approve_pattern,
}
use eclaire.Permissions.Patterns.{ShellLib, extract_shell_pattern}
use eclaire.Sessions.{SessionStore, save_patterns}
use eclaire.Runtime.{
  ToolCall, ToolAnswer, responded, tool_failed, Output, output_text, output_error, ToolResult,
  ApprovalResult, StreamEvent, tool_result, Action, asked_human, ran_hooks, ran_tool, read_clock,
  Runtime, Setting, act, emit, Stage, over, on, refuse,
}

module _ (env : Setting) where
  with_keys : List String → Dict (List String)
  with_keys [] = []
  with_keys (k ∷ ks) = (k, []) ∷ with_keys ks

  saved_sessions : Option PermissionChecker → Option SessionStore → Option SessionStore
  unfolding with_keys
  saved_sessions (some c) (some s) = some (save_patterns env.session_id (with_keys c.approved) s)
  saved_sessions none s = s
  saved_sessions (some c) none = none

  unfoldable pub persist_approvals : Runtime → Runtime
  unfolding saved_sessions
  persist_approvals rt =
      if env.session_id == ""
      then rt
      else record rt { sessions = saved_sessions rt.perm_checker rt.sessions }

  abbrev pub pattern_for : ToolCall → String → String
  pattern_for tc input =
      if tc.name == "shell" then extract_shell_pattern env.json env.shell input else ""

  -- `result.Persist`
  note_approval : ToolCall → String → PermissionChecker → ApprovalResult → Runtime → Runtime
  unfolding persist_approvals
  note_approval tc pattern c r rt =
      if r.persist
      then persist_approvals (record rt {
        perm_checker = some (
            if pattern == ""
            then approve env.agent_id tc.name c
            else approve_pattern env.agent_id tc.name pattern c);
      })
      else rt

  abbrev unapproved : ToolCall → String → String
  unapproved tc reason = text_append "permission denied: tool " (
      text_append (env.quoted tc.name)
        (text_append " was not approved" (if reason == "" then "" else text_append ": " reason)))

  abbrev pub description : ToolCall → String → String
  description tc input =
      let summary = summarize_tool_input env.json env.cut tc.name input in
      text_append "Agent " (
        text_append (env.quoted env.agent_id) (
          text_append " wants to use tool " (
            text_append (env.quoted tc.name)
              (if summary == "" then "" else text_append "\n" summary))))

  -- `none` is the error of the request, which comes with no reason (`ApprovalGate.Request`).
  human_answer : ToolCall → String → PermissionChecker → Option ApprovalResult → Runtime → Stage
  unfolding refuse note_approval
  human_answer tc pattern c none rt = over (refuse tc (unapproved tc "") rt)
  human_answer tc pattern c (some r) rt =
      if r.approved
      then on (note_approval tc pattern c r rt)
      else over (refuse tc (unapproved tc r.reason) rt)

  ask_human :
      ToolCall
      → String
      → PermissionChecker
      → Option (List Action → String → String → String → Option ApprovalResult)
      → Runtime
      → Stage
  unfolding refuse human_answer
  ask_human tc input c none rt = over (
      refuse tc
        (text_append "permission denied: tool "
          (text_append (env.quoted tc.name) " requires approval but no approver available"))
        rt)
  ask_human tc input c (some request) rt =
      human_answer tc (pattern_for tc input) c
        (request rt.actions tc.name (description tc input) input)
        (act (asked_human tc.name (description tc input) input) rt)

  unfoldable pub decided : ToolCall → String → PermissionChecker × Decision → Runtime → Stage
  unfolding refuse ask_human
  decided tc input (c, Decision.allowed) rt = on (record rt { perm_checker = some c })
  decided tc input (c, Decision.prompt) rt =
      ask_human tc input c env.approver (record rt { perm_checker = some c })
  decided tc input (c, Decision.deny) rt = over (
      refuse tc
        (text_append "Permission denied for tool "
          (text_append (env.quoted tc.name) " under current mode"))
        (record rt { perm_checker = some c }))

  -- Step 2, the permission check.
  unfoldable pub permission_stage : ToolCall → String → Option PermissionChecker → Runtime → Stage
  unfolding decided
  permission_stage tc input none rt = on rt
  permission_stage tc input (some c) rt =
      decided tc input
        (check_with_mode env.refill (env.clock rt.actions) env.agent_id tc.name
          (pattern_for tc input) env.perm_mode c)
        (act read_clock rt)
