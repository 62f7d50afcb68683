-- ===== src/Runtime/Calls/Safety.antt =====
-- Which tool calls run, and what each leaves behind (internal/agent/runtime.go, `executeToolCall`).
use eclaire.Prelude.{
  ◌≡◌, refl, ap, ◌∙◌, ◌⊎◌, inl, inr, Bool, true, false, Option, none, some, List, [], ◌∷◌, ◌++◌,
  String, ◌==◌, if◌then◌else◌, append_last,
}
use mathlib.Core.Path.{subst}
use eclaire.Permissions.{PermissionChecker}
use eclaire.Hooks.{PreAnswer, passed, denied_with, broken, run_pre, Runner, pre_tool_use}
use eclaire.Inputs.{validate_tool_input, InputError}
use eclaire.Runtime.{
  ToolCall, ToolAnswer, ToolResult, tool_result, Action, ran_tool, Runtime, Setting, act, Stage,
  over, on, refuse,
}
use eclaire.Runtime.Clearance.{
  IsPermitted, IsInBounds, Same, Holds, visible, visible-hidden, visible-seen, shown,
}
use eclaire.Runtime.Approvals.{permission_stage}
use eclaire.Runtime.Approvals.Laws.{permission_stage-Holds}
use eclaire.Runtime.Workspace.{boundary_stage}
use eclaire.Runtime.Workspace.Laws.{boundary_stage-Holds}
use eclaire.Runtime.Calls.{
  known, run_known, run_stage, finish_call, note_hooks, after_boundary, after_permission, go_on,
  after_pre, execute_tool_call,
}

-- The input that a call has behind the hooks; a denial leaves none.
abbrev pub hooked_input : ToolCall → PreAnswer → Option String
hooked_input tc (passed updated) = some (if updated == "" then tc.input else updated)
hooked_input tc (denied_with message) = none
hooked_input tc (broken error) = some tc.input

-- Every check that stands before the run of a tool.
abbrev pub IsCleared : Setting → ToolCall → Runtime → String → Type 0
IsCleared env tc rt input =
    (hooked_input tc
        (run_pre (env.hooks rt.actions) env.hook_runner tc.name tc.input env.agent_id "")
      ≡ some input)
    × IsPermitted env tc input rt.perm_checker
    × IsInBounds env tc input rt.workspace_roots
    × (validate_tool_input env.json input ≡ none)
    × (known tc.name env.tools ≡ true)

abbrev pub ran : ToolCall → String → Action
ran tc input = ran_tool (record { id = tc.id; name = tc.name; input = input })

-- A call that ends in one event with the text of its result, and ran its tool once or not at all.
abbrev pub Answered : ToolCall → (String → Type 0) → Runtime → Runtime × ToolResult → Type 0
Answered tc Cleared rt x =
    (x.0.events ≡ rt.events ++ tool_result tc.name tc.id (shown x.1.output) ∷ [])
    × (((visible x.0.actions ≡ visible rt.actions) × (x.1.is_error ≡ true))
        ⊎ ((input : String) × Cleared input
            × (visible x.0.actions ≡ visible rt.actions ++ ran tc input ∷ [])))

module _ (env : Setting) where
  pub note_hooks-Same :
      (event name : String) (runner : Runner) (rt : Runtime)
      → Same rt (note_hooks env event name runner rt)
  unfolding note_hooks
  note_hooks-Same event name none rt = (refl, refl)
  note_hooks-Same event name (some hooks) rt = (visible-hidden rt.actions _ refl, refl)

  pub finish-Answered :
      (tc : ToolCall) (input : String) (answer : ToolAnswer) (rt : Runtime)
      → let x = finish_call env tc input answer rt in
        (x.0.events ≡ rt.events ++ tool_result tc.name tc.id (shown x.1.output) ∷ [])
        × (visible x.0.actions ≡ visible rt.actions)
  unfolding finish_call
  finish-Answered tc input answer rt =
      let n = note_hooks-Same _ tc.name env.hook_runner rt in (append_last _ n.1, n.0)

  known-Answered :
      (tc : ToolCall) (input : String) (b : Bool) (Cleared : String → Type 0) (rt rt' : Runtime)
      → (b ≡ true → Cleared input)
      → Same rt rt'
      → Answered tc Cleared rt (run_known env tc input b rt')
  unfolding run_known
  known-Answered tc input true Cleared rt rt' clear same =
      let call : ToolCall = record { id = tc.id; name = tc.name; input = input } in
      let f = finish-Answered tc input (env.run_tool rt'.actions call) (act (ran tc input) rt') in
      (
        f.0 ∙ append_last _ same.1,
        inr (
          input,
          clear refl,
          f.1 ∙ visible-seen rt'.actions (ran tc input) refl ∙ append_last (ran tc input) same.0,
        ),
      )
  known-Answered tc input false Cleared rt rt' clear same =
      (append_last _ same.1, inl (same.0, refl))

  run-Answered :
      (tc : ToolCall) (input : String) (error : Option InputError) (Cleared : String → Type 0)
      (rt rt' : Runtime)
      → (error ≡ none → known tc.name env.tools ≡ true → Cleared input)
      → Same rt rt'
      → Answered tc Cleared rt (run_stage env tc input error rt')
  unfolding run_stage refuse
  run-Answered tc input (some error) Cleared rt rt' clear same =
      (append_last _ same.1, inl (same.0, refl))
  run-Answered tc input none Cleared rt rt' clear same =
      known-Answered tc input (known tc.name env.tools) Cleared rt rt' (clear refl) same

  boundary-Answered :
      (tc : ToolCall) (input : String) (roots : List String) (Cleared : String → Type 0)
      (rt rt' : Runtime) (stage : Stage)
      → (IsInBounds env tc input roots
          → validate_tool_input env.json input ≡ none
          → known tc.name env.tools ≡ true
          → Cleared input)
      → Same rt rt'
      → Holds tc rt' (λ (x : Runtime). IsInBounds env tc input roots) stage
      → Answered tc Cleared rt (after_boundary env tc input stage)
  unfolding after_boundary
  boundary-Answered tc input roots Cleared rt rt' (over x) clear same (told, kept, failed) =
      (told ∙ append_last _ same.1, inl (kept ∙ same.0, failed))
  boundary-Answered tc input roots Cleared rt rt' (on rt'') clear same ((seen, told), bounds) =
      run-Answered tc input _ Cleared rt rt'' (clear bounds) (seen ∙ same.0, told ∙ same.1)

  permission-Answered :
      (tc : ToolCall) (input : String) (o : Option PermissionChecker) (Cleared : String → Type 0)
      (rt rt' : Runtime) (stage : Stage)
      → (IsPermitted env tc input o
          → IsInBounds env tc input rt.workspace_roots
          → validate_tool_input env.json input ≡ none
          → known tc.name env.tools ≡ true
          → Cleared input)
      → Same rt rt'
      → rt'.workspace_roots ≡ rt.workspace_roots
      → Holds tc rt'
          (λ (x : Runtime). IsPermitted env tc input o × (x.workspace_roots ≡ rt'.workspace_roots))
          stage
      → Answered tc Cleared rt (after_permission env tc input stage)
  unfolding after_permission
  permission-Answered tc input o Cleared rt rt' (over x) clear same roots (told, kept, failed) =
      (told ∙ append_last _ same.1, inl (kept ∙ same.0, failed))
  permission-Answered tc input o Cleared rt rt' (on rt'') clear same roots
        ((seen, told), (may, r)) =
      boundary-Answered tc input rt''.workspace_roots Cleared rt rt''
        (boundary_stage env tc input rt''.workspace_roots rt'')
        (λ bounds. clear may (subst (IsInBounds env tc input) (r ∙ roots) bounds))
        (seen ∙ same.0, told ∙ same.1) (boundary_stage-Holds env tc input rt''.workspace_roots rt'')

  go_on-Answered :
      (tc : ToolCall) (input : String) (rt rt' : Runtime)
      → hooked_input tc
          (run_pre (env.hooks rt.actions) env.hook_runner tc.name tc.input env.agent_id "")
        ≡ some input
      → Same rt rt'
      → rt'.perm_checker ≡ rt.perm_checker
      → rt'.workspace_roots ≡ rt.workspace_roots
      → Answered tc (IsCleared env tc rt) rt (go_on env tc input rt')
  unfolding go_on
  go_on-Answered tc input rt rt' hooked same checker roots =
      permission-Answered tc input rt'.perm_checker (IsCleared env tc rt) rt rt'
        (permission_stage env tc input rt'.perm_checker rt')
        (λ may bounds valid there.
          (hooked, subst (IsPermitted env tc input) checker may, bounds, valid, there))
        same roots (permission_stage-Holds env tc input rt'.perm_checker rt')

  pub hooks-Kept :
      (event name : String) (runner : Runner) (rt : Runtime)
      → ((note_hooks env event name runner rt).perm_checker ≡ rt.perm_checker)
        × ((note_hooks env event name runner rt).workspace_roots ≡ rt.workspace_roots)
  unfolding note_hooks
  hooks-Kept event name none rt = (refl, refl)
  hooks-Kept event name (some hooks) rt = (refl, refl)

  pre-Answered :
      (tc : ToolCall) (answer : PreAnswer) (rt rt' : Runtime)
      → run_pre (env.hooks rt.actions) env.hook_runner tc.name tc.input env.agent_id "" ≡ answer
      → Same rt rt'
      → rt'.perm_checker ≡ rt.perm_checker
      → rt'.workspace_roots ≡ rt.workspace_roots
      → Answered tc (IsCleared env tc rt) rt (after_pre env tc answer rt')
  unfolding after_pre refuse
  pre-Answered tc (denied_with message) rt rt' e same checker roots =
      (append_last _ same.1, inl (same.0, refl))
  pre-Answered tc (passed updated) rt rt' e same checker roots =
      go_on-Answered tc _ rt rt' (ap (hooked_input tc) e) same checker roots
  pre-Answered tc (broken error) rt rt' e same checker roots =
      go_on-Answered tc _ rt rt' (ap (hooked_input tc) e) same checker roots

  -- Each tool call tells the subscriber its result in exactly one event. Either its tool is not run
  -- and the result is an error, or the tool is run once, with an input for which: the hooks did not
  -- deny the call; the permission checker, if there is one, allowed the call at an instant that the clock told, or asked
  -- and a human approved it; the workspace check, if there are roots, answered that the call is inside
  -- them, or a human approved a write outside; the input is valid; and the agent has the tool.
  pub execute_tool_call-Answered :
      (tc : ToolCall) (rt : Runtime)
      → Answered tc (IsCleared env tc rt) rt (execute_tool_call env tc rt)
  unfolding execute_tool_call
  execute_tool_call-Answered tc rt =
      let k = hooks-Kept pre_tool_use tc.name env.hook_runner rt in
      pre-Answered tc _ rt _ refl (note_hooks-Same pre_tool_use tc.name env.hook_runner rt) k.0 k.1
