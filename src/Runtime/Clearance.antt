-- ===== src/Runtime/Clearance.antt =====
-- What lets a tool call pass the checks before its run (internal/agent/runtime.go,
-- `executeToolCall`), and what the world outside and the subscriber see of a call.
use eclaire.Prelude.{
  ◌≡◌, refl, ap, inl, inr, Bool, true, false, Option, none, some, List, [], ◌∷◌, ◌++◌, String,
  Bool-cases, select,
}
use eclaire.Inputs.Workspace.{check_workspace_boundary, inside}
use eclaire.Permissions.{PermissionChecker, allowed, prompt, check_with_mode}
use eclaire.Runtime.{
  ToolCall, Output, output_text, output_error, ApprovalResult, tool_result, Action, asked_model,
  ran_tool, Runtime, Setting, Stage, over, on,
}
use eclaire.Runtime.Approvals.{pattern_for, description}
use eclaire.Runtime.Workspace.{outside_action, outside_description}

-- The requests to the model and the runs of tools.
abbrev pub is_visible : Action → Bool
is_visible asked_model = true
is_visible (ran_tool tc) = true
is_visible _ = false

abbrev pub visible : List Action → List Action
visible actions = select is_visible actions

abbrev pub shown : Output → String
shown (output_text s) = s
shown (output_error s) = s

pub visible-hidden :
    (xs : List Action) (a : Action) → is_visible a ≡ false → visible (xs ++ a ∷ []) ≡ visible xs
visible-hidden [] a h = rw h refl
visible-hidden (x ∷ xs) a h = elim (Bool-cases (is_visible x)) [
  | inl e ↦ rw e (ap (◌∷◌ x) (visible-hidden xs a h))
  | inr e ↦ rw e (visible-hidden xs a h)
]

pub visible-seen :
    (xs : List Action) (a : Action)
    → is_visible a ≡ true
    → visible (xs ++ a ∷ []) ≡ visible xs ++ a ∷ []
visible-seen [] a h = rw h refl
visible-seen (x ∷ xs) a h = elim (Bool-cases (is_visible x)) [
  | inl e ↦ rw e (ap (◌∷◌ x) (visible-seen xs a h))
  | inr e ↦ rw e (visible-seen xs a h)
]

-- Why the permission check lets a call pass: there is no checker, it allows the call, or it asks
-- and a human approves the call with its input. The clock is read after what was asked `earlier`, and
-- the human is asked after some past of the run.
pub data IsPermitted (env : Setting) (tc : ToolCall) (input : String)
    : Option PermissionChecker → Type 0 where
  unchecked : IsPermitted env tc input none
  by_rule :
      (c : PermissionChecker) (earlier : List Action)
      → (check_with_mode env.refill
          (env.clock earlier)
          env.agent_id
          tc.name
          (pattern_for env tc input)
          env.perm_mode
          c).1
        ≡ allowed
      → IsPermitted env tc input (some c)
  by_human :
      (c : PermissionChecker) (earlier : List Action) (past : List Action)
      (request : List Action → String → String → String → Option ApprovalResult)
      (r : ApprovalResult)
      → (check_with_mode env.refill
          (env.clock earlier)
          env.agent_id
          tc.name
          (pattern_for env tc input)
          env.perm_mode
          c).1
        ≡ prompt
      → env.approver ≡ some request
      → request past tc.name (description env tc input) input ≡ some r
      → r.approved ≡ true
      → IsPermitted env tc input (some c)

-- Why the boundary lets a call pass: there are no roots, what it writes is inside one of them, or a
-- human approves the write outside.
pub data IsInBounds (env : Setting) (tc : ToolCall) (input : String) (roots : List String)
    : Type 0 where
  no_roots : roots ≡ [] → IsInBounds env tc input roots
  within :
      (past : List Action)
      → check_workspace_boundary env.json (env.paths past) tc.name input roots ≡ inside
      → IsInBounds env tc input roots
  approved_outside :
      (past : List Action) (reason : String)
      (request : List Action → String → String → String → Option ApprovalResult)
      (r : ApprovalResult)
      → env.approver ≡ some request
      → request past outside_action (outside_description env reason) input ≡ some r
      → r.approved ≡ true
      → IsInBounds env tc input roots

-- What the stages before the run leave as it is.
abbrev pub Same : Runtime → Runtime → Type 0
Same rt rt' = (visible rt'.actions ≡ visible rt.actions) × (rt'.events ≡ rt.events)

-- What holds of the stage in either case.
abbrev pub Holds : ToolCall → Runtime → (Runtime → Type 0) → Stage → Type 0
Holds tc rt P (over x) =
    (x.0.events ≡ rt.events ++ tool_result tc.name tc.id (shown x.1.output) ∷ [])
    × (visible x.0.actions ≡ visible rt.actions)
    × (x.1.is_error ≡ true)
Holds tc rt P (on rt') = Same rt rt' × P rt'
