-- ===== src/Runtime/Workspace/Laws.antt =====
-- The boundary stage of a tool call (internal/agent/runtime.go, `executeToolCall`, step 2b).
use eclaire.Prelude.{◌≡◌, refl, Option, none, some, List, [], ◌∷◌, String, if-cases, append_last}
use eclaire.Inputs.Workspace.{check_workspace_boundary, BoundaryAnswer, inside, unresolved, outside}
use eclaire.Runtime.{ToolCall, ApprovalResult, Action, asked_human, Runtime, Setting, act, refuse}
use eclaire.Runtime.Clearance.{
  IsInBounds, no_roots, within, approved_outside, Same, Holds, visible-hidden,
}
use eclaire.Runtime.Workspace.{
  outside_action, outside_description, boundary_stage, bounded, ask_outside, outside_answer, extend,
}

module _ (env : Setting) where
  outside-Holds :
      (tc : ToolCall) (input reason : String) (roots : List String) (past : List Action)
      (request : List Action → String → String → String → Option ApprovalResult)
      (answer : Option ApprovalResult) (rt rt' : Runtime)
      → env.approver ≡ some request
      → request past outside_action (outside_description env reason) input ≡ answer
      → Same rt rt'
      → Holds tc rt
          (λ (x : Runtime). IsInBounds env tc input roots)
          (outside_answer env tc input reason answer rt')
  unfolding outside_answer refuse extend
  outside-Holds tc input reason roots past request none rt rt' has answers same =
      (append_last _ same.1, same.0, refl)
  outside-Holds tc input reason roots past request (some r) rt rt' has answers same =
      if-cases (Holds tc rt _) r.approved _ _
        (λ e. (same, approved_outside past reason request r has answers e))
        (λ e. (append_last _ same.1, same.0, refl))

  ask-Holds :
      (tc : ToolCall) (input reason : String) (roots : List String)
      (approver : Option (List Action → String → String → String → Option ApprovalResult))
      (rt : Runtime)
      → env.approver ≡ approver
      → Holds tc rt
          (λ (x : Runtime). IsInBounds env tc input roots)
          (ask_outside env tc input reason approver rt)
  unfolding ask_outside refuse
  ask-Holds tc input reason roots none rt has = (refl, refl, refl)
  ask-Holds tc input reason roots (some request) rt has =
      outside-Holds tc input reason roots rt.actions request _ rt
        (act (asked_human outside_action (outside_description env reason) input) rt) has refl
        (visible-hidden rt.actions _ refl, refl)

  bounded-Holds :
      (tc : ToolCall) (input : String) (roots : List String) (past : List Action)
      (answer : BoundaryAnswer) (rt : Runtime)
      → check_workspace_boundary env.json (env.paths past) tc.name input roots ≡ answer
      → Holds tc rt
          (λ (x : Runtime). IsInBounds env tc input roots)
          (bounded env tc input answer rt)
  unfolding bounded
  bounded-Holds tc input roots past inside rt h = ((refl, refl), within past h)
  bounded-Holds tc input roots past unresolved rt h =
      ask-Holds tc input _ roots env.approver rt refl
  bounded-Holds tc input roots past (outside target) rt h =
      ask-Holds tc input _ roots env.approver rt refl

  pub boundary_stage-Holds :
      (tc : ToolCall) (input : String) (roots : List String) (rt : Runtime)
      → Holds tc rt
          (λ (x : Runtime). IsInBounds env tc input roots)
          (boundary_stage env tc input roots rt)
  unfolding boundary_stage
  boundary_stage-Holds tc input [] rt = ((refl, refl), no_roots refl)
  boundary_stage-Holds tc input (root ∷ roots) rt =
      bounded-Holds tc input (root ∷ roots) rt.actions _ rt refl
