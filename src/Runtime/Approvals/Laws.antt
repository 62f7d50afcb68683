-- ===== src/Runtime/Approvals/Laws.antt =====
-- The permission stage of a tool call (internal/agent/runtime.go, `executeToolCall`, step 2).
use eclaire.Prelude.{◌≡◌, refl, ◌∙◌, Option, none, some, List, String, ◌==◌, if-cases, append_last}
use eclaire.Permissions.{PermissionChecker, Decision, prompt, check_with_mode}
use eclaire.Runtime.{
  ToolCall, ApprovalResult, Action, asked_human, read_clock, Runtime, Setting, act, refuse,
}
use eclaire.Runtime.Clearance.{
  IsPermitted, unchecked, by_rule, by_human, Same, Holds, visible-hidden,
}
use eclaire.Runtime.Approvals.{
  pattern_for, description, permission_stage, decided, ask_human, human_answer, note_approval,
  persist_approvals,
}

module _ (env : Setting) where
  abbrev Kept : Runtime → Runtime → Type 0
  Kept rt rt' = Same rt rt' × (rt'.workspace_roots ≡ rt.workspace_roots)

  persist-Kept : (rt : Runtime) → Kept rt (persist_approvals env rt)
  unfolding persist_approvals
  persist-Kept rt =
      if-cases (Kept rt) (env.session_id == "") _ _ (λ e. ((refl, refl), refl))
        (λ e. ((refl, refl), refl))

  note-Kept :
      (tc : ToolCall) (pattern : String) (c : PermissionChecker) (r : ApprovalResult) (rt : Runtime)
      → Kept rt (note_approval env tc pattern c r rt)
  unfolding note_approval
  note-Kept tc pattern c r rt =
      if-cases (Kept rt) r.persist _ _ (λ e. persist-Kept (record rt { perm_checker = _ }))
        (λ e. ((refl, refl), refl))

  -- The checker is consulted at the instant after `earlier`, and a human asked after `past`.
  human-Holds :
      (tc : ToolCall) (input : String) (c c' : PermissionChecker) (earlier : List Action)
      (past : List Action)
      (request : List Action → String → String → String → Option ApprovalResult)
      (answer : Option ApprovalResult) (rt rt' : Runtime)
      → (check_with_mode env.refill
          (env.clock earlier)
          env.agent_id
          tc.name
          (pattern_for env tc input)
          env.perm_mode
          c).1
        ≡ prompt
      → env.approver ≡ some request
      → request past tc.name (description env tc input) input ≡ answer
      → Kept rt rt'
      → Holds tc rt
          (λ (x : Runtime).
            IsPermitted env tc input (some c) × (x.workspace_roots ≡ rt.workspace_roots))
          (human_answer env tc (pattern_for env tc input) c' answer rt')
  unfolding human_answer refuse
  human-Holds tc input c c' earlier past request none rt rt' asks has answers kept =
      (append_last _ kept.0.1, kept.0.0, refl)
  human-Holds tc input c c' earlier past request (some r) rt rt' asks has answers kept =
      if-cases (Holds tc rt _) r.approved _ _
        (λ e.
          let n = note-Kept tc (pattern_for env tc input) c' r rt' in
          (
            (n.0.0 ∙ kept.0.0, n.0.1 ∙ kept.0.1),
            (by_human c earlier past request r asks has answers e, n.1 ∙ kept.1),
          ))
        (λ e. (append_last _ kept.0.1, kept.0.0, refl))

  ask-Holds :
      (tc : ToolCall) (input : String) (c c' : PermissionChecker) (earlier : List Action)
      (approver : Option (List Action → String → String → String → Option ApprovalResult))
      (rt rt' : Runtime)
      → (check_with_mode env.refill
          (env.clock earlier)
          env.agent_id
          tc.name
          (pattern_for env tc input)
          env.perm_mode
          c).1
        ≡ prompt
      → env.approver ≡ approver
      → Kept rt rt'
      → Holds tc rt
          (λ (x : Runtime).
            IsPermitted env tc input (some c) × (x.workspace_roots ≡ rt.workspace_roots))
          (ask_human env tc input c' approver rt')
  unfolding ask_human refuse
  ask-Holds tc input c c' earlier none rt rt' asks has kept =
      (append_last _ kept.0.1, kept.0.0, refl)
  ask-Holds tc input c c' earlier (some request) rt rt' asks has kept =
      human-Holds tc input c c' earlier rt'.actions request _ rt
        (act (asked_human tc.name (description env tc input) input) rt') asks has refl
        ((visible-hidden rt'.actions _ refl ∙ kept.0.0, kept.0.1), kept.1)

  decided-Holds :
      (tc : ToolCall) (input : String) (c : PermissionChecker) (earlier : List Action)
      (x : PermissionChecker × Decision) (rt rt' : Runtime)
      → (check_with_mode env.refill
          (env.clock earlier)
          env.agent_id
          tc.name
          (pattern_for env tc input)
          env.perm_mode
          c).1
        ≡ x.1
      → Kept rt rt'
      → Holds tc rt
          (λ (x : Runtime).
            IsPermitted env tc input (some c) × (x.workspace_roots ≡ rt.workspace_roots))
          (decided env tc input x rt')
  unfolding decided refuse
  decided-Holds tc input c earlier (c', Decision.allowed) rt rt' h kept =
      (kept.0, (by_rule c earlier h, kept.1))
  decided-Holds tc input c earlier (c', Decision.prompt) rt rt' h kept =
      ask-Holds tc input c c' earlier env.approver rt (record rt' { perm_checker = some c' }) h refl
        kept
  decided-Holds tc input c earlier (c', Decision.deny) rt rt' h kept =
      (append_last _ kept.0.1, kept.0.0, refl)

  pub permission_stage-Holds :
      (tc : ToolCall) (input : String) (o : Option PermissionChecker) (rt : Runtime)
      → Holds tc rt
          (λ (x : Runtime). IsPermitted env tc input o × (x.workspace_roots ≡ rt.workspace_roots))
          (permission_stage env tc input o rt)
  unfolding permission_stage
  permission_stage-Holds tc input none rt = ((refl, refl), (unchecked, refl))
  permission_stage-Holds tc input (some c) rt =
      decided-Holds tc input c rt.actions _ rt (act read_clock rt) refl
        ((visible-hidden rt.actions read_clock refl, refl), refl)
