-- ===== src/Permissions/Patterns/Chains.antt =====
-- What an approval of a pattern covers (internal/tool/permission.go, `ApprovePattern`,
-- `ExtractCommandPattern`, `CheckWithMode`).
use eclaire.Prelude.{
  ◌≡◌, ◌≢◌, refl, ap, ◌∙◌, ℕ, suc, Bool, true, false, ◌||◌, some, String, arith, eq_iff, eq_refl,
}
use eclaire.Prelude.Times.{Time}
use eclaire.RateLimits.{Refill}
use eclaire.Tools.{key, TrustTier, effective_tier}
use eclaire.Permissions.{
  PermissionChecker, PermissionMode, allowed, prompt, is_approved, approve_pattern, check_with_mode,
  decide, gate, after_rate,
}
use eclaire.Permissions.Patterns.{
  ShellLib, Stmt, Stmts, stmts, binary_cmd, pattern_from_stmt, pattern_from_first,
  pattern_from_prog, extract_command_pattern,
}

chain-first :
    (lib : ShellLib) (fuel : ℕ) (cmd : String) (x y : Stmt) (ss : Stmts)
    → lib.parse cmd ≡ some (stmts (binary_cmd x y) ss)
    → pattern_from_stmt lib (extract_command_pattern lib fuel) x ≢ ""
    → extract_command_pattern lib (suc fuel) cmd
      ≡ pattern_from_stmt lib (extract_command_pattern lib fuel) x
unfolding extract_command_pattern pattern_from_prog pattern_from_stmt pattern_from_first
chain-first lib fuel cmd x y ss e h =
    ap (pattern_from_prog lib (extract_command_pattern lib fuel)) e
    ∙ ground (arith, h, eq_iff (pattern_from_stmt lib (extract_command_pattern lib fuel) x) "")

or_both : (a b c : Bool) → b ≡ true → a || (b || c) ≡ true
or_both true b c h = refl
or_both false true c h = refl
or_both false false c h = cc

approved_by :
    (agent p : String) (c : PermissionChecker)
    → p ≢ ""
    → is_approved (key agent "shell") "shell" p (approve_pattern agent "shell" p c) ≡ true
unfolding is_approved approve_pattern
approved_by agent p c h = ground (arith, h, eq_iff p "", eq_refl (key (key agent "shell") p))

module _ (refill : Refill) where
  rated :
      (agent tool : String) (tier : TrustTier) (x : PermissionChecker × Bool)
      → (after_rate agent tool tier x).1 ≢ prompt
  unfolding after_rate
  rated agent tool tier (c, true) h = cc
  rated agent tool tier (c, false) h = cc

  not_asked :
      (now : Time) (agent tool : String) (c : PermissionChecker) (tier : TrustTier)
      → (gate refill now agent tool tier allowed c).1 ≢ prompt
  unfolding gate
  not_asked now agent tool c TrustTier.read_only h = cc
  not_asked now agent tool c TrustTier.modify h = rated agent tool TrustTier.modify _ h
  not_asked now agent tool c TrustTier.dangerous h = rated agent tool TrustTier.dangerous _ h
  not_asked now agent tool c (TrustTier.other_tier n) h = cc

  approved-unasked :
      (now : Time) (agent p : String) (mode : PermissionMode) (c : PermissionChecker)
      → is_approved (key agent "shell") "shell" p c ≡ true
      → (check_with_mode refill now agent "shell" p mode c).1 ≢ prompt
  unfolding check_with_mode decide
  approved-unasked now agent p mode c e =
      rw e (not_asked now agent "shell" c (effective_tier c.registry agent "shell"))

  -- A human who approves the pattern of the first command of a chain approves every chain that
  -- begins with this command: whatever follows it, the pattern of the chain is the same, and the call
  -- is not shown to a human again.
  pub approve_pattern-chain :
      (lib : ShellLib) (fuel : ℕ) (cmd : String) (x y : Stmt) (ss : Stmts) (now : Time)
      (agent : String) (mode : PermissionMode) (c : PermissionChecker)
      → lib.parse cmd ≡ some (stmts (binary_cmd x y) ss)
      → pattern_from_stmt lib (extract_command_pattern lib fuel) x ≢ ""
      → let p = extract_command_pattern lib (suc fuel) cmd in
        let first = pattern_from_stmt lib (extract_command_pattern lib fuel) x in
        (p ≡ first)
        × ((check_with_mode refill now agent "shell" p mode
              (approve_pattern agent "shell" first c)).1
            ≢ prompt)
  approve_pattern-chain lib fuel cmd x y ss now agent mode c e h =
      let first = pattern_from_stmt lib (extract_command_pattern lib fuel) x in
      let same = chain-first lib fuel cmd x y ss e h in
      (
        same,
        approved-unasked now agent _ mode (approve_pattern agent "shell" first c) (
            ap
              (λ (p : String).
                is_approved (key agent "shell") "shell" p (approve_pattern agent "shell" first c))
              same
            ∙ approved_by agent first c h),
      )
