-- ===== src/Permissions/Decisions.antt =====
-- Which calls pass the gate (internal/tool/permission.go, `CheckWithMode`).
use eclaire.Prelude.{
  ◌≡◌, ◌≢◌, refl, ◌∙◌, ◌↔◌, Bool, true, false, ◌&&◌, String, eq_iff, if◌then◌else◌, arith,
  Bool-cases, inl, inr,
}
use eclaire.Prelude.Times.{Time}
use eclaire.Prelude.Dict.{get, get-put}
use eclaire.Tools.{TrustTier, key, effective_tier}
use eclaire.RateLimits.{Refill}
use eclaire.Permissions.{
  Decision, allowed, prompt, deny, PermissionMode, PermissionChecker, is_approved, by_mode, by_tier,
  decide, gate, only_read, after_rate, log_audit, check_tool_rate, check_with_mode, is_limited,
  is_allow,
}

-- Why a call may run: it was approved, the mode lets everything run, or the mode and the tier of the
-- tool let it run without approval.
pub data IsAuthorised (approved : Bool) : PermissionMode → TrustTier → Type 0 where
  by_approval :
      (mode : PermissionMode) (tier : TrustTier) → approved ≡ true → IsAuthorised approved mode tier
  open_mode : (tier : TrustTier) → IsAuthorised approved PermissionMode.allow_all tier
  reading : IsAuthorised approved PermissionMode.only_reading TrustTier.read_only
  harmless : IsAuthorised approved PermissionMode.write_only TrustTier.read_only
  changing : IsAuthorised approved PermissionMode.write_only TrustTier.modify

allowed_by_mode :
    (b : Bool) (mode : PermissionMode) (tier : TrustTier)
    → by_mode mode tier ≡ allowed
    → IsAuthorised b mode tier
unfolding by_mode by_tier only_read
allowed_by_mode b PermissionMode.allow_all tier h = open_mode tier
allowed_by_mode b PermissionMode.only_reading TrustTier.read_only h = reading
allowed_by_mode b PermissionMode.only_reading TrustTier.modify h = cc
allowed_by_mode b PermissionMode.only_reading TrustTier.dangerous h = cc
allowed_by_mode b PermissionMode.only_reading (TrustTier.other_tier n) h = cc
allowed_by_mode b PermissionMode.write_only TrustTier.read_only h = harmless
allowed_by_mode b PermissionMode.write_only TrustTier.modify h = changing
allowed_by_mode b PermissionMode.write_only TrustTier.dangerous h = cc
allowed_by_mode b PermissionMode.write_only (TrustTier.other_tier n) h = cc
allowed_by_mode b (PermissionMode.other_mode n) tier h = cc

decide-IsAuthorised :
    (b : Bool) (mode : PermissionMode) (tier : TrustTier)
    → decide b mode tier ≡ allowed
    → IsAuthorised b mode tier
unfolding decide
decide-IsAuthorised true mode tier h = by_approval mode tier refl
decide-IsAuthorised false mode tier h = allowed_by_mode false mode tier h

module _ (refill : Refill) where
  gate-allowed :
      (now : Time) (agent tool : String) (tier : TrustTier) (d : Decision) (c : PermissionChecker)
      → (gate refill now agent tool tier d c).1 ≡ allowed
      → d ≡ allowed
  unfolding gate
  gate-allowed now agent tool tier Decision.allowed c h = refl
  gate-allowed now agent tool tier Decision.prompt c h = h
  gate-allowed now agent tool tier Decision.deny c h = h

  -- A call that `CheckWithMode` allows is authorised: it is approved, or the mode allows
  -- everything, or its tool only reads and the mode is the read-only or the default one, or its
  -- tool modifies and the mode is the default one.
  pub check_with_mode-IsAuthorised :
      (now : Time) (agent tool pattern : String) (mode : PermissionMode) (c : PermissionChecker)
      → (check_with_mode refill now agent tool pattern mode c).1 ≡ allowed
      → IsAuthorised
          (is_approved (key agent tool) tool pattern c)
          mode
          (effective_tier c.registry agent tool)
  unfolding check_with_mode
  check_with_mode-IsAuthorised now agent tool pattern mode c h =
      decide-IsAuthorised _ mode _ (gate-allowed now agent tool _ _ c h)

  -- What a check leaves as it is, seen from the key `k`.
  abbrev SameFor : String → PermissionChecker → PermissionChecker → Type 0
  SameFor k c c' =
      (c'.approved ≡ c.approved)
      × (c'.registry ≡ c.registry)
      × (get c'.tool_rates k ≡ get c.tool_rates k)

  after_rate-SameFor :
      (agent tool k : String) (tier : TrustTier) (c : PermissionChecker)
      (x : PermissionChecker × Bool)
      → SameFor k c x.0
      → SameFor k c (after_rate agent tool tier x).0
  unfolding after_rate log_audit
  after_rate-SameFor agent tool k tier c (c', true) h = h
  after_rate-SameFor agent tool k tier c (c', false) h = h

  other_rate :
      (now : Time) (k j : String) (tier : TrustTier) (c : PermissionChecker)
      → j ≢ k
      → SameFor j c (check_tool_rate refill now k tier c).0
  unfolding check_tool_rate
  other_rate now k j tier c h =
      (refl, refl, get-put c.tool_rates k j _ ∙ ground (arith, h, eq_iff k j))

  gate-SameFor :
      (now : Time) (agent tool k : String) (tier : TrustTier) (d : Decision) (c : PermissionChecker)
      → k ≢ key agent tool
      → SameFor k c (gate refill now agent tool tier d c).0
  unfolding gate log_audit
  gate-SameFor now agent tool k tier d c h = elim (Bool-cases (is_allow d && is_limited tier)) [
    | inl e ↦
        rw e (after_rate-SameFor agent tool k tier c _ (other_rate now (key agent tool) k tier c h))
    | inr e ↦ rw e (refl, refl, refl)
  ]

  -- A check approves nothing, changes no tier, and uses up no rate of another agent or tool.
  pub check_with_mode-isolated :
      (now : Time) (agent tool pattern k : String) (mode : PermissionMode) (c : PermissionChecker)
      → k ≢ key agent tool
      → let c' = (check_with_mode refill now agent tool pattern mode c).0 in
        (c'.approved ≡ c.approved)
        × (c'.registry ≡ c.registry)
        × (get c'.tool_rates k ≡ get c.tool_rates k)
  unfolding check_with_mode
  check_with_mode-isolated now agent tool pattern k mode c h = gate-SameFor now agent tool k _ _ c h

  abbrev pub reads : TrustTier → Bool
  reads TrustTier.read_only = true
  reads _ = false

  -- The tiers that a human must approve in the default mode.
  abbrev pub held : TrustTier → Bool
  held TrustTier.read_only = false
  held TrustTier.modify = false
  held _ = true

  reading-answer :
      (now : Time) (agent tool : String) (tier : TrustTier) (c : PermissionChecker)
      → (gate refill now agent tool tier (decide false PermissionMode.only_reading tier) c).1
        ≡ (if reads tier then allowed else deny)
  unfolding gate decide by_mode only_read
  reading-answer now agent tool TrustTier.read_only c = refl
  reading-answer now agent tool TrustTier.modify c = refl
  reading-answer now agent tool TrustTier.dangerous c = refl
  reading-answer now agent tool (TrustTier.other_tier n) c = refl

  rate-answer :
      (agent tool : String) (tier : TrustTier) (x : PermissionChecker × Bool)
      → (after_rate agent tool tier x).1 ≢ prompt
  unfolding after_rate
  rate-answer agent tool tier (c, true) h = cc
  rate-answer agent tool tier (c, false) h = cc

  writing-answer :
      (now : Time) (agent tool : String) (tier : TrustTier) (c : PermissionChecker)
      → ((gate refill now agent tool tier (decide false PermissionMode.write_only tier) c).1
          ≡ prompt)
        ↔ (held tier ≡ true)
  unfolding gate decide by_mode by_tier
  writing-answer now agent tool TrustTier.read_only c = (λ h. cc, λ h. cc)
  writing-answer now agent tool TrustTier.modify c =
      (λ h. absurd (rate-answer agent tool TrustTier.modify _ h), λ h. cc)
  writing-answer now agent tool TrustTier.dangerous c = (λ h. refl, λ h. refl)
  writing-answer now agent tool (TrustTier.other_tier n) c = (λ h. refl, λ h. refl)

  -- Without an approval, the read-only mode lets the tools run that only read and refuses all others,
  -- and the default mode asks a human for exactly the tools that are neither read-only nor modifying.
  pub check_with_mode-unapproved :
      (now : Time) (agent tool pattern : String) (c : PermissionChecker)
      → is_approved (key agent tool) tool pattern c ≡ false
      → let tier = effective_tier c.registry agent tool in
        let answer =
          λ (mode : PermissionMode). (check_with_mode refill now agent tool pattern mode c).1 in
        (answer PermissionMode.only_reading ≡ (if reads tier then allowed else deny))
        × ((answer PermissionMode.write_only ≡ prompt) ↔ (held tier ≡ true))
  unfolding check_with_mode
  check_with_mode-unapproved now agent tool pattern c h =
      rw h (reading-answer now agent tool _ c, writing-answer now agent tool _ c)
