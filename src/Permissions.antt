-- ===== src/Permissions.antt =====
-- The gate of tool calls (internal/tool/permission.go, `PermissionChecker`). The set of approved keys is
-- a list, and the audit log the list of its entries. The clock, and the pattern that
-- `ExtractShellPattern` reads out of a call's parameters, are arguments.
pub mod Approvals
pub mod Decisions
pub mod Patterns
mod Tests
use eclaire.Prelude.{
  ℕ, zero, suc, ◌+◌, ◌-◌, ◌*◌, Bool, true, false, not, ◌&&◌, ◌||◌, Option, none, some, List, [],
  ◌∷◌, ◌++◌, String, ◌==◌, ltb, leb, eqb, if◌then◌else◌,
}
use eclaire.Tools.{TrustTier, Tool, Registry, key, effective_tier}
use eclaire.RateLimits.{RateLimiter, Refill, allow, new_rate_limiter}
use eclaire.Prelude.Text.{text_append, text_before}
use eclaire.Prelude.Times.{Time, minute}
use eclaire.Prelude.Dict.{Dict, get, put}

pub data Decision : Type 0 where
  allowed prompt deny : Decision

pub data PermissionMode : Type 0 where
  write_only only_reading allow_all : PermissionMode
  other_mode : ℕ → PermissionMode

pub record ToolRateConfig : Type 0 where
  pub dangerous : ℕ
  pub modify : ℕ

abbrev pub default_tool_rate_config : ToolRateConfig
default_tool_rate_config = record { dangerous = 30; modify = 60 }

pub record AuditEntry : Type 0 where
  pub agent : String
  pub tool : String
  pub decision : String
  pub tier : String

-- `audit_log` is `none` where no logger is set.
pub record PermissionChecker : Type 0 where
  pub registry : Registry
  pub approved : List String
  pub tool_rates : Dict RateLimiter
  pub rate_config : ToolRateConfig
  pub audit_log : Option (List AuditEntry)

abbrev pub new_permission_checker : Registry → PermissionChecker
new_permission_checker r = record {
  registry = r;
  approved = [];
  tool_rates = [];
  rate_config = default_tool_rate_config;
  audit_log = none;
}

abbrev pub member : String → List String → Bool
member k [] = false
member k (j ∷ js) = (j == k) || member k js

pub load_approvals : List String → PermissionChecker → PermissionChecker
load_approvals keys c = record c { approved = keys ++ c.approved }

unfoldable pub approve : String → String → PermissionChecker → PermissionChecker
approve agent tool c = record c { approved = key agent tool ∷ c.approved }

unfoldable pub approve_pattern : String → String → String → PermissionChecker → PermissionChecker
approve_pattern agent tool pattern c = record c {
  approved = key (key agent tool) pattern ∷ c.approved;
}

by_binary : String → Option String → List String → Bool
by_binary k none keys = false
by_binary k (some binary) keys = member (key k binary) keys

-- `k` is the key of the agent and the tool.
unfoldable pub is_approved : String → String → String → PermissionChecker → Bool
unfolding by_binary
is_approved k tool pattern c =
    member k c.approved
    || ((tool == "shell")
        && (not (pattern == "")
            && (member (key k pattern) c.approved
                || by_binary k (text_before 32 pattern) c.approved)))

by_tier : TrustTier → Decision
by_tier TrustTier.read_only = allowed
by_tier TrustTier.modify = allowed
by_tier TrustTier.dangerous = prompt
by_tier (TrustTier.other_tier n) = prompt

only_read : TrustTier → Decision
only_read TrustTier.read_only = allowed
only_read _ = deny

by_mode : PermissionMode → TrustTier → Decision
unfolding by_tier only_read
by_mode PermissionMode.allow_all tier = allowed
by_mode PermissionMode.only_reading tier = only_read tier
by_mode PermissionMode.write_only tier = by_tier tier
by_mode (PermissionMode.other_mode n) tier = prompt

rate_limit : TrustTier → ToolRateConfig → ℕ
rate_limit TrustTier.dangerous r = r.dangerous
rate_limit _ r = r.modify

limiter_for : Time → TrustTier → ToolRateConfig → Option RateLimiter → RateLimiter
unfolding rate_limit
limiter_for now tier config none = new_rate_limiter (rate_limit tier config) minute now
limiter_for now tier config (some r) = r

unfoldable pub check_tool_rate :
    Refill → Time → String → TrustTier → PermissionChecker → PermissionChecker × Bool
unfolding limiter_for
check_tool_rate refill now k tier c =
    let (r, granted) = allow refill now (limiter_for now tier c.rate_config (get c.tool_rates k)) in
    (record c { tool_rates = put c.tool_rates k r }, granted)

abbrev decision_name : Decision → String
decision_name Decision.allowed = "allow"
decision_name Decision.prompt = "prompt"
decision_name Decision.deny = "deny"

abbrev tier_name : TrustTier → String
tier_name TrustTier.read_only = "readonly"
tier_name TrustTier.modify = "modify"
tier_name TrustTier.dangerous = "dangerous"
tier_name (TrustTier.other_tier n) = "unknown"

logged : AuditEntry → Option (List AuditEntry) → Option (List AuditEntry)
logged e none = none
logged e (some es) = some (es ++ e ∷ [])

unfoldable pub log_audit :
    String → String → String → TrustTier → PermissionChecker → PermissionChecker
unfolding logged
log_audit agent tool decision tier c = record c {
  audit_log =
      logged (record { agent = agent; tool = tool; decision = decision; tier = tier_name tier })
        c.audit_log;
}

abbrev pub is_limited : TrustTier → Bool
is_limited TrustTier.dangerous = true
is_limited TrustTier.modify = true
is_limited _ = false

abbrev pub is_allow : Decision → Bool
is_allow Decision.allowed = true
is_allow _ = false

after_rate : String → String → TrustTier → PermissionChecker × Bool → PermissionChecker × Decision
unfolding log_audit
after_rate agent tool tier (c, true) = (log_audit agent tool "allow" tier c, allowed)
after_rate agent tool tier (c, false) = (log_audit agent tool "rate_limited" tier c, deny)

decide : Bool → PermissionMode → TrustTier → Decision
unfolding by_mode
decide approved mode tier = if approved then allowed else by_mode mode tier

gate :
    Refill
    → Time
    → String
    → String
    → TrustTier
    → Decision
    → PermissionChecker
    → PermissionChecker × Decision
unfolding after_rate log_audit
gate refill now agent tool tier decision c =
    if is_allow decision && is_limited tier
    then after_rate agent tool tier (check_tool_rate refill now (key agent tool) tier c)
    else (log_audit agent tool (decision_name decision) tier c, decision)

unfoldable pub check_with_mode :
    Refill
    → Time
    → String
    → String
    → String
    → PermissionMode
    → PermissionChecker
    → PermissionChecker × Decision
unfolding gate decide
check_with_mode refill now agent tool pattern mode c =
    let tier = effective_tier c.registry agent tool in
    let approved = is_approved (key agent tool) tool pattern c in
    gate refill now agent tool tier (decide approved mode tier) c
