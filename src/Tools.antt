-- ===== src/Tools.antt =====
-- The tools, their trust tiers and the registry (internal/tool/tool.go, `TrustTier`, `Tool`, `Wrap`;
-- internal/tool/registry.go, `Registry`). What a tool does is left out.
use eclaire.Prelude.{ℕ, Option, none, some, List, [], ◌∷◌, String}
use eclaire.Prelude.Text.{text_append}
use eclaire.Prelude.Dict.{Dict, get, put}

pub data TrustTier : Type 0 where
  read_only modify dangerous : TrustTier
  other_tier : ℕ → TrustTier

pub record Tool : Type 0 where
  pub name : String
  pub tier : TrustTier
  pub category : String

pub record Registry : Type 0 where
  pub tools : Dict Tool
  pub overrides : Dict TrustTier

abbrev pub new_registry : Registry
new_registry = record { tools = []; overrides = [] }

unfoldable pub register : Tool → Registry → Registry
register t r = record r { tools = put r.tools t.name t }

-- fmt.Sprintf("%s:%s", agentID, toolName)
abbrev pub key : String → String → String
key agent tool = text_append agent (text_append ":" tool)

unfoldable pub set_override : String → String → TrustTier → Registry → Registry
set_override agent tool tier r = record r { overrides = put r.overrides (key agent tool) tier }

default_tier : Option Tool → TrustTier
default_tier none = TrustTier.dangerous
default_tier (some t) = t.tier

tier_from : Option TrustTier → Option Tool → TrustTier
unfolding default_tier
tier_from (some tier) tool = tier
tier_from none tool = default_tier tool

unfoldable pub effective_tier : Registry → String → String → TrustTier
unfolding tier_from
effective_tier r agent tool = tier_from (get r.overrides (key agent tool)) (get r.tools tool)

named : Dict Tool → List String → List Tool
named tools [] = []
named tools (n ∷ ns) = elim (get tools n) [ none ↦ named tools ns | some t ↦ t ∷ named tools ns ]

abbrev all_tools : Dict Tool → List Tool
all_tools [] = []
all_tools ((n, t) ∷ d) = t ∷ all_tools d

unfoldable pub for_agent : List String → Registry → List Tool
unfolding named
for_agent [] r = all_tools r.tools
for_agent (n ∷ ns) r = named r.tools (n ∷ ns)
