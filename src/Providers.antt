-- ===== src/Providers.antt =====
-- The choice of a language model (internal/provider/router.go, `Router`;
-- internal/provider/provider.go, `Provider`). The
-- services are a parameter: whether one serves a model may differ at each attempt, which `round`
-- counts. A model is the text that names it together with its provider.
pub mod Routing
pub mod Windows
pub mod Attempts
mod Tests
use eclaire.Prelude.{
  ℕ, zero, suc, ◌+◌, ◌≤◌, Bool, true, false, not, ◌&&◌, Option, none, some, List, [], ◌∷◌, String,
  ◌==◌, ltb, if◌then◌else◌,
}
use eclaire.Prelude.Dict.{Dict, get, put}
use eclaire.Prelude.Times.{ℤ, pos, is_positive}

pub record RouteEntry : Type 0 where
  pub provider : String
  pub model : String
  pub context_window : ℤ

pub record Provider : Type 0 where
  pub id : String
  pub type : String
  pub base_url : String
  pub healthy : Bool
  pub windows : Dict ℤ

pub record Model : Type 0 where
  pub provider : String
  pub name : String

-- `serves` is the answer of a service's LanguageModel; `query` its context window, if it tells one,
-- and `query_ollama` that of an Ollama server at an address, 0 where it is not known.
pub record Services : Type 0 where
  pub serves : ℕ → String → String → Bool
  pub query : ℕ → String → String → Option ℤ
  pub query_ollama : ℕ → String → String → ℤ

pub record Router : Type 0 where
  pub providers : Dict Provider
  pub routes : Dict (List RouteEntry)

unfoldable pub new_provider : String → String → Provider
new_provider id type = record { id = id; type = type; base_url = ""; healthy = true; windows = [] }

unfoldable pub mark_healthy : Bool → Provider → Provider
mark_healthy h p = record p { healthy = h }

-- A provider that does not serve a model is marked as unhealthy.
unfoldable pub language_model : Services → ℕ → String → Provider → Provider × Option Model
language_model s round model p =
    if s.serves round p.id model
    then (p, some (record { provider = p.id; name = model }))
    else (mark_healthy false p, none)

-- Where an entry leads: no provider, an unhealthy one, one that fails, or a model.
pub data Tried : Type 0 where
  skipped : Tried
  failing : Provider → Tried
  served : Provider → Model → Tried

asked : Provider × Option Model → Tried
asked (p, none) = failing p
asked (p, some m) = served p m

unfoldable pub try_provider : Services → ℕ → String → Option Provider → Tried
unfolding asked
try_provider s round model none = skipped
try_provider s round model (some p) =
    if p.healthy then asked (language_model s round model p) else skipped

abbrev go_on :
    Tried
    → String
    → Dict Provider
    → (Dict Provider → Dict Provider × Option Model)
    → Dict Provider × Option Model
go_on skipped id ps next = next ps
go_on (failing p) id ps next = next (put ps id p)
go_on (served p m) id ps next = (put ps id p, some m)

-- The loop over the entries of a route.
unfoldable pub resolve_entries :
    Services → ℕ → List RouteEntry → Dict Provider → Dict Provider × Option Model
resolve_entries s round [] ps = (ps, none)
resolve_entries s round (e ∷ es) ps =
    go_on (try_provider s round e.model (get ps e.provider)) e.provider ps
      (resolve_entries s (suc round) es)

-- The loop over the providers, by their names, for a model that is named directly.
unfoldable pub resolve_by_model :
    Services → ℕ → String → List String → Dict Provider → Dict Provider × Option Model
resolve_by_model s round model [] ps = (ps, none)
resolve_by_model s round model (id ∷ ids) ps =
    go_on (try_provider s round model (get ps id)) id ps (resolve_by_model s (suc round) model ids)

abbrev pub names : Dict Provider → List String
names [] = []
names ((k, p) ∷ ps) = k ∷ names ps

abbrev or_entries : Option (List RouteEntry) → Option (List RouteEntry) → Bool → List RouteEntry
or_entries (some es) complex falls = es
or_entries none (some es) falls = if falls then es else []
or_entries none none falls = []

-- The entries for a role; the orchestrator falls back to the complex ones.
abbrev pub entries_for : Router → String → List RouteEntry
entries_for r role =
    or_entries (get r.routes role) (get r.routes "complex") (role == "orchestrator")

resolve_role :
    Services → ℕ → String → List RouteEntry → Dict Provider → Dict Provider × Option Model
resolve_role s round role [] ps = resolve_by_model s round role (names ps) ps
resolve_role s round role (e ∷ es) ps = resolve_entries s round (e ∷ es) ps

abbrev with_providers : Router → Dict Provider × Option Model → Router × Option Model
with_providers r (ps, m) = (record r { providers = ps }, m)

-- `none` is the error that no provider serves the role.
unfoldable pub resolve : Services → ℕ → String → Router → Router × Option Model
unfolding resolve_role
resolve s round role r =
    with_providers r (resolve_role s round role (entries_for r role) r.providers)
