-- ===== src/Providers/Tests.antt =====
-- Routes at fixed services (internal/provider).
use eclaire.Prelude.{
  refl, All, ℕ, ◌+◌, ◌*◌, ◌≤◌, true, false, none, List, [], ◌∷◌, String, length, eqb,
}
use eclaire.Prelude.Dict.{get, put}
use eclaire.Prelude.Times.{pos}
use eclaire.Providers.{RouteEntry, Provider, Model, Services, Router}
use eclaire.Providers.Attempts.{Attempts, execute}
use eclaire.Providers.Routing.{
  IsDown, IsKeyed, Avoids, put-IsKeyed, resolve_all, resolve_all-IsDown,
}
use eclaire.Providers.Attempts.Bounds.{Worked, execute-Total}

-- A service that serves every model from now on.
abbrev services : Services
services = record {
  serves = λ (round : ℕ) (id model : String). true;
  query = λ (round : ℕ) (id model : String). none;
  query_ollama = λ (round : ℕ) (url model : String). pos 0;
}

abbrev local : Provider
local = record { id = "local"; type = "ollama"; base_url = ""; healthy = false; windows = [] }

abbrev cloud : Provider
cloud = record { id = "cloud"; type = "openrouter"; base_url = ""; healthy = true; windows = [] }

abbrev entries : List RouteEntry
entries =
    record { provider = "local"; model = "small"; context_window = pos 0 }
    ∷ record { provider = "cloud"; model = "large"; context_window = pos 0 }
    ∷ []

abbrev router : Router
router = record {
  providers = ("local", local) ∷ ("cloud", cloud) ∷ [];
  routes = ("simple", entries) ∷ [];
}

local-IsDown : IsDown "local" router.providers
unfolding get
local-IsDown = (local, refl, refl)

router-IsKeyed : IsKeyed router.providers
unfolding get put
router-IsKeyed =
    put-IsKeyed "cloud" cloud (put [] "local" local) refl
      (put-IsKeyed "local" local [] refl (λ k q e. cc e))

resolve_all-IsDown_example :
    let (end, models) = resolve_all services 0 ("simple" ∷ "simple" ∷ []) router in
    IsDown "local" end.providers × All (Avoids "local") models
resolve_all-IsDown_example =
    resolve_all-IsDown services "local" 0 ("simple" ∷ "simple" ∷ []) router router-IsKeyed
      local-IsDown

-- The second call succeeds.
abbrev attempts : Attempts
attempts = record { works = λ (n : ℕ) (m : Model). eqb n 1; is_cancelled = λ (n : ℕ). false }

execute-Total_example :
    let r = execute services attempts entries router.providers 0 in
    (r.calls ≤ 0 + 3 * length entries) × Worked services attempts r.execution r.calls
execute-Total_example = execute-Total services attempts entries router.providers 0
