-- ===== src/Providers/Windows.antt =====
-- The context window of a model, and the resolution of a role with it
-- (internal/provider/provider.go, `ContextWindow`; internal/provider/router.go, `ResolveWithContext`).
use eclaire.Prelude.{
  ℕ, suc, not, ◌&&◌, Option, none, some, List, [], ◌∷◌, String, ◌==◌, if◌then◌else◌,
}
use eclaire.Prelude.Dict.{Dict, get, put}
use eclaire.Prelude.Times.{ℤ, pos, is_positive}
use eclaire.Providers.{
  RouteEntry, Provider, Model, Services, Router, Tried, skipped, failing, served, try_provider,
  resolve_by_model, entries_for, names,
}

abbrev cached : String → ℤ → Provider → Provider × ℤ
cached model window p = (record p { windows = put p.windows model window }, window)

ask_ollama : Services → ℕ → String → Provider → Provider × ℤ
ask_ollama s round model p =
    let window = s.query_ollama round p.base_url model in
    if not (p.base_url == "") && ((p.type == "ollama") && is_positive window)
    then cached model window p
    else (p, pos 0)

ask_service : Services → ℕ → String → Option ℤ → Provider → Provider × ℤ
unfolding ask_ollama
ask_service s round model none p = ask_ollama s round model p
ask_service s round model (some window) p =
    if is_positive window then cached model window p else ask_ollama s round model p

window_from : Services → ℕ → String → Option ℤ → Provider → Provider × ℤ
unfolding ask_service
window_from s round model (some window) p = (p, window)
window_from s round model none p = ask_service s round model (s.query round p.id model) p

-- `ContextWindow`: cached, from the service, or 0 where it is not known.
unfoldable pub context_window : Services → ℕ → String → Provider → Provider × ℤ
unfolding window_from
context_window s round model p = window_from s round model (get p.windows model) p

-- A model with its window, 0 where it is not known, and the entry's provider.
pub record ModelResolution : Type 0 where
  pub model : Model
  pub window : ℤ
  pub provider_id : String

-- The window of the entry, or else the provider's.
window_of : Services → ℕ → RouteEntry → Provider → Provider × ℤ
unfolding context_window
window_of s round e p =
    if is_positive e.context_window then (p, e.context_window) else context_window s round e.model p

after_try :
    Services
    → ℕ
    → RouteEntry
    → Dict Provider
    → Tried
    → (Dict Provider → Dict Provider × Option ModelResolution)
    → Dict Provider × Option ModelResolution
unfolding window_of
after_try s round e ps skipped next = next ps
after_try s round e ps (failing p) next = next (put ps e.provider p)
after_try s round e ps (served p m) next =
    let (q, window) = window_of s round e p in
    (put ps e.provider q, some (record { model = m; window = window; provider_id = e.provider }))

unfoldable pub resolve_windows :
    Services → ℕ → List RouteEntry → Dict Provider → Dict Provider × Option ModelResolution
unfolding after_try
resolve_windows s round [] ps = (ps, none)
resolve_windows s round (e ∷ es) ps =
    after_try s round e ps (try_provider s round e.model (get ps e.provider))
      (resolve_windows s (suc round) es)

unwindowed : Option Model → Option ModelResolution
unwindowed none = none
unwindowed (some m) = some (record { model = m; window = pos 0; provider_id = "" })

with_window :
    Services → ℕ → String → List RouteEntry → Dict Provider → Dict Provider × Option ModelResolution
unfolding unwindowed
with_window s round role [] ps =
    let (qs, m) = resolve_by_model s round role (names ps) ps in (qs, unwindowed m)
with_window s round role (e ∷ es) ps = resolve_windows s round (e ∷ es) ps

unfoldable pub resolve_with_context :
    Services → ℕ → String → Router → Router × Option ModelResolution
unfolding with_window
resolve_with_context s round role r =
    let (ps, m) = with_window s round role (entries_for r role) r.providers in
    (record r { providers = ps }, m)
