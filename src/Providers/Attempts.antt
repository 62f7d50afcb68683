-- ===== src/Providers/Attempts.antt =====
-- The attempts of a fallback chain (internal/provider/fallback.go, `FallbackChain`, `Execute`).
pub mod Bounds
use eclaire.Prelude.{
  ℕ, zero, suc, ◌+◌, ◌≤◌, Bool, true, false, not, ◌&&◌, Option, none, some, List, [], ◌∷◌, String,
  ◌==◌, ltb, if◌then◌else◌,
}
use eclaire.Prelude.Dict.{Dict, get, put}
use eclaire.Prelude.Times.{ℤ, pos, is_positive}
use eclaire.Providers.{RouteEntry, Provider, Model, Services, language_model, mark_healthy}

-- How the attempts with one entry, or with all, end.
pub data Execution : Type 0 where
  succeeded interrupted : Execution
  gave_up : Execution

pub record Run : Type 0 where
  pub execution : Execution
  pub providers : Dict Provider
  pub calls : ℕ

abbrev pub max_retries : ℕ
max_retries = 2

-- `works` tells whether the function succeeds at its so-many-th call, and `is_cancelled` whether the
-- run is cancelled while it waits behind this call.
pub record Attempts : Type 0 where
  pub works : ℕ → Model → Bool
  pub is_cancelled : ℕ → Bool

pub data Attempted : Type 0 where
  attempted : Execution → Provider → ℕ → Attempted

-- A call that failed: no pause behind the last one.
after_failure : Attempts → Provider → ℕ → ℕ → Attempted → Attempted
after_failure a p calls zero rest = rest
after_failure a p calls (suc left) rest =
    if a.is_cancelled calls then attempted interrupted p (suc calls) else rest

after_model : Attempts → ℕ → ℕ → Provider × Option Model → (Provider → Attempted) → Attempted
unfolding after_failure mark_healthy
after_model a calls left (p, none) rest = attempted gave_up (mark_healthy false p) calls
after_model a calls left (p, some m) rest =
    if a.works calls m
    then attempted succeeded (mark_healthy true p) (suc calls)
    else after_failure a p calls left (rest p)

-- The loop over the attempts with one entry, of which `left` are left.
unfoldable pub attempt_loop : Services → Attempts → ℕ → ℕ → String → Provider → Attempted
unfolding after_model
attempt_loop s a zero calls model p = attempted gave_up (mark_healthy false p) calls
attempt_loop s a (suc left) calls model p =
    after_model a calls left (language_model s calls model p)
      (attempt_loop s a left (suc calls) model)

next_entry : String → Dict Provider → Attempted → (Dict Provider → ℕ → Run) → Run
next_entry id ps (attempted gave_up p calls) rest = rest (put ps id p) calls
next_entry id ps (attempted succeeded p calls) rest = record {
  execution = succeeded;
  providers = put ps id p;
  calls = calls;
}
next_entry id ps (attempted interrupted p calls) rest = record {
  execution = interrupted;
  providers = put ps id p;
  calls = calls;
}

with_entry :
    Services
    → Attempts
    → RouteEntry
    → Option Provider
    → Dict Provider
    → ℕ
    → (Dict Provider → ℕ → Run)
    → Run
unfolding next_entry
with_entry s a e none ps calls rest = rest ps calls
with_entry s a e (some p) ps calls rest =
    next_entry e.provider ps (attempt_loop s a (suc max_retries) calls e.model p) rest

-- `calls` counts the calls of the function, from the first entry on.
unfoldable pub execute : Services → Attempts → List RouteEntry → Dict Provider → ℕ → Run
unfolding with_entry
execute s a [] ps calls = record { execution = gave_up; providers = ps; calls = calls }
execute s a (e ∷ es) ps calls = with_entry s a e (get ps e.provider) ps calls (execute s a es)
