-- ===== src/RateLimits.antt =====
-- The token bucket (internal/tool/executor.go, `rateLimiter`). `refill` is the truncated floating-point
-- quotient that `allow` computes from the elapsed time, the window and the limit. A limit is not
-- negative, as in every configuration of the program.
pub mod Bounds
mod Tests
use eclaire.Prelude.{
  ℕ, zero, suc, ◌+◌, ◌-◌, ◌*◌, Bool, true, false, not, ◌&&◌, ◌||◌, Option, none, some, List, [],
  ◌∷◌, ◌++◌, String, ◌==◌, ltb, leb, eqb, if◌then◌else◌,
}
use eclaire.Prelude.Text.{text_append, text_before}
use eclaire.Prelude.Times.{Time, minute}
use eclaire.Prelude.Dict.{Dict, get, put}

pub record RateLimiter : Type 0 where
  pub limit : ℕ
  pub window : ℕ
  pub tokens : ℕ
  pub last_fill : Time

abbrev pub new_rate_limiter : ℕ → ℕ → Time → RateLimiter
new_rate_limiter limit window now = record {
  limit = limit;
  window = window;
  tokens = limit;
  last_fill = now;
}

abbrev pub capped : ℕ → ℕ → ℕ
capped limit n = if ltb limit n then limit else n

-- With no time elapsed, or with a clock set back, nothing is filled in.
fill : ℕ → Time → RateLimiter → RateLimiter
fill n now r =
    if ltb r.last_fill now && ltb 0 n
    then record r { tokens = capped r.limit (r.tokens + n); last_fill = now }
    else r

take_token : RateLimiter → RateLimiter × Bool
take_token r = if leb r.tokens 0 then (r, false) else (record r { tokens = r.tokens - 1 }, true)

abbrev pub Refill : Type 0
Refill = ℕ → ℕ → ℕ → ℕ

unfoldable pub allow : Refill → Time → RateLimiter → RateLimiter × Bool
unfolding fill take_token
allow refill now r = take_token (fill (refill (now - r.last_fill) r.window r.limit) now r)
