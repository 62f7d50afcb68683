-- ===== src/RateLimits/Tests.antt =====
-- A small bucket on which the theorems are tried.
use eclaire.Prelude.{◌*◌, ◌/◌, ◌≡◌, refl, [], ◌∷◌}
use eclaire.Prelude.Times.{minute}
use eclaire.RateLimits.{RateLimiter, Refill, new_rate_limiter}
use eclaire.RateLimits.Bounds.{allow_each, allow_each-burst}

-- One token for each part of the window, in whole numbers.
abbrev by_parts : Refill
by_parts elapsed window limit = elapsed * limit / window

abbrev bucket : RateLimiter
bucket = new_rate_limiter 2 minute 5

allow_each-burst_example :
    allow_each by_parts (5 ∷ 6 ∷ 7 ∷ []) bucket ≡ (record bucket { tokens = 0 }, 2)
allow_each-burst_example =
    allow_each-burst by_parts (5 ∷ 6 ∷ 7 ∷ []) bucket (refl, (refl, (refl, tt)))
