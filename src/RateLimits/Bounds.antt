-- ===== src/RateLimits/Bounds.antt =====
-- The token bucket (internal/tool/executor.go, `rateLimiter`).
use Prim.Native.Nat.{min}
use eclaire.Prelude.{
  ℕ, zero, suc, ◌+◌, ◌-◌, ◌≤◌, ◌≡◌, refl, true, false, List, [], ◌∷◌, arith, if◌then◌else◌, length,
  All,
}
use eclaire.Prelude.Times.{Time}
use eclaire.RateLimits.{RateLimiter, Refill, allow, take_token, fill}

module _ (refill : Refill) where
  -- A call of `allow` keeps the bucket within its limit, and takes a token exactly when it is
  -- granted: at most the tokens that were there and those filled in since.
  pub allow-outcome :
      (now : Time) (r : RateLimiter)
      → r.tokens ≤ r.limit
      → let (r', granted) = allow refill now r in
        (r'.tokens ≤ r'.limit)
        × (r'.limit ≡ r.limit)
        × (r'.window ≡ r.window)
        × (r'.tokens + (if granted then 1 else 0)
            ≤ r.tokens + refill (now - r.last_fill) r.window r.limit)
        × (granted ≡ false → r'.tokens ≡ 0)
  unfolding allow fill take_token
  allow-outcome now r h =
      (ground (arith, h), ground arith, ground arith, ground (arith, h), ground arith)

  -- The calls of `allow` at the instants of a list, and how many of them were granted.
  pub allow_each : List Time → RateLimiter → RateLimiter × ℕ
  allow_each [] r = (r, 0)
  allow_each (now ∷ ts) r =
      let (r₁, granted) = allow refill now r in
      let (r₂, n) = allow_each ts r₁ in (r₂, if granted then suc n else n)

  -- Too soon after the last filling for a token to come in.
  abbrev pub IsSoon : RateLimiter → Time → Type 0
  IsSoon r t = refill (t - r.last_fill) r.window r.limit ≡ 0

  granted_now :
      (now : Time) (r : RateLimiter) (n : ℕ)
      → IsSoon r now
      → r.tokens ≡ suc n
      → allow refill now r ≡ (record r { tokens = n }, true)
  unfolding allow fill take_token
  granted_now now r n h e = ground (arith, h, e)

  refused_now :
      (now : Time) (r : RateLimiter) → IsSoon r now → r.tokens ≡ 0 → allow refill now r ≡ (r, false)
  unfolding allow fill take_token
  refused_now now r h e = ground (arith, h, e)

  burst_from :
      (ts : List Time) (r : RateLimiter) (n : ℕ)
      → r.tokens ≡ n
      → All (IsSoon r) ts
      → allow_each ts r ≡ (record r { tokens = n - length ts }, min n (length ts))
  unfolding allow_each
  burst_from [] r n e h = ground (arith, e)
  burst_from (now ∷ ts) r zero e h =
      rw (refused_now now r h.0 e) (rw (burst_from ts r zero e h.1) (ground arith))
  burst_from (now ∷ ts) r (suc n) e h =
      rw (granted_now now r n h.0 e)
        (rw (burst_from ts (record r { tokens = n }) n refl h.1) (ground arith))

  -- Of calls that all come too soon after the last filling for a token to be filled in, as many
  -- are granted as there are tokens, and the others are refused; the tokens left are those not
  -- granted.
  pub allow_each-burst :
      (ts : List Time) (r : RateLimiter)
      → All (IsSoon r) ts
      → allow_each ts r ≡ (record r { tokens = r.tokens - length ts }, min r.tokens (length ts))
  allow_each-burst ts r h = burst_from ts r r.tokens refl h
