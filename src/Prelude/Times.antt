-- ===== src/Prelude/Times.antt =====
-- Instants and durations in nanoseconds. An instant counts from Go's zero `time.Time`, so 0 is
-- the time of which `IsZero` holds, and earlier instants are not represented. A duration is signed.
use Prim.Native.Nat.{ℕ, suc, ◌+◌, ◌-◌, ◌<◌}
use mathlib.Core.Path.{◌≡◌}
use mathlib.Core.Bool.{Bool, true, false}
use native.Mathlib.Omega.{arith}
use eclaire.Prelude.Tests.{ltb, leb, eqb}

-- `negsuc n` is -(n + 1).
pub data ℤ : Type 0 where
  pos : ℕ → ℤ
  negsuc : ℕ → ℤ

abbrev pub Time : Type 0
Time = ℕ

abbrev pub Duration : Type 0
Duration = ℤ

abbrev pub second : ℕ
second = 1_000_000_000

abbrev pub minute : ℕ
minute = 60_000_000_000

abbrev pub hour : ℕ
hour = 3_600_000_000_000

abbrev pub day : ℕ
day = 86_400_000_000_000

-- t.Add(d), which stops at the zero time.
abbrev pub add : Time → Duration → Time
add t (pos n) = t + n
add t (negsuc n) = t - suc n

-- t.After(u), t.Before(u) and t.IsZero()
abbrev pub after : Time → Time → Bool
after t u = ltb u t

abbrev pub before : Time → Time → Bool
before t u = ltb t u

abbrev pub is_zero : Time → Bool
is_zero t = eqb t 0

-- d > 0
abbrev pub is_positive : Duration → Bool
is_positive (pos n) = ltb 0 n
is_positive (negsuc n) = false

pub add_positive : (t : Time) (d : Duration) → is_positive d ≡ true → t < add t d
add_positive t (pos n) h = ground arith
add_positive t (negsuc n) h = ground arith

abbrev pub leb_ℤ : ℤ → ℤ → Bool
leb_ℤ (pos a) (pos b) = leb a b
leb_ℤ (pos a) (negsuc b) = false
leb_ℤ (negsuc a) (pos b) = true
leb_ℤ (negsuc a) (negsuc b) = leb b a

abbrev pub eqb_ℤ : ℤ → ℤ → Bool
eqb_ℤ (pos a) (pos b) = eqb a b
eqb_ℤ (negsuc a) (negsuc b) = eqb a b
eqb_ℤ _ _ = false
