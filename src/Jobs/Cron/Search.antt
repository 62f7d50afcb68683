-- ===== src/Jobs/Cron/Search.antt =====
-- The minute-by-minute search of `computeNextCron`: it ends, and it finds the first match.
use eclaire.Prelude.{
  ℕ, zero, suc, ◌+◌, ◌-◌, ◌*◌, ◌%◌, ◌≤◌, ◌<◌, ◌≡◌, ◌⊎◌, inl, inr, Bool, true, false, Option, none,
  some, String, arith, ltb, ltb→lt, Bool-cases,
}
use native.Mathlib.Nat.{le_refl}
use eclaire.Prelude.Times.{Time, minute}
use eclaire.Jobs.{TimeLib}
use eclaire.Jobs.Cron.{cron_matches, cron_loop, next_cron, first_candidate, cron_limit}

-- `r` is the first match among `c`, `c + minute`, … below `limit`.
abbrev IsFirst : (Time → Bool) → Time → Time → Option Time → Type 0
IsFirst p limit c (some t) =
    (p t ≡ true)
    × (t < limit)
    × (c ≤ t)
    × ((t - c) % minute ≡ 0)
    × ((u : Time) → c ≤ u → (u - c) % minute ≡ 0 → u < t → p u ≡ false)
IsFirst p limit c none = (u : Time) → c ≤ u → (u - c) % minute ≡ 0 → u < limit → p u ≡ false

later :
    (c u : Time)
    → c ≤ u
    → (u - c) % minute ≡ 0
    → (u ≡ c) ⊎ ((c + minute ≤ u) × ((u - (c + minute)) % minute ≡ 0))
later c u h e = elim (Bool-cases (ltb c u)) [
  | inl l ↦ let h' : c < u = ground arith in inr (omega arith, omega arith)
  | inr l ↦ inl (ground arith)
]

miss_extends :
    (p : Time → Bool) (c limit : Time)
    → p c ≡ false
    → ((u : Time) → c + minute ≤ u → (u - (c + minute)) % minute ≡ 0 → u < limit → p u ≡ false)
    → (u : Time) → c ≤ u
    → (u - c) % minute ≡ 0
    → u < limit
    → p u ≡ false
miss_extends p c limit miss rest u h e l = elim (later c u h e) [
  | inl same ↦ rw same miss
  | inr (a, b) ↦ rest u a b l
]

IsFirst-step :
    (p : Time → Bool) (limit c : Time) (r : Option Time)
    → p c ≡ false
    → IsFirst p limit (c + minute) r
    → IsFirst p limit c r
IsFirst-step p limit c none miss h = miss_extends p c limit miss h
IsFirst-step p limit c (some t) miss h =
    (h.0, h.1, omega arith, omega arith, miss_extends p c t miss h.4)

-- One round, given what the rest of the search finds if it is made.
round :
    (n : ℕ) (p : Time → Bool) (limit c : Time)
    → (c < limit
        → (r : Option Time) × (cron_loop n p limit (c + minute) ≡ some r)
          × IsFirst p limit (c + minute) r)
    → (r : Option Time) × (cron_loop (suc n) p limit c ≡ some r) × IsFirst p limit c r
unfolding cron_loop
round n p limit c rest = elim (Bool-cases (ltb c limit)) [
  | inr over ↦ (none, ground arith, λ u a b l. absurd (ground arith))
  | inl below ↦ elim (Bool-cases (p c)) [
    | inl hit ↦ (
      some c,
      ground arith,
      (hit, ltb→lt c limit below, le_refl c, omega arith, λ u a b l. absurd (omega arith)),
    )
    | inr miss ↦
        let (r, e, first) = rest (ltb→lt c limit below) in
        (r, ground arith, IsFirst-step p limit c r miss first)
  ]
]

cron_loop-IsFirst :
    (n : ℕ) (p : Time → Bool) (limit c : Time)
    → limit ≤ c + n * minute
    → (r : Option Time) × (cron_loop (suc n) p limit c ≡ some r) × IsFirst p limit c r
cron_loop-IsFirst zero p limit c h = round zero p limit c (λ l. absurd (omega arith))
cron_loop-IsFirst (suc n) p limit c h =
    round (suc n) p limit c (λ l. cron_loop-IsFirst n p limit (c + minute) (omega arith))

-- `t` is the first whole minute after `now` and below the limit at which the expression matches;
-- for `none` there is no such minute.
abbrev pub IsNextMatch : TimeLib → String → Time → Option Time → Type 0
IsNextMatch lib expr now (some t) =
    (cron_matches lib expr t ≡ true)
    × (t % minute ≡ 0)
    × (now < t)
    × (t < cron_limit now)
    × ((u : Time) → now < u → u < t → u % minute ≡ 0 → cron_matches lib expr u ≡ false)
IsNextMatch lib expr now none =
    (u : Time) → now < u → u < cron_limit now → u % minute ≡ 0 → cron_matches lib expr u ≡ false

to_IsNextMatch :
    (lib : TimeLib) (expr : String) (now : Time) (r : Option Time)
    → IsFirst (cron_matches lib expr) (cron_limit now) (first_candidate now) r
    → IsNextMatch lib expr now r
to_IsNextMatch lib expr now none h = λ u a b e. h u (omega arith) (omega arith) b
to_IsNextMatch lib expr now (some t) h =
    (h.0, omega arith, omega arith, h.1, λ u a b e. h.4 u (omega arith) (omega arith) b)

-- For every expression and instant the search of `computeNextCron` ends within its fuel, and its
-- result is the first whole minute after `now` and within 366 days at which the expression matches,
-- or nothing if no minute within 366 days matches.
pub next_cron-IsNextMatch :
    (lib : TimeLib) (expr : String) (now : Time)
    → (r : Option Time) × (next_cron lib expr now ≡ some r) × IsNextMatch lib expr now r
unfolding next_cron
next_cron-IsNextMatch lib expr now =
    let (r, e, first) =
      cron_loop-IsFirst 527040 (cron_matches lib expr) (cron_limit now) (first_candidate now)
        (omega arith) in
    (r, e, to_IsNextMatch lib expr now r first)
