-- ===== src/Jobs/Cron.antt =====
-- Cron expressions (internal/agent/jobstore.go, `cronMatches` and `computeNextCron`).
pub mod Search
use eclaire.Prelude.{
  ℕ, zero, suc, ◌+◌, ◌-◌, ◌*◌, ◌%◌, Bool, true, false, not, ◌&&◌, ◌||◌, Option, none, some, List,
  [], ◌∷◌, String, ltb, leb, eqb, if◌then◌else◌, length,
}
use eclaire.Prelude.Times.{ℤ, pos, negsuc, leb_ℤ, eqb_ℤ, Time, before, minute, day}
use eclaire.Prelude.Text.{Chars, codes, same, fields, split, contains, cut, trim_space, atoi}
use eclaire.Jobs.{TimeLib}

-- What follows "*/" in a field that begins so.
abbrev pub interval_of : Chars → Option Chars
interval_of (star ∷ slash ∷ s) = if eqb star b'*' && eqb slash b'/' then some s else none
interval_of _ = none

abbrev divides : ℤ → ℕ → Bool
divides (negsuc n) value = false
divides (pos zero) value = false
divides (pos (suc n)) value = eqb (value % suc n) 0

abbrev pub any_part : List Chars → ℕ → Bool
any_part [] value = false
any_part (part ∷ parts) value = eqb_ℤ (atoi (trim_space part)) (pos value) || any_part parts value

unfoldable pub cron_field_matches : Chars → ℕ → Bool
cron_field_matches field value =
    if same field (codes "*")
    then true
    else if contains b'-' field && not (contains b',' field)
    then (let (lo, hi) = cut b'-' field in
        leb_ℤ (atoi lo) (pos value) && leb_ℤ (pos value) (atoi hi))
    else elim (interval_of field) [
      | some interval ↦ divides (atoi interval) value
      | none ↦ any_part (split b',' field) value
    ]

abbrev five_fields : TimeLib → Time → List Chars → Bool
five_fields lib t (m ∷ h ∷ d ∷ mo ∷ w ∷ []) =
    cron_field_matches m (lib.minute_of t)
    && (cron_field_matches h (lib.hour_of t)
        && (cron_field_matches d (lib.day_of t)
            && (cron_field_matches mo (lib.month_of t) && cron_field_matches w (lib.weekday_of t))))
five_fields lib t _ = false

unfoldable pub cron_matches : TimeLib → String → Time → Bool
cron_matches lib schedule t = five_fields lib t (fields (codes schedule))

-- The loop of `computeNextCron`; the outer `none` means that the fuel ran out.
unfoldable pub cron_loop : ℕ → (Time → Bool) → Time → Time → Option (Option Time)
cron_loop zero matches limit candidate = none
cron_loop (suc fuel) matches limit candidate = elim (before candidate limit) [
  | false ↦ some none
  | true ↦ elim (matches candidate) [
    | true ↦ some (some candidate)
    | false ↦ cron_loop fuel matches limit (candidate + minute)
  ]
]

-- now.Truncate(time.Minute).Add(time.Minute)
abbrev pub first_candidate : Time → Time
first_candidate now = now - now % minute + minute

abbrev pub cron_limit : Time → Time
cron_limit now = now + 366 * day

-- One more than the minutes in 366 days.
abbrev pub cron_fuel : ℕ
cron_fuel = 527041

unfoldable pub next_cron : TimeLib → String → Time → Option (Option Time)
next_cron lib expr now =
    cron_loop cron_fuel (cron_matches lib expr) (cron_limit now) (first_candidate now)
