-- ===== src/Jobs/Retry/Laws.antt =====
-- Retries, back-off and disabling of jobs (internal/agent/jobexec.go).
use eclaire.Prelude.{
  ℕ, zero, suc, ◌+◌, ◌*◌, ◌≡◌, refl, ap, ◌∙◌, true, ◌&&◌, none, some, List, [], ◌∷◌, String, arith,
  ltb, leb, if◌then◌else◌, length,
}
use eclaire.Prelude.Times.{Time, before, second, minute}
use eclaire.Jobs.{ScheduleKind, Job, TimeLib}
use eclaire.Jobs.Schedule.{next, compute_next_run}
use eclaire.Jobs.Retry.{backoff, on_error}

module _ (lib : TimeLib) where
  -- Failures one after another, each with its instant and its message.
  pub fail_all : List (Time × String) → Job → Job
  fail_all [] j = j
  fail_all ((now, message) ∷ fs) j = fail_all fs (on_error lib now message j)

  fail_one :
      (now : Time) (message : String) (j : Job)
      → j.schedule.kind ≡ ScheduleKind.at
      → let j' = on_error lib now message j in
        (j'.schedule.kind ≡ ScheduleKind.at)
        × (j'.state.consecutive_errors ≡ suc j.state.consecutive_errors)
        × (j'.enabled ≡ (leb (suc j.state.consecutive_errors) 3 && j.enabled))
  unfolding on_error
  fail_one now message j h = (ground (arith, h), ground (arith, h), ground (arith, h))

  fail_from :
      (fs : List (Time × String)) (j : Job) (k : ℕ)
      → j.schedule.kind ≡ ScheduleKind.at
      → j.state.consecutive_errors ≡ k
      → j.enabled ≡ leb k 3
      → (fail_all fs j).enabled ≡ leb (k + length fs) 3
  unfolding fail_all
  fail_from [] j k kind errors on = on ∙ ap (λ (n : ℕ). leb n 3) (omega arith)
  fail_from ((now, message) ∷ fs) j k kind errors on =
      let (kind', errors', on') = fail_one now message j kind in
      fail_from fs (on_error lib now message j) (suc k) kind' (omega arith) (ground arith)
      ∙ ap (λ (n : ℕ). leb n 3) (omega arith)

  -- The back-off of the failures so far: 30 s, 60 s, then 5 min.
  abbrev pub wait_after : ℕ → ℕ
  wait_after zero = 30 * second
  wait_after (suc zero) = 60 * second
  wait_after (suc (suc _)) = 5 * minute

  one_shot-after :
      (now : Time) (message : String) (j : Job) (k : ℕ)
      → j.schedule.kind ≡ ScheduleKind.at
      → j.state.consecutive_errors ≡ k
      → (on_error lib now message j).state.next_run_at
        ≡ (if ltb k 3 then some (now + wait_after k) else none)
  unfolding on_error backoff
  one_shot-after now message j zero h e = ground (arith, h, e)
  one_shot-after now message j (suc zero) h e = ground (arith, h, e)
  one_shot-after now message j (suc (suc zero)) h e = ground (arith, h, e)
  one_shot-after now message j (suc (suc (suc k))) h e = ground (arith, h, e)

  kept-kind :
      (fs : List (Time × String)) (j : Job) (k : ℕ)
      → j.schedule.kind ≡ ScheduleKind.at
      → j.state.consecutive_errors ≡ k
      → ((fail_all fs j).schedule.kind ≡ ScheduleKind.at)
        × ((fail_all fs j).state.consecutive_errors ≡ k + length fs)
  unfolding fail_all
  kept-kind [] j k kind errors = (kind, omega (arith, errors))
  kept-kind ((now, message) ∷ fs) j k kind errors =
      let one = fail_one now message j kind in
      let rest =
        kept-kind fs (on_error lib now message j) (suc k) one.0 (omega (arith, one.1, errors)) in
      (rest.0, omega (arith, rest.1))

  -- A one-shot job that starts enabled and with no errors is tried again after each of its first
  -- three failures in a row: it stays enabled, and its next run is the instant of the failure and the
  -- back-off of the failures so far. The fourth failure disables it and leaves no next run.
  pub fail_all-enabled :
      (fs : List (Time × String)) (now : Time) (message : String) (j : Job)
      → j.schedule.kind ≡ ScheduleKind.at
      → j.state.consecutive_errors ≡ 0
      → j.enabled ≡ true
      → let j' = on_error lib now message (fail_all fs j) in
        (j'.enabled ≡ ltb (length fs) 3)
        × (j'.state.next_run_at
            ≡ (if ltb (length fs) 3 then some (now + wait_after (length fs)) else none))
  fail_all-enabled fs now message j kind errors on =
      let k = kept-kind fs j 0 kind errors in
      let e : (fail_all fs j).state.consecutive_errors ≡ length fs = omega (arith, k.1) in
      (
        ground (
          arith,
          (fail_one now message (fail_all fs j) k.0).2,
          fail_from fs j 0 kind errors (on ∙ refl),
          e,
        ),
        one_shot-after now message (fail_all fs j) (length fs) k.0 e,
      )

  -- A failed one-shot job with fewer than three earlier failures runs again after the back-off of
  -- its failures, and otherwise has no next run; either way it is no longer marked as running and
  -- counts one more failure in a row.
  pub on_error-one_shot :
      (now : Time) (message : String) (j : Job)
      → j.schedule.kind ≡ ScheduleKind.at
      → let j' = on_error lib now message j in
        (j'.state.next_run_at ≡ (
          if ltb j.state.consecutive_errors 3
          then some (now + wait_after j.state.consecutive_errors)
          else none))
        × (j'.state.running_at ≡ none)
        × (j'.state.consecutive_errors ≡ suc j.state.consecutive_errors)
  unfolding on_error
  on_error-one_shot now message j h = (
    one_shot-after now message j j.state.consecutive_errors h refl,
    ground (arith, h),
    ground (arith, h),
  )

  recurring-after :
      (now : Time) (message : String) (j : Job) (t : Time) (k : ℕ)
      → j.schedule.kind ≡ ScheduleKind.every
      → compute_next_run lib j.schedule now (some now) ≡ next (some t)
      → j.state.consecutive_errors ≡ k
      → (on_error lib now message j).state.next_run_at
        ≡ some (if ltb k 3 && before t (now + wait_after k) then now + wait_after k else t)
  unfolding on_error backoff
  recurring-after now message j t zero h c e = ground (arith, h, c, e)
  recurring-after now message j t (suc zero) h c e = ground (arith, h, c, e)
  recurring-after now message j t (suc (suc zero)) h c e = ground (arith, h, c, e)
  recurring-after now message j t (suc (suc (suc k))) h c e = ground (arith, h, c, e)

  -- A job of kind `every` whose next run after `now` is computed as `t` keeps its schedule when it
  -- fails: its next run is `t`, put off to the end of the back-off where it had fewer than three
  -- earlier failures in a row; it is enabled if it was, and no longer marked as running.
  pub on_error-recurring :
      (now : Time) (message : String) (j : Job) (t : Time)
      → j.schedule.kind ≡ ScheduleKind.every
      → compute_next_run lib j.schedule now (some now) ≡ next (some t)
      → let j' = on_error lib now message j in
        let wait = now + wait_after j.state.consecutive_errors in
        (j'.state.next_run_at
          ≡ some (if ltb j.state.consecutive_errors 3 && before t wait then wait else t))
        × (j'.enabled ≡ j.enabled)
        × (j'.state.running_at ≡ none)
  unfolding on_error
  on_error-recurring now message j t h c = (
    recurring-after now message j t j.state.consecutive_errors h c refl,
    ground (arith, h, c),
    ground (arith, h, c),
  )
