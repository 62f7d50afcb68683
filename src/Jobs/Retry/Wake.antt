-- ===== src/Jobs/Retry/Wake.antt =====
-- The delay of the executor's timer (internal/agent/jobexec.go, `computeDelay`).
use eclaire.Prelude.{◌-◌, ◌*◌, ◌≤◌, ◌≡◌, Option, none, some, String, arith}
use eclaire.Prelude.Times.{Time, second}
use eclaire.Prelude.Dict.{get}
use eclaire.Jobs.{Job}
use eclaire.Jobs.Store.{JobStore, next_wake_at}
use eclaire.Jobs.Store.Due.{Alarm, next_wake_at-earliest}
use eclaire.Jobs.Retry.{delay_until, compute_delay}

delay_short : (now : Time) (o : Option Time) → delay_until now o ≤ 60 * second
unfolding delay_until
delay_short now none = omega arith
delay_short now (some w) = ground arith

delay_in_time : (now w t : Time) → w ≤ t → delay_until now (some w) ≤ t - now
unfolding delay_until
delay_in_time now w t h = ground arith

-- The timer sleeps at most 60 seconds, and never past the next run of an enabled job of the store.
pub compute_delay-in_time :
    (now : Time) (s : JobStore)
    → (compute_delay now s ≤ 60 * second)
      × ((k : String) (j : Job) (t : Time)
          → get s.jobs k ≡ some j
          → Alarm j t
          → compute_delay now s ≤ t - now)
unfolding compute_delay
compute_delay-in_time now s = (
  delay_short now (next_wake_at s),
  λ k j t found alarm.
      let (w, same, l) = (next_wake_at-earliest s).0 k j t found alarm in
      rw same (delay_in_time now w t l),
)
