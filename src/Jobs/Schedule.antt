-- ===== src/Jobs/Schedule.antt =====
-- The next run of a schedule (internal/agent/jobstore.go, `ComputeNextRun` and its helpers).
use eclaire.Prelude.{Option, none, some, String, ◌==◌, if◌then◌else◌}
use eclaire.Prelude.Times.{Time, Duration, add, after, is_positive}
use eclaire.Jobs.{ScheduleKind, JobSchedule, TimeLib}
use eclaire.Jobs.Cron.{next_cron}

pub data ScheduleError : Type 0 where
  missing_at unparsable_at missing_every unparsable_every not_positive : ScheduleError
  missing_expr no_match unknown_kind : ScheduleError
  -- the search of `next_cron` was cut short, which it never is
  out_of_fuel : ScheduleError

pub data NextRun : Type 0 where
  next : Option Time → NextRun
  failed : ScheduleError → NextRun

at_duration : Time → Option Duration → NextRun
at_duration now none = failed unparsable_at
at_duration now (some d) = if is_positive d then next (some (add now d)) else failed not_positive

at_instant : TimeLib → String → Time → Option Time → NextRun
unfolding at_duration
at_instant lib at now (some t) = if after t now then next (some t) else next none
at_instant lib at now none = at_duration now (lib.parse_duration at)

unfoldable pub compute_next_at : TimeLib → String → Time → NextRun
unfolding at_instant
compute_next_at lib at now =
    if at == "" then failed missing_at else at_instant lib at now (lib.parse_rfc3339 at)

every_after : Time → Option Time → Duration → NextRun
every_after now none d = next (some now)
every_after now (some last_run) d = next (some (add last_run d))

every_duration : Time → Option Time → Option Duration → NextRun
unfolding every_after
every_duration now last_run none = failed unparsable_every
every_duration now last_run (some d) =
    if is_positive d then every_after now last_run d else failed not_positive

unfoldable pub compute_next_every : TimeLib → String → Time → Option Time → NextRun
unfolding every_duration
compute_next_every lib every now last_run =
    if every == ""
    then failed missing_every
    else every_duration now last_run (lib.parse_duration every)

cron_result : Option (Option Time) → NextRun
cron_result none = failed out_of_fuel
cron_result (some none) = failed no_match
cron_result (some (some t)) = next (some t)

unfoldable pub compute_next_cron : TimeLib → String → Time → NextRun
unfolding cron_result
compute_next_cron lib expr now =
    if expr == "" then failed missing_expr else cron_result (next_cron lib expr now)

dispatch : TimeLib → ScheduleKind → JobSchedule → Time → Option Time → NextRun
dispatch lib ScheduleKind.at sched now last_run = compute_next_at lib sched.at now
dispatch lib ScheduleKind.every sched now last_run = compute_next_every lib sched.every now last_run
dispatch lib ScheduleKind.cron sched now last_run = compute_next_cron lib sched.expr now
dispatch lib (ScheduleKind.unknown _) sched now last_run = failed unknown_kind

unfoldable pub compute_next_run : TimeLib → JobSchedule → Time → Option Time → NextRun
unfolding dispatch
compute_next_run lib sched now last_run = dispatch lib sched.kind sched now last_run
