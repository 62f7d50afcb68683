-- ===== src/Jobs.antt =====
-- The data of scheduled jobs (internal/agent/jobstore.go), and what the schedule computation takes
-- from Go's `time` package. The operations are in the modules below.
pub mod Cron
pub mod Schedule
pub mod Store
pub mod Retry
mod Tests
use eclaire.Prelude.{ℕ, Bool, Option, String}
use eclaire.Prelude.Times.{Time, Duration}

pub data ScheduleKind : Type 0 where
  at every cron : ScheduleKind
  unknown : String → ScheduleKind

pub record JobSchedule : Type 0 where
  pub kind : ScheduleKind
  pub at : String
  pub every : String
  pub expr : String
  pub timezone : String

pub record JobState : Type 0 where
  pub next_run_at : Option Time
  pub last_run_at : Option Time
  pub running_at : Option Time
  pub last_status : String
  pub last_error : String
  pub consecutive_errors : ℕ

pub record Job : Type 0 where
  pub id : String
  pub name : String
  pub schedule : JobSchedule
  pub agent_id : String
  pub prompt : String
  pub session_target : String
  pub enabled : Bool
  pub delete_after_run : Bool
  pub context_messages : String
  pub state : JobState
  pub created_at : Time
  pub updated_at : Time

-- `time.Parse(time.RFC3339, s)`, `time.ParseDuration(s)`, and the fields of an instant in the local
-- time zone: they rest on the zone database and on floating point, and no law of theirs is used.
pub record TimeLib : Type 0 where
  pub parse_rfc3339 : String → Option Time
  pub parse_duration : String → Option Duration
  pub minute_of : Time → ℕ
  pub hour_of : Time → ℕ
  pub day_of : Time → ℕ
  pub month_of : Time → ℕ
  pub weekday_of : Time → ℕ
