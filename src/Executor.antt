-- ===== src/Executor.antt =====
-- The job executor and its timer (internal/agent/jobexec.go, `JobExecutor`). A goroutine that `tick`
-- starts is a job of the list that it returns. What one call reads from the clock, gets from the
-- agents and from the disk is its `Setting`; the world holds the stores that the executor refers to,
-- a missing one being `none`, and the events published on the bus (internal/bus/topics.go).
pub mod Firing
pub mod Running
mod Tests
use eclaire.Prelude.{
  ℕ, ◌+◌, ◌-◌, ◌*◌, Bool, true, false, not, ◌&&◌, ◌||◌, Option, none, some, List, [], ◌∷◌, ◌++◌,
  String, ◌==◌, ltb, if◌then◌else◌, is_some,
}
use eclaire.Prelude.Text.{codes, text_append, starts_by}
use eclaire.Prelude.Times.{Time, minute, hour}
use eclaire.Jobs.{Job, TimeLib}
use eclaire.Jobs.Store.{JobStore, StoreError, mark_running, next_due, clear_stale_running}
use eclaire.Jobs.Retry.{apply_success, apply_error, recompute_all}
use eclaire.Notifications.{Notification, NotificationStore, severity_warning}
use eclaire.Notifications.{add as add_notification}
use eclaire.Events.{SystemEventQueue, enqueue}
use eclaire.Sessions.{SessionMeta, SessionStore, get_meta, update_status, main_session_id}
use eclaire.Sessions.Reaping.{reap_completed, is_persistent}
use eclaire.Reminders.{Reminder, ReminderFile, Fired, fire_overdue}

pub data RunOutcome : Type 0 where
  answered : String → String → RunOutcome
  refused : String → RunOutcome

pub record BackgroundResult : Type 0 where
  pub source : String
  pub task_name : String
  pub agent_id : String
  pub status : String
  pub content : String
  pub error : String
  pub ref_id : String

pub data BusEvent : Type 0 where
  cron_started : String → String → BusEvent
  cron_completed : String → String → String → String → String → BusEvent
  heartbeat_completed : String → BusEvent
  background_result : BackgroundResult → BusEvent

pub record RunLogEntry : Type 0 where
  pub timestamp : Time
  pub job_id : String
  pub agent_id : String
  pub session_id : String
  pub status : String
  pub error : String
  pub summary : String

-- `cut` is `truncate`, which may cut a text inside a character.
pub record Setting : Type 0 where
  pub lib : TimeLib
  pub now : Time
  pub fresh : String
  pub saved : Bool
  pub known_agent : String → Bool
  pub runner : String → String → String → RunOutcome
  pub cut : String → ℕ → String

pub record World : Type 0 where
  pub store : JobStore
  pub notifications : Option NotificationStore
  pub reminders : Option ReminderFile
  pub sessions : Option SessionStore
  pub sys_events : Option SystemEventQueue
  pub main_session : String
  pub run_log : Option (List RunLogEntry)
  pub published : List BusEvent
  pub last_reap_at : Time

abbrev publish : BusEvent → World → World
publish e w = record w { published = w.published ++ e ∷ [] }

module _ (env : Setting) where
  -- `Start`, before the timer loop.
  unfoldable pub start : World → World
  start w =
      let cleared = (clear_stale_running env.saved w.store).0 in
      record w { store = recompute_all env.lib env.now env.saved cleared }

  abbrev fired_event : Reminder → BusEvent
  fired_event r = background_result (record {
    source = "reminder";
    task_name = r.text;
    agent_id = "";
    status = "completed";
    content = r.text;
    error = "";
    ref_id = r.id;
  })

  announce_all : List Reminder → World → World
  announce_all [] w = w
  announce_all (r ∷ rs) w = announce_all rs (publish (fired_event r) w)

  announce : World → ReminderFile × Fired → World
  unfolding announce_all
  announce w (file, f) =
      let w' = record w { reminders = some file } in if f.error then w' else announce_all f.fired w'

  fire_with : Option ReminderFile → World → World
  unfolding announce
  fire_with none w = w
  fire_with (some file) w = announce w (fire_overdue env.saved env.now file)

  unfoldable pub fire_reminders : World → World
  unfolding fire_with
  fire_reminders w = if is_some w.notifications then fire_with w.reminders w else w

  reap_with : Option SessionStore → World → World
  reap_with none w = w
  reap_with (some s) w = if ltb (env.now - w.last_reap_at) (5 * minute) then w else record w {
    last_reap_at = env.now;
    sessions = some (reap_completed (24 * hour) env.now s).0;
  }

  unfoldable pub reap_sessions : World → World
  unfolding reap_with
  reap_sessions w = reap_with w.sessions w

  -- A job whose mark cannot be written is passed over. The jobs are those to be run.
  start_marked : Job → World → JobStore × Option StoreError → World × Bool
  start_marked j w (s, none) =
      (publish (cron_started j.id j.agent_id) (record w { store = s }), true)
  start_marked j w (s, some e) = (record w { store = s }, false)

  unfoldable pub start_job : Job → World → World × Bool
  unfolding start_marked
  start_job j w = start_marked j w (mark_running env.now env.saved j.id env.now w.store)

  unfoldable pub start_jobs : List Job → World → World × List Job
  start_jobs [] w = (w, [])
  start_jobs (j ∷ js) w =
      let (w₁, started) = start_job j w in
      let (w₂, jobs) = start_jobs js w₁ in (w₂, if started then j ∷ jobs else jobs)

  unfoldable pub tick : World → World × List Job
  unfolding start_jobs fire_reminders reap_sessions
  tick w = let w' = reap_sessions (fire_reminders w) in start_jobs (next_due env.now w'.store) w'
