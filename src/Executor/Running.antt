-- ===== src/Executor/Running.antt =====
-- What the goroutine of a job does (internal/agent/jobexec.go, `executeJob` and `executeAndApply`;
-- internal/agent/heartbeat.go, `publishHeartbeatEvents`), and the two subscribers to background
-- results (internal/agent/notifications.go, `SubscribeToBus`; internal/gateway/gateway.go).
pub mod Reporting
use eclaire.Prelude.{
  ℕ, ◌+◌, ◌-◌, ◌*◌, Bool, true, false, not, ◌&&◌, ◌||◌, Option, none, some, List, [], ◌∷◌, ◌++◌,
  String, ◌==◌, ltb, if◌then◌else◌, is_some,
}
use eclaire.Prelude.Text.{codes, text_append, starts_by}
use eclaire.Prelude.Times.{Time, minute, hour}
use eclaire.Jobs.{Job, TimeLib}
use eclaire.Jobs.Store.{JobStore, StoreError, mark_running, next_due, clear_stale_running}
use eclaire.Jobs.Retry.{apply_success, apply_error, recompute_all}
use eclaire.Notifications.{Notification, NotificationStore, severity_warning}
use eclaire.Notifications.{add as add_notification}
use eclaire.Events.{SystemEventQueue, enqueue}
use eclaire.Sessions.{SessionMeta, SessionStore, get_meta, update_status, main_session_id}
use eclaire.Sessions.Reaping.{reap_completed, is_persistent}
use eclaire.Reminders.{Reminder, ReminderFile, Fired, fire_overdue}
use eclaire.Executor.{
  RunOutcome, answered, refused, BackgroundResult, BusEvent, cron_completed, heartbeat_completed,
  background_result, RunLogEntry, Setting, World, publish,
}

abbrev heartbeat_prefix : String
heartbeat_prefix = "heartbeat-"

abbrev pub source_of : Job → String
source_of j = if starts_by heartbeat_prefix j.id then "heartbeat" else "cron"

module _ (env : Setting) where
  abbrev prompt_of : Job → String
  prompt_of j =
      if j.context_messages == ""
      then j.prompt
      else text_append j.context_messages (text_append "\n\n" j.prompt)

  abbrev session_for : Job → World → String
  session_for j w = if j.session_target == "main" then w.main_session else ""

  unfoldable pub execute_job : Job → World → RunOutcome
  execute_job j w =
      if env.known_agent j.agent_id
      then env.runner j.agent_id (prompt_of j) (session_for j w)
      else refused (text_append "agent " (text_append j.agent_id " not found"))

  settle_session : String → String → Option SessionStore → Option SessionStore
  settle_session session status none = none
  settle_session session status (some s) = elim (get_meta session s) [
    | none ↦ some s
    | some meta ↦
        if is_persistent meta then some s else some (update_status session status env.now s)
  ]

  log_run : RunLogEntry → Option (List RunLogEntry) → Option (List RunLogEntry)
  log_run entry none = none
  log_run entry (some es) = some (if env.saved then es ++ entry ∷ [] else es)

  abbrev failure : Job → String → Notification
  failure j message = record {
    id = "";
    severity = severity_warning;
    source = source_of j;
    title = text_append "Job " (text_append j.name " failed");
    content = message;
    agent_id = j.agent_id;
    job_id = j.id;
    ref_id = "";
    actions = [];
    created_at = 0;
    read = false;
    resolved = false;
  }

  add_failure : Job → String → Option NotificationStore → Option NotificationStore
  add_failure j message none = none
  add_failure j message (some s) =
      some (add_notification env.fresh env.now env.saved (failure j message) s).0

  tell_queue : Job → String → Option SystemEventQueue → World → World
  tell_queue j text none w = w
  tell_queue j text (some q) w =
      if j.session_target == "main" && not (w.main_session == "")
      then record w {
        sys_events = some (enqueue w.main_session (codes text) (source_of j) j.id env.now q).0;
      }
      else w

  tell_main : Job → String → World → World
  unfolding tell_queue
  tell_main j text w = tell_queue j text w.sys_events w

  abbrev heartbeat : Job → String → World → World
  heartbeat j error w =
      if starts_by heartbeat_prefix j.id then publish (heartbeat_completed error) w else w

  abbrev quoted : Job → String → String → String
  quoted j verb text =
      text_append "Job '"
        (text_append j.name (text_append "' " (text_append verb (text_append ": " text))))

  abbrev result_of : Job → String → String → String → BackgroundResult
  result_of j status content error = record {
    source = source_of j;
    task_name = j.name;
    agent_id = j.agent_id;
    status = status;
    content = content;
    error = error;
    ref_id = "";
  }

  -- What follows the change of the job, in the order of the source.
  report : Job → String → String → String → String → String → World → World
  unfolding tell_main
  report j session status error content text w =
      publish (background_result (result_of j status content error)) (
        publish (cron_completed j.id j.agent_id session status error)
          (heartbeat j error (tell_main j text w)))

  abbrev log_entry : Job → String → String → String → String → RunLogEntry
  log_entry j session status error summary = record {
    timestamp = env.now;
    job_id = j.id;
    agent_id = j.agent_id;
    session_id = session;
    status = status;
    error = error;
    summary = summary;
  }

  abbrev with_failure : Job → String → World → World
  with_failure j message w = record w {
    store = apply_error env.lib env.now env.saved j message w.store;
    run_log = log_run (log_entry j "" "error" message "") w.run_log;
    notifications = add_failure j message w.notifications;
  }

  abbrev with_answer : Job → String → String → World → World
  with_answer j result session w = record w {
    store = apply_success env.lib env.now env.saved j w.store;
    sessions = if session == "" then w.sessions else settle_session session "completed" w.sessions;
    run_log = log_run (log_entry j session "ok" "" (env.cut result 500)) w.run_log;
  }

  after_run : Job → RunOutcome → World → World
  unfolding settle_session log_run add_failure report
  after_run j (refused message) w =
      report j "" "error" message (env.cut "" 2000) (quoted j "failed" message)
        (with_failure j message w)
  after_run j (answered result session) w =
      report j session "completed" "" (env.cut result 2000)
        (quoted j "completed" (env.cut result 500)) (with_answer j result session w)

  unfoldable pub execute_and_apply : Job → World → World
  unfolding after_run
  execute_and_apply j w = after_run j (execute_job j w) w

  abbrev failure_of : BackgroundResult → Notification
  failure_of br = record {
    id = "";
    severity = severity_warning;
    source = br.source;
    title = text_append br.source (text_append ": " (text_append br.task_name " failed"));
    content = br.content;
    agent_id = br.agent_id;
    job_id = "";
    ref_id = br.ref_id;
    actions = [];
    created_at = 0;
    read = false;
    resolved = false;
  }

  -- The handler of `SubscribeToBus`.
  unfoldable pub notify_background : BackgroundResult → NotificationStore → NotificationStore
  notify_background br s =
      if br.status == "error"
      then (add_notification env.fresh env.now env.saved (failure_of br) s).0
      else s

  -- The handler of the gateway, which tells the main session.
  unfoldable pub tell_background : BackgroundResult → SystemEventQueue → SystemEventQueue
  tell_background br q =
      if br.source == "cron" || br.source == "heartbeat"
      then (enqueue main_session_id
          (codes (
            text_append br.source (
              text_append " '" (
                text_append br.task_name (
                  text_append "' "
                    (text_append br.status (text_append ": " (env.cut br.content 500))))))))
          br.source (text_append br.source (text_append ":" br.task_name)) env.now q).0
      else q
