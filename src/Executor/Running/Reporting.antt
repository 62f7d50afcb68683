-- ===== src/Executor/Running/Reporting.antt =====
-- What the user is told of a run (internal/agent/jobexec.go, `executeAndApply` and `fireReminders`;
-- internal/agent/notifications.go, `SubscribeToBus`).
use mathlib.Core.Path.{subst}
use mathlib.Core.List.{append_assoc, append-nil}
use eclaire.Prelude.{
  ℕ, suc, ◌+◌, ◌≤◌, ◌≡◌, refl, sym, ap, ◌∙◌, Bool, true, false, not, ltb, ◌&&◌, Option, none, some,
  List, [], ◌∷◌, ◌++◌, String, ◌==◌, arith, if◌then◌else◌, is_some, Bool-cases, inl, inr, length,
  select, length-append, keep_last, length-keep_last,
}
use eclaire.Prelude.Text.{starts_by}
use eclaire.Jobs.{Job}
use eclaire.Notifications.{Notification, NotificationStore, max_entries}
use eclaire.Notifications.{add as add_notification}
use eclaire.Notifications.Listing.{add-bounded}
use eclaire.Events.{SystemEventQueue}
use eclaire.Reminders.{Reminder, ReminderFile, holds, Fired, fire_overdue, is_overdue}
use eclaire.Reminders.Firing.{fire_overdue-outcome}
use eclaire.Executor.{
  Setting, World, RunOutcome, answered, refused, BackgroundResult, BusEvent, background_result,
  fire_reminders, fire_with, announce, announce_all, fired_event,
}
use eclaire.Executor.Running.{
  execute_job, execute_and_apply, after_run, report, tell_main, tell_queue, heartbeat_prefix,
  result_of, quoted, with_answer, with_failure, failure, failure_of, add_failure, notify_background,
}

add-grows :
    (fresh : String) (now : ℕ) (saved : Bool) (n : Notification) (s : NotificationStore)
    → length s.entries ≤ 999
    → length (add_notification fresh now saved n s).0.entries ≡ suc (length s.entries)
add-grows fresh now saved n s h =
    ap length (add-bounded fresh now saved n s).0
    ∙ length-append (keep_last 999 s.entries) _
    ∙ ground (arith, h, length-keep_last 999 s.entries)

pub is_failure : RunOutcome → Bool
is_failure (answered c s) = false
is_failure (refused m) = true

-- The run reports `br` last, and leaves the notifications `s'`.
pub record Reported (w : World) (br : BackgroundResult) (s' : NotificationStore) : Type 0 where
  pub before : List BusEvent
  pub last : w.published ≡ before ++ background_result br ∷ []
  pub left : w.notifications ≡ some s'

module _ (env : Setting) where
  tell_queue-left :
      (j : Job) (text : String) (o : Option SystemEventQueue) (w : World)
      → (tell_queue env j text o w).notifications ≡ w.notifications
  unfolding tell_queue
  tell_queue-left j text none w = refl
  tell_queue-left j text (some q) w =
      elim (Bool-cases (j.session_target == "main" && not (w.main_session == ""))) [
        | inl e ↦ rw e refl
        | inr e ↦ rw e refl
      ]

  tell_main-left :
      (j : Job) (text : String) (w : World)
      → (tell_main env j text w).notifications ≡ w.notifications
  unfolding tell_main
  tell_main-left j text w = tell_queue-left j text w.sys_events w

  report-left :
      (j : Job) (session status error content text : String) (w : World)
      → (report env j session status error content text w).notifications ≡ w.notifications
  unfolding report
  report-left j session status error content text w =
      elim (Bool-cases (starts_by heartbeat_prefix j.id)) [
        | inl e ↦ rw e (tell_main-left j text w)
        | inr e ↦ rw e (tell_main-left j text w)
      ]

  report-Reported :
      (j : Job) (session status error content text : String) (w : World) (s : NotificationStore)
      → w.notifications ≡ some s
      → Reported
          (report env j session status error content text w)
          (result_of env j status content error)
          s
  unfolding report
  report-Reported j session status error content text w s h = record {
    before = _;
    last = refl;
    left = report-left j session status error content text w ∙ h;
  }

  twice :
      (later : Setting) (j : Job) (message content : String) (s : NotificationStore)
      → length s.entries + 2 ≤ max_entries
      → (s' : NotificationStore) × (add_failure env j message (some s) ≡ some s')
        × (length (notify_background later (result_of env j "error" content message) s').entries
            ≡ length s.entries + 2)
  unfolding add_failure notify_background
  twice later j message content s room =
      let one = add-grows env.fresh env.now env.saved (failure env j message) s (omega arith) in
      (
        (add_notification env.fresh env.now env.saved (failure env j message) s).0,
        refl,
        add-grows later.fresh later.now later.saved
              (failure_of later (result_of env j "error" content message)) _ (omega (arith, one))
            ∙ omega (arith, one),
      )

  after-Reported :
      (later : Setting) (j : Job) (r : RunOutcome) (w : World) (s : NotificationStore)
      → w.notifications ≡ some s
      → length s.entries + 2 ≤ max_entries
      → (br : BackgroundResult) × (s' : NotificationStore) × Reported (after_run env j r w) br s'
        × (length (notify_background later br s').entries
            ≡ (if is_failure r then length s.entries + 2 else length s.entries))
  unfolding after_run is_failure notify_background
  after-Reported later j (answered result session) w s h room = (
    result_of env j "completed" (env.cut result 2000) "",
    s,
    report-Reported j session "completed" "" (env.cut result 2000)
        (quoted env j "completed" (env.cut result 500)) (with_answer env j result session w) s h,
    refl,
  )
  after-Reported later j (refused message) w s h room =
      let (s', e, l) = twice later j message (env.cut "" 2000) s room in
      (
        result_of env j "error" (env.cut "" 2000) message,
        s',
        report-Reported j "" "error" message (env.cut "" 2000) (quoted env j "failed" message)
            (with_failure env j message w) s' (ap (add_failure env j message) h ∙ e),
        l,
      )

  -- With a notification store that has room for two more, a run that fails is told to the user
  -- twice: the executor adds a notification, and so does the subscriber to the background result
  -- that it publishes last. A run that succeeds adds none.
  pub execute_and_apply-Reported :
      (later : Setting) (j : Job) (w : World) (s : NotificationStore)
      → w.notifications ≡ some s
      → length s.entries + 2 ≤ max_entries
      → (br : BackgroundResult) × (s' : NotificationStore) × Reported
          (execute_and_apply env j w)
          br
          s'
        × (length (notify_background later br s').entries
            ≡ (if is_failure (execute_job env j w) then length s.entries + 2 else length s.entries))
  unfolding execute_and_apply
  execute_and_apply-Reported later j w s h room =
      after-Reported later j (execute_job env j w) w s h room

  -- The background result of a fired reminder.
  abbrev pub reminder_result : Reminder → BackgroundResult
  reminder_result r = record {
    source = "reminder";
    task_name = r.text;
    agent_id = "";
    status = "completed";
    content = r.text;
    error = "";
    ref_id = r.id;
  }

  -- The events that announce reminders, in their order.
  abbrev pub announcements : List Reminder → List BusEvent
  announcements [] = []
  announcements (r ∷ rs) = background_result (reminder_result r) ∷ announcements rs

  announce_all-appends :
      (rs : List Reminder) (w : World)
      → ((announce_all env rs w).published ≡ w.published ++ announcements rs)
        × ((announce_all env rs w).notifications ≡ w.notifications)
  unfolding announce_all
  announce_all-appends [] w = (sym (append-nil _), refl)
  announce_all-appends (r ∷ rs) w =
      let w₁ : World = record w { published = w.published ++ fired_event env r ∷ [] } in
      let (p, n) = announce_all-appends rs w₁ in (p ∙ append_assoc w.published _ _, n)

  -- The subscriber to background results does nothing for a reminder.
  ignores :
      (later : Setting) (r : Reminder) (t : NotificationStore)
      → notify_background later (reminder_result r) t ≡ t
  unfolding notify_background
  ignores later r t = refl

  -- `v` has published the announcements of the reminders beyond what `w` has, and nobody heeds them.
  abbrev pub Unheeded : Setting → World → List Reminder → World → Type 0
  Unheeded later w rs v =
      (v.published ≡ w.published ++ announcements rs)
      × ((r : Reminder) (t : NotificationStore) → notify_background later (reminder_result r) t ≡ t)
      × (v.notifications ≡ w.notifications)

  announce-Unheeded :
      (later : Setting) (w : World) (file : ReminderFile) (f : Fired)
      → f.error ≡ false
      → Unheeded later w f.fired (announce env w (file, f))
  unfolding announce
  announce-Unheeded later w file f h =
      let (p, n) = announce_all-appends f.fired (record w { reminders = some file }) in
      rw h (p, ignores later, n)

  -- A reminder that is not completed and whose time has come before now.
  abbrev pub is_past_due : Reminder → Bool
  is_past_due r = not r.completed && ltb r.due_at env.now

  firing :
      (w : World) (s : NotificationStore) (file : ReminderFile)
      → w.notifications ≡ some s
      → w.reminders ≡ some file
      → fire_reminders env w ≡ announce env w (fire_overdue env.saved env.now file)
  unfolding fire_reminders fire_with
  firing w s file h g =
      ap (λ (n : Option NotificationStore). if is_some n then fire_with env w.reminders w else w) h
      ∙ ap (λ (o : Option ReminderFile). fire_with env o w) g

  no_error : (b saved : Bool) → saved ≡ true → (b && not saved) ≡ false
  no_error b saved h = ground (arith, h)

  -- With a notification store, and a reminder file that can be read and written, the overdue
  -- reminders are published, in their order, each as a completed background result with its ID and its
  -- text; the subscriber to background results ignores each: no notification is added, then or later.
  pub fire_reminders-Unheeded :
      (later : Setting) (w : World) (s : NotificationStore) (rs : List Reminder)
      → w.notifications ≡ some s
      → w.reminders ≡ some (holds rs)
      → env.saved ≡ true
      → Unheeded later w (select is_past_due rs) (fire_reminders env w)
  unfolding is_overdue
  fire_reminders-Unheeded later w s rs h g saved =
      let out = fire_overdue env.saved env.now (holds rs) in
      let told = fire_overdue-outcome env.saved env.now rs in
      subst (λ v. Unheeded later w (select is_past_due rs) v) (sym (firing w s (holds rs) h g))
        (subst (λ (l : List Reminder). Unheeded later w l (announce env w out)) told.0
          (announce-Unheeded later w out.0 out.1 (told.1 ∙ no_error _ env.saved saved)))
