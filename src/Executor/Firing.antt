-- ===== src/Executor/Firing.antt =====
-- Which jobs the timer starts (internal/agent/jobexec.go, `tick`).
use mathlib.Core.Path.{subst}
use eclaire.Prelude.{
  ◌-◌, ◌*◌, ltb, ◌≡◌, ◌≢◌, refl, sym, ap, ◌∙◌, Bool, true, Option, none, some, List, [], ◌∷◌,
  String, ◌==◌, eq_iff, arith, is_some, Bool-cases, inl, inr, All, All-imp,
}
use eclaire.Prelude.Times.{Time, minute}
use eclaire.Prelude.Dict.{get}
use eclaire.Jobs.{Job}
use eclaire.Jobs.Store.{JobStore, StoreError, mark_running, set_running, next_due}
use eclaire.Jobs.Store.Invariant.{IsStore, operations-IsStore}
use eclaire.Jobs.Store.Operations.{update-outcome, updated}
use eclaire.Jobs.Store.Due.{IsDue, next_due-exact}
use eclaire.Sessions.{SessionStore}
use eclaire.Reminders.{ReminderFile, Reminder, Fired, fire_overdue}
use eclaire.Executor.{
  Setting, World, start_job, start_jobs, start_marked, tick, fire_reminders, fire_with, announce,
  announce_all, reap_sessions, reap_with,
}

running_of : Option Job → Bool
running_of none = true
running_of (some j) = is_some j.state.running_at

-- The job with the ID, if there is one, is marked as running.
abbrev Marked : JobStore → String → Type 0
Marked s id = running_of (get s.jobs id) ≡ true

updated-Marked :
    (now t : Time) (id : String) (o : Option Job)
    → running_of (updated id now (set_running (some t)) o) ≡ true
unfolding running_of
updated-Marked now t id none = refl
updated-Marked now t id (some j) = refl

mark_running-Marked :
    (now : Time) (saved : Bool) (id : String) (t : Time) (s : JobStore) (k : String)
    → (id ≢ k → Marked s k)
    → Marked (mark_running now saved id t s).0 k
unfolding mark_running
mark_running-Marked now saved id t s k h =
    let p = (update-outcome now saved id (set_running (some t)) s).0 k in
    elim (Bool-cases (id == k)) [
      | inl e ↦ ap running_of (rw e at p) ∙ updated-Marked now t id (get s.jobs id)
      | inr e ↦ ap running_of (rw e at p) ∙ h (λ same. ground (arith, e, eq_iff id k, same))
    ]

mark_running-IsStore :
    (env : Setting) (id : String) (s : JobStore)
    → IsStore s.jobs
    → (j : Job) → IsStore (mark_running env.now env.saved id env.now s).0.jobs
unfolding mark_running
mark_running-IsStore env id s h j =
    (operations-IsStore env.lib "" env.now env.saved j id (set_running (some env.now)) s (λ w. refl)
      h).2

module _ (env : Setting) where
  start_marked-store :
      (j : Job) (w : World) (r : JobStore × Option StoreError)
      → (start_marked env j w r).0.store ≡ r.0
  unfolding start_marked
  start_marked-store j w (s, none) = refl
  start_marked-store j w (s, some e) = refl

  start_job-Marked :
      (j : Job) (w : World) (k : String)
      → (j.id ≢ k → Marked w.store k)
      → Marked (start_job env j w).0.store k
  unfolding start_job
  start_job-Marked j w k h =
      subst (λ s. Marked s k) (sym (start_marked-store j w _))
        (mark_running-Marked env.now env.saved j.id env.now w.store k h)

  start_job-IsStore :
      (j : Job) (w : World) → IsStore w.store.jobs → IsStore (start_job env j w).0.store.jobs
  unfolding start_job
  start_job-IsStore j w h =
      subst (λ s. IsStore s.jobs) (sym (start_marked-store j w _))
        (mark_running-IsStore env j.id w.store h j)

  start_jobs-keeps :
      (js : List Job) (w : World) (k : String)
      → Marked w.store k
      → Marked (start_jobs env js w).0.store k
  unfolding start_jobs
  start_jobs-keeps [] w k h = h
  start_jobs-keeps (j ∷ js) w k h =
      start_jobs-keeps js (start_job env j w).0 k (start_job-Marked j w k (λ _. h))

  start_jobs-IsStore :
      (js : List Job) (w : World)
      → IsStore w.store.jobs
      → IsStore (start_jobs env js w).0.store.jobs
  unfolding start_jobs
  start_jobs-IsStore [] w h = h
  start_jobs-IsStore (j ∷ js) w h =
      start_jobs-IsStore js (start_job env j w).0 (start_job-IsStore j w h)

  -- Of the jobs that are started, each has a mark afterwards, and each is one of the list.
  start_jobs-All :
      (P : Job → Type 0) (js : List Job) (w : World)
      → All P js
      → All (λ j. P j × Marked (start_jobs env js w).0.store j.id) (start_jobs env js w).1
  unfolding start_jobs
  start_jobs-All P [] w h = tt
  start_jobs-All P (j ∷ js) w h =
      let w₁ = (start_job env j w).0 in
      let rest = start_jobs-All P js w₁ h.1 in
      let marked =
        start_jobs-keeps js w₁ j.id (start_job-Marked j w j.id (λ other. absurd (other refl))) in
      elim (Bool-cases (start_job env j w).1) [
        | inl e ↦ rw (e, start_jobs) ((h.0, marked), rest)
        | inr e ↦ rw (e, start_jobs) rest
      ]

  announce_all-store : (rs : List Reminder) (w : World) → (announce_all env rs w).store ≡ w.store
  unfolding announce_all
  announce_all-store [] w = refl
  announce_all-store (r ∷ rs) w = announce_all-store rs _

  announce-store :
      (w : World) (file : ReminderFile) (f : Fired) → (announce env w (file, f)).store ≡ w.store
  unfolding announce
  announce-store w file f = elim (Bool-cases f.error) [
    | inl e ↦ rw e refl
    | inr e ↦ rw e (announce_all-store f.fired _)
  ]

  fire_with-store : (o : Option ReminderFile) (w : World) → (fire_with env o w).store ≡ w.store
  unfolding fire_with
  fire_with-store none w = refl
  fire_with-store (some file) w =
      announce-store w (fire_overdue env.saved env.now file).0
        (fire_overdue env.saved env.now file).1

  fire_reminders-store : (w : World) → (fire_reminders env w).store ≡ w.store
  unfolding fire_reminders
  fire_reminders-store w = elim (Bool-cases (is_some w.notifications)) [
    | inl e ↦ rw e (fire_with-store w.reminders w)
    | inr e ↦ rw e refl
  ]

  reap_with-store : (o : Option SessionStore) (w : World) → (reap_with env o w).store ≡ w.store
  unfolding reap_with
  reap_with-store none w = refl
  reap_with-store (some s) w = elim (Bool-cases (ltb (env.now - w.last_reap_at) (5 * minute))) [
    | inl e ↦ rw e refl
    | inr e ↦ rw e refl
  ]

  before_firing : (w : World) → (reap_sessions env (fire_reminders env w)).store ≡ w.store
  unfolding reap_sessions
  before_firing w = reap_with-store _ (fire_reminders env w) ∙ fire_reminders-store w

  -- `tick` starts only jobs of the store that are due and not running, and marks all of them.
  tick-started :
      (w : World)
      → IsStore w.store.jobs
      → All
          (λ j.
            ((get w.store.jobs j.id ≡ some j) × IsDue env.now j) × Marked (tick env w).0.store j.id)
          (tick env w).1
  unfolding tick
  tick-started w h =
      let same = before_firing w in
      start_jobs-All (λ j. (get w.store.jobs j.id ≡ some j) × IsDue env.now j) _ _
        (rw same (next_due-exact env.now w.store h).0)

  tick-IsStore : (w : World) → IsStore w.store.jobs → IsStore (tick env w).0.store.jobs
  unfolding tick
  tick-IsStore w h =
      let w₁ = reap_sessions env (fire_reminders env w) in
      start_jobs-IsStore (next_due env.now w₁.store) w₁ (rw (before_firing w) h)

not_again :
    (s : JobStore) (now : Time) (j k : Job)
    → Marked s j.id
    → get s.jobs k.id ≡ some k
    → IsDue now k
    → j.id ≢ k.id
unfolding running_of
not_again s now j k m found due same = ground (arith, m, found, due.idle, same)

-- In a store that has each job under its own ID, once: a job that one tick has started is not
-- started by the tick that follows it, whatever the two read from the clock and whether or not the
-- second can write the file.
pub tick-starts_once :
    (env later : Setting) (w : World)
    → IsStore w.store.jobs
    → All (λ k. All (λ j. j.id ≢ k.id) (tick env w).1) (tick later (tick env w).0).1
tick-starts_once env later w h =
    let w' = (tick env w).0 in
    All-imp _ _
      (λ k found.
        All-imp _ _ (λ j started. not_again w'.store later.now j k started.1 found.0.0 found.0.1) _
          (tick-started env w h))
      _ (tick-started later w' (tick-IsStore env w h))
