-- ===== src/Reminders/Firing.antt =====
-- Which reminders fire, and what firing does to them (internal/tool/reminder.go, `FireOverdue`).
use eclaire.Prelude.{
  ◌≡◌, refl, sym, ap, inl, inr, Bool, true, false, not, ◌&&◌, some, List, [], ◌∷◌, ◌==◌, arith,
  if◌then◌else◌, Bool-cases, select, All, map,
}
use mathlib.Core.Path.{subst}
use eclaire.Prelude.Times.{Time, before}
use eclaire.Prelude.Sorting.{IsSorted, sort_by-IsSorted, sort_by-All, up-IsWeakOrder}
use eclaire.Reminders.{
  Reminder, unreadable, holds, load, is_overdue, fire_one, fire_loop, fire_overdue, pending, any,
  is_pending, save,
}

-- A reminder after `FireOverdue` at `now`.
abbrev after_firing : Time → Reminder → Reminder
after_firing now r = if is_overdue now r then fire_one r else r

fire_loop-map : (now : Time) (rs : List Reminder) → fire_loop now rs ≡ map (after_firing now) rs
unfolding fire_loop
fire_loop-map now [] = refl
fire_loop-map now (r ∷ rs) = ap (◌∷◌ (after_firing now r)) (fire_loop-map now rs)

none_overdue :
    (now : Time) (rs : List Reminder)
    → any (select (is_overdue now) rs) ≡ false
    → map (after_firing now) rs ≡ rs
none_overdue now [] h = refl
none_overdue now (r ∷ rs) h = elim (Bool-cases (is_overdue now r)) [
  | inl due ↦ absurd (ground (arith, due))
  | inr idle ↦ rw idle (ap (◌∷◌ r) (none_overdue now rs (rw idle at h)))
]

-- `FireOverdue` returns the reminders of the file that are not completed and whose due time is
-- before `now`, and moves just those on; it is an error exactly when the file cannot be read, or
-- something fired and the file cannot be written, in which case the file is as it was and the same
-- reminders fire again.
pub fire_overdue-outcome :
    (saved : Bool) (now : Time) (rs : List Reminder)
    → let (file, fired) = fire_overdue saved now (holds rs) in
      (fired.fired ≡ select (is_overdue now) rs)
      × (fired.error ≡ (any (select (is_overdue now) rs) && not saved))
      × (file ≡ holds (if saved then map (after_firing now) rs else rs))
      × ((fire_overdue saved now unreadable).1.error ≡ true)
unfolding fire_overdue load save
fire_overdue-outcome saved now rs = elim (Bool-cases (any (select (is_overdue now) rs))) [
  | inl fires ↦ rw fires (refl, refl, written saved, refl)
  | inr nothing ↦
      rw nothing
        (selected_none (select (is_overdue now) rs) nothing, refl, unchanged saved nothing, refl)
]
  where
    written :
        (saved : Bool)
        → save saved (fire_loop now rs) (holds rs)
          ≡ holds (if saved then map (after_firing now) rs else rs)
    written true = ap holds (fire_loop-map now rs)
    written false = refl

    unchanged :
        (saved : Bool)
        → any (select (is_overdue now) rs) ≡ false
        → holds rs ≡ holds (if saved then map (after_firing now) rs else rs)
    unchanged true h = ap holds (sym (none_overdue now rs h))
    unchanged false h = refl

    selected_none : (l : List Reminder) → any l ≡ false → [] ≡ l
    selected_none [] h = refl
    selected_none (x ∷ l) h = cc

-- One reminder that has fired without recurring is not overdue again.
spent :
    (now later : Time) (r : Reminder)
    → is_overdue later (after_firing now r) ≡ true
    → ((after_firing now r).recurrence == "" && is_overdue now (after_firing now r)) ≡ false
unfolding is_overdue fire_one
spent now later r h = ground (arith, h)

fires_once_list :
    (now later : Time) (rs : List Reminder)
    → All
        (λ r. (r.recurrence == "" && is_overdue now r) ≡ false)
        (select (is_overdue later) (map (after_firing now) rs))
fires_once_list now later [] = tt
fires_once_list now later (r ∷ rs) = elim (Bool-cases (is_overdue later (after_firing now r))) [
  | inl again ↦ rw again (spent now later r again, fires_once_list now later rs)
  | inr idle ↦ rw idle (fires_once_list now later rs)
]

-- A reminder that does not recur fires once: of what `FireOverdue` returns after a firing at `now`
-- that could write the file, whenever it is called, nothing was overdue at `now` and not recurring.
pub fires_once :
    (again : Bool) (now later : Time) (rs : List Reminder)
    → All
        (λ r. (r.recurrence == "" && is_overdue now r) ≡ false)
        (fire_overdue again later (fire_overdue true now (holds rs)).0).1.fired
fires_once again now later rs =
    let first = fire_overdue-outcome true now rs in
    let second = fire_overdue-outcome again later (map (after_firing now) rs) in
    let P : Reminder → Type 0 = λ r. (r.recurrence == "" && is_overdue now r) ≡ false in
    subst (λ file. All P (fire_overdue again later file).1.fired) (sym first.2)
      (subst (λ rs'. All P rs') (sym second.0) (fires_once_list now later rs))

open_selected : (rs : List Reminder) → All (λ r. r.completed ≡ false) (select is_pending rs)
open_selected [] = tt
open_selected (r ∷ rs) = elim (Bool-cases r.completed) [
  | inl done ↦ rw done (open_selected rs)
  | inr unfinished ↦ rw unfinished (refl, open_selected rs)
]

-- `Pending` returns the reminders that are not completed, the earliest due time first.
pub pending-IsSorted :
    (rs : List Reminder)
    → (ps : List Reminder) × (pending (holds rs) ≡ some ps)
      × All (λ r. r.completed ≡ false) ps
      × IsSorted (λ a b. before a.due_at b.due_at) ps
unfolding pending load
pending-IsSorted rs = (
  _,
  refl,
  sort_by-All _ (λ r. r.completed ≡ false) _ (open_selected rs),
  sort_by-IsSorted _ (up-IsWeakOrder (λ (r : Reminder). r.due_at)) _,
)
