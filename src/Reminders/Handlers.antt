-- ===== src/Reminders/Handlers.antt =====
-- What the handlers of the reminder tool do to the file (internal/tool/reminder.go).
use eclaire.Prelude.{
  suc, ◌≡◌, refl, ap, inl, inr, Bool, true, false, Option, none, some, List, [], ◌∷◌, ◌++◌, String,
  ◌==◌, eq_iff, arith, if◌then◌else◌, Bool-cases, Option-cases, length,
}
use eclaire.Prelude.Times.{Time, Duration, add}
use eclaire.Reminders.{
  Reminder, ReminderFile, unreadable, holds, load, save, Response, not_found, save_error, added,
  finish_one, snooze_one, change_first, change_saved, handle_add, handle_done, handle_snooze,
}

-- The first reminder with the ID.
pub find : String → List Reminder → Option Reminder
find id [] = none
find id (r ∷ rs) = if r.id == id then some r else find id rs

abbrev pub changed : (Reminder → Reminder × Response) → Option Reminder → Option Reminder
changed fn none = none
changed fn (some r) = some (fn r).0

abbrev pub answer : (Reminder → Reminder × Response) → Bool → Option Reminder → Response
answer fn saved none = not_found
answer fn saved (some r) = if saved then (fn r).1 else save_error

-- The file after a handler has looked for the ID in `rs`: only what the ID finds has changed.
abbrev pub HandlerOutcome :
    (Reminder → Reminder × Response)
    → Bool
    → String
    → List Reminder
    → ReminderFile × Response
    → Type 0
HandlerOutcome fn saved id rs (file, response) =
    (response ≡ answer fn saved (find id rs))
    × (left : List Reminder) × (file ≡ holds left)
    × (length left ≡ length rs)
    × ((k : String)
        → find k left ≡ (
            if id == k then (if saved then changed fn (find id rs) else find id rs) else find k rs))

module _ (fn : Reminder → Reminder × Response) (keeps : (r : Reminder) → (fn r).0.id ≡ r.id)
    (id : String) where
  change_none : (rs : List Reminder) → find id rs ≡ none → change_first fn id rs ≡ none
  unfolding find change_first
  change_none [] h = refl
  change_none (r ∷ rs) h = ground (arith, change_none rs)

  find_changed :
      (rs : List Reminder) (r : Reminder)
      → find id rs ≡ some r
      → (left : List Reminder) × (change_first fn id rs ≡ some (left, (fn r).1))
        × ((k : String) → find k left ≡ (if id == k then some (fn r).0 else find k rs))
        × (length left ≡ length rs)
  unfolding find change_first
  find_changed [] r h = cc
  find_changed (x ∷ rs) r h = elim (Bool-cases (x.id == id)) [
    | inl same ↦ (
      (fn x).0 ∷ rs,
      ground (arith, same, h),
      λ k. ground (
        arith,
        same,
        h,
        keeps x,
        eq_iff x.id id,
        eq_iff id k,
        eq_iff x.id k,
        eq_iff (fn x).0.id k,
      ),
      refl,
    )
    | inr other ↦
        let (left, e, f, l) = find_changed rs r (rw other at h) in
        (
          x ∷ left,
          ground (arith, other, e),
          λ k. ground (arith, other, f k, eq_iff x.id id, eq_iff id k, eq_iff x.id k),
          ap suc l,
        )
  ]

  found_outcome :
      (saved : Bool) (rs : List Reminder) (r : Reminder)
      → find id rs ≡ some r
      → HandlerOutcome fn saved id rs (change_saved saved (holds rs) (change_first fn id rs))
  unfolding change_saved save
  found_outcome true rs r found =
      let (left, e, f, l) = find_changed rs r found in rw (e, found) (refl, left, refl, l, f)
  found_outcome false rs r found =
      let (left, e, f, l) = find_changed rs r found in
      rw (e, found) (refl, rs, refl, refl, λ k. ground (arith, found, eq_iff id k))

  change-outcome :
      (saved : Bool) (rs : List Reminder)
      → HandlerOutcome fn saved id rs (change_saved saved (holds rs) (change_first fn id rs))
  unfolding change_saved save
  change-outcome saved rs = elim (Option-cases (find id rs)) [
    | inl absent ↦
        rw (change_none rs absent, absent)
          (refl, rs, refl, refl, λ k. ground (arith, absent, eq_iff id k))
    | inr (r, found) ↦ found_outcome saved rs r found
  ]

-- The `done` operation, with an ID and a file that can be read: an unknown ID is refused; the first
-- reminder with the ID is completed, or moved one period on if it recurs, provided that the file
-- can be written; nothing else that an ID finds changes, nor does the number of reminders.
pub handle_done-outcome :
    (saved : Bool) (id : String) (rs : List Reminder)
    → (id == "") ≡ false
    → HandlerOutcome finish_one saved id rs (handle_done saved id (holds rs))
unfolding handle_done load
handle_done-outcome saved id rs h = rw h (change-outcome finish_one keeps id saved rs)
  where
    keeps : (r : Reminder) → (finish_one r).0.id ≡ r.id
    keeps r = ground arith

-- The `snooze` operation, with an ID, a duration that parses and a file that can be read: an
-- unknown ID is refused; the first reminder with the ID becomes due that long after `now`, provided
-- that the file can be written; nothing else that an ID finds changes, nor the number of reminders.
pub handle_snooze-outcome :
    (saved : Bool) (now : Time) (id duration : String) (d : Duration) (rs : List Reminder)
    → (id == "") ≡ false
    → (duration == "") ≡ false
    → HandlerOutcome
        (snooze_one (add now d))
        saved
        id
        rs
        (handle_snooze saved now id duration (some d) (holds rs))
unfolding handle_snooze load
handle_snooze-outcome saved now id duration d rs h g =
    rw (h, g) (change-outcome (snooze_one (add now d)) (λ r. refl) id saved rs)

-- The `add` operation, with a text and a due time that parses, writes one open reminder behind those
-- of the file. Where the file cannot be read it is replaced, and what it held is lost.
pub handle_add-outcome :
    (fresh : String) (now : Time) (text due recurrence : String) (t : Time) (file : ReminderFile)
    → (text == "") ≡ false
    → (due == "") ≡ false
    → (r : Reminder) × ((r.id ≡ fresh)
        × (r.text ≡ text)
        × (r.due_at ≡ t)
        × (r.recurrence ≡ recurrence)
        × (r.completed ≡ false))
      × (handle_add true fresh now text due recurrence (some t) (holds [])
          ≡ (holds (r ∷ []), added))
      × (handle_add true fresh now text due recurrence (some t) unreadable
          ≡ (holds (r ∷ []), added))
      × ((rs : List Reminder)
          → handle_add true fresh now text due recurrence (some t) (holds rs)
            ≡ (holds (rs ++ r ∷ []), added))
      × (handle_add false fresh now text due recurrence (some t) file ≡ (file, save_error))
unfolding handle_add load save
handle_add-outcome fresh now text due recurrence t file h g = (
  record {
    id = fresh;
    text = text;
    due_at = t;
    recurrence = recurrence;
    completed = false;
    created_at = now;
  },
  (refl, refl, refl, refl, refl),
  rw (h, g) refl,
  rw (h, g) refl,
  λ rs. rw (h, g) refl,
  rw (h, g) refl,
)
