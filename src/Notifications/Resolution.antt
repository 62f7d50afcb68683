-- ===== src/Notifications/Resolution.antt =====
-- Resolving and reading single notifications (internal/agent/notifications.go).
use eclaire.Prelude.{
  suc, ◌≡◌, refl, ap, Bool, Option, none, some, List, [], ◌∷◌, String, ◌==◌, eq_iff, arith,
  if◌then◌else◌, Bool-cases, Option-cases, inl, inr, length, is_some,
}
use eclaire.Notifications.{
  Notification, NotificationStore, get, find, resolve, mark_read, change_first, change_saved,
  resolve_entry, mark_read_entry,
}

abbrev pub changed : (Notification → Notification) → Option Notification → Option Notification
changed fn none = none
changed fn (some n) = some (fn n)

-- What `change_first` leaves, compared through `find`: it succeeds exactly when the ID is found.
module _ (fn : Notification → Notification) (keeps : (n : Notification) → (fn n).id ≡ n.id)
    (id : String) where
  change_none : (ns : List Notification) → find id ns ≡ none → change_first fn id ns ≡ none
  unfolding find change_first
  change_none [] h = refl
  change_none (n ∷ ns) h = ground (arith, change_none ns)

  find_changed :
      (ns : List Notification) (n : Notification)
      → find id ns ≡ some n
      → (left : List Notification) × (change_first fn id ns ≡ some left)
        × ((k : String) → find k left ≡ (if id == k then some (fn n) else find k ns))
        × (length left ≡ length ns)
  unfolding find change_first
  find_changed [] n h = cc
  find_changed (m ∷ ns) n h = elim (Bool-cases (m.id == id)) [
    | inl same ↦ (
      fn m ∷ ns,
      ground (arith, same),
      λ k.
          ground (
            arith,
            same,
            h,
            keeps m,
            eq_iff m.id id,
            eq_iff id k,
            eq_iff m.id k,
            eq_iff (fn m).id k,
          ),
      refl,
    )
    | inr other ↦
        let (left, e, f, l) = find_changed ns n (rw other at h) in
        (
          m ∷ left,
          ground (arith, other, e),
          λ k. ground (arith, other, f k, eq_iff m.id id, eq_iff id k, eq_iff m.id k),
          ap suc l,
        )
  ]

abbrev pub ChangeOutcome :
    (Notification → Notification) → String → NotificationStore → NotificationStore × Bool → Type 0
ChangeOutcome fn id s (t, found) =
    (found ≡ is_some (get id s))
    × ((k : String) → get k t ≡ (if id == k then changed fn (get id s) else get k s))
    × (length t.entries ≡ length s.entries)

change-outcome :
    (fn : Notification → Notification)
    → ((n : Notification) → (fn n).id ≡ n.id)
    → (saved : Bool) (id : String) (s : NotificationStore)
    → ChangeOutcome fn id s (change_saved saved s (change_first fn id s.entries))
unfolding get change_saved
change-outcome fn keeps saved id s = elim (Option-cases (find id s.entries)) [
  | inl absent ↦
      rw (change_none fn keeps id s.entries absent)
        (ground (arith, absent), λ k. ground (arith, absent, eq_iff id k), refl)
  | inr (n, found) ↦
      let (left, e, f, l) = find_changed fn keeps id s.entries n found in rw (e, found) (refl, f, l)
]

-- `Resolve` returns whether an entry has the ID; if one has, the first of them becomes resolved and
-- read, and what `Get` returns for every other ID is unchanged, as is the number of entries.
pub resolve-outcome :
    (saved : Bool) (id : String) (s : NotificationStore)
    → ChangeOutcome resolve_entry id s (resolve saved id s)
unfolding resolve
resolve-outcome saved id s = change-outcome resolve_entry (λ n. refl) saved id s

-- `MarkRead` returns whether an entry has the ID; if one has, the first of them becomes read, and
-- what `Get` returns for every other ID is unchanged, as is the number of entries.
pub mark_read-outcome :
    (saved : Bool) (id : String) (s : NotificationStore)
    → ChangeOutcome mark_read_entry id s (mark_read saved id s)
unfolding mark_read
mark_read-outcome saved id s = change-outcome mark_read_entry (λ n. refl) saved id s
