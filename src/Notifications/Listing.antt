-- ===== src/Notifications/Listing.antt =====
-- What `List`, `Pending`, `Drain` and `Add` show (internal/agent/notifications.go).
use mathlib.Core.List.{append-nil, reverse-cons, map-append}
use eclaire.Prelude.{
  ℕ, zero, suc, ◌+◌, ◌≤◌, ◌≡◌, refl, sym, ap, ◌∙◌, Bool, not, List, [], ◌∷◌, ◌++◌, String, arith,
  if◌then◌else◌, Bool-cases, inl, inr, length, take, select, reverse, keep_last, keep_last-snoc,
  length-keep_last, map,
}
use eclaire.Prelude.Times.{Time}
use eclaire.Notifications.{
  Notification, NotificationFilter, NotificationStore, max_entries, completed, add, drain,
  drain_loop, skips, list_loop, list, mark_read_entry, count, count_unread, mark_all_read,
}

-- What a filter with a limit leaves of the entries that match: all, or the first ones.
abbrev pub limited : ℕ → List Notification → List Notification
limited zero ns = ns
limited (suc k) ns = take (suc k) ns

list_loop-unlimited :
    (f : NotificationFilter) (found : ℕ) (ns : List Notification)
    → f.limit ≡ 0
    → list_loop f found ns ≡ select (λ n. not (skips f n)) ns
unfolding list_loop
list_loop-unlimited f found [] h = refl
list_loop-unlimited f found (n ∷ ns) h =
    ground (arith, list_loop-unlimited f found ns h, list_loop-unlimited f (suc found) ns h)

list_loop-limited :
    (f : NotificationFilter) (room found : ℕ) (ns : List Notification)
    → found + suc room ≡ f.limit
    → list_loop f found ns ≡ take (suc room) (select (λ n. not (skips f n)) ns)
unfolding list_loop
list_loop-limited f room found [] h = refl
list_loop-limited f zero found (n ∷ ns) h = ground (arith, list_loop-limited f zero found ns h)
list_loop-limited f (suc room) found (n ∷ ns) h = ground (
  arith,
  list_loop-limited f (suc room) found ns h,
  list_loop-limited f room (suc found) ns (omega arith),
)

-- `List` returns, newest first, the entries that the filter does not skip: all of them if there is
-- no limit, and the first `limit` of them otherwise.
pub list-limited :
    (f : NotificationFilter) (s : NotificationStore)
    → list f s ≡ limited f.limit (select (λ n. not (skips f n)) (reverse s.entries))
unfolding list
list-limited f s = by_limit f.limit refl
  where
    by_limit :
        (k : ℕ)
        → f.limit ≡ k
        → list_loop f 0 (reverse s.entries)
          ≡ limited k (select (λ n. not (skips f n)) (reverse s.entries))
    by_limit zero h = list_loop-unlimited f 0 (reverse s.entries) h
    by_limit (suc k) h = list_loop-limited f k 0 (reverse s.entries) (omega arith)

abbrev unread : Notification → Bool
unread n = not n.read

select-append :
    (p : Notification → Bool) (xs ys : List Notification)
    → select p (xs ++ ys) ≡ select p xs ++ select p ys
select-append p [] ys = refl
select-append p (x ∷ xs) ys = ground (arith, select-append p xs ys)

select-reverse :
    (p : Notification → Bool) (n : Notification) (ns : List Notification)
    → select p (reverse (n ∷ ns)) ≡ select p (reverse ns) ++ (if p n then n ∷ [] else [])
select-reverse p n ns = ap (select p) (reverse-cons n ns) ∙ select-append p (reverse ns) (n ∷ [])

drain_loop-left : (ns : List Notification) → (drain_loop ns).1 ≡ map mark_read_entry ns
unfolding drain_loop
drain_loop-left [] = refl
drain_loop-left (n ∷ ns) = ground (arith, drain_loop-left ns)

drain_loop-pending : (ns : List Notification) → (drain_loop ns).0 ≡ select unread (reverse ns)
unfolding drain_loop
drain_loop-pending [] = refl
drain_loop-pending (n ∷ ns) = elim (Bool-cases n.read) [
  | inl old ↦
      ground (arith, old)
      ∙ drain_loop-pending ns
      ∙ sym (append-nil (select unread (reverse ns)))
      ∙ ap (λ (r : Bool). select unread (reverse ns) ++ (if not r then n ∷ [] else [])) (sym old)
      ∙ sym (select-reverse unread n ns)
  | inr new ↦
      ground (arith, new)
      ∙ ap (λ (r : List Notification). r ++ n ∷ []) (drain_loop-pending ns)
      ∙ ap (λ (r : Bool). select unread (reverse ns) ++ (if not r then n ∷ [] else [])) (sym new)
      ∙ sym (select-reverse unread n ns)
]

entries-drain :
    (saved : Bool) (s : NotificationStore)
    → (drain saved s).0.entries ≡ map mark_read_entry s.entries
unfolding drain
entries-drain saved s = ground (arith, drain_loop-left s.entries)

unread_none : (ns : List Notification) → select unread (map mark_read_entry ns) ≡ []
unread_none [] = refl
unread_none (n ∷ ns) = unread_none ns

reverse_read :
    (ns : List Notification) → reverse (map mark_read_entry ns) ≡ map mark_read_entry (reverse ns)
reverse_read [] = refl
reverse_read (n ∷ ns) =
    reverse-cons (mark_read_entry n) (map mark_read_entry ns)
    ∙ ap (λ (r : List Notification). r ++ mark_read_entry n ∷ []) (reverse_read ns)
    ∙ sym (map-append mark_read_entry (reverse ns) (n ∷ []))
    ∙ ap (map mark_read_entry) (sym (reverse-cons n ns))

-- `Drain` returns the unread entries, newest first, marks every entry as read and changes nothing
-- else of them; a second `Drain` returns nothing.
pub drain-pending :
    (saved again : Bool) (s : NotificationStore)
    → let (t, drained) = drain saved s in
      (drained ≡ select unread (reverse s.entries))
      × (t.entries ≡ map mark_read_entry s.entries)
      × ((drain again t).1 ≡ [])
unfolding drain
drain-pending saved again s = (
  drain_loop-pending s.entries,
  entries-drain saved s,
  drain_loop-pending (drain saved s).0.entries
      ∙ ap (λ (ns : List Notification). select unread (reverse ns)) (entries-drain saved s)
      ∙ ap (select unread) (reverse_read s.entries)
      ∙ unread_none (reverse s.entries),
)

-- `Add` puts the completed notification behind the newest 999 of the entries, so that it is the
-- newest of at most 1000, and writes it behind the lines of the file unless the write fails.
pub add-bounded :
    (fresh : String) (now : Time) (saved : Bool) (n : Notification) (s : NotificationStore)
    → let (t, written) = add fresh now saved n s in
      (t.entries ≡ keep_last 999 s.entries ++ completed fresh now n ∷ [])
      × (length t.entries ≤ max_entries)
      × (t.file ≡ (if written then s.file ++ completed fresh now n ∷ [] else s.file))
      × (written ≡ saved)
unfolding add
add-bounded fresh now saved n s = (
  keep_last-snoc 999 s.entries (completed fresh now n),
  omega (arith, length-keep_last max_entries (s.entries ++ completed fresh now n ∷ [])),
  refl,
  refl,
)

count_unread-all_read : (ns : List Notification) → count_unread (map mark_read_entry ns) ≡ 0
unfolding count_unread
count_unread-all_read [] = refl
count_unread-all_read (n ∷ ns) = count_unread-all_read ns

length-read : (ns : List Notification) → length (map mark_read_entry ns) ≡ length ns
length-read [] = refl
length-read (n ∷ ns) = ap suc (length-read ns)

entries-mark_all_read :
    (saved : Bool) (s : NotificationStore)
    → (mark_all_read saved s).0.entries ≡ map mark_read_entry s.entries
unfolding mark_all_read
entries-mark_all_read saved s = ground arith

-- `MarkAllRead` returns the unread count, and afterwards `Count` gives the same total and no unread
-- entry.
pub count-mark_all_read :
    (saved : Bool) (s : NotificationStore)
    → let (t, marked) = mark_all_read saved s in
      (marked ≡ (count s).1) × ((count t).0 ≡ (count s).0) × ((count t).1 ≡ 0)
unfolding mark_all_read count
count-mark_all_read saved s =
    let e = entries-mark_all_read saved s in
    (refl, ap length e ∙ length-read s.entries, ap count_unread e ∙ count_unread-all_read s.entries)
