-- ===== src/Sessions/Reaping.antt =====
-- The reaper of finished sessions (internal/persist/reaper.go): `ReapCompleted`, `CleanupStale`.
use eclaire.Prelude.{
  ℕ, ◌+◌, ◌-◌, ◌≡◌, ◌≢◌, ◌⊎◌, ◌≤◌, refl, ap, ◌∙◌, inl, inr, Bool, true, false, not, ◌&&◌, ◌||◌,
  Option, none, some, List, [], ◌∷◌, String, ◌==◌, eq_iff, arith, if◌then◌else◌, Bool-cases,
  Option-cases, length, length-append,
}
use eclaire.Prelude.Times.{Time, after}
use eclaire.Prelude.Dict.{Dict, get, get-remove}
use eclaire.Prelude.Sorting.{sort_by, insert_by}
use eclaire.Sessions.{
  SessionMeta, Session, SessionStore, metas, list, archive, update_status, get_meta,
}

abbrev pub is_persistent : SessionMeta → Bool
is_persistent m = m.kind == "main" || m.kind == "project"

-- The tests of the loop of `ReapCompleted`.
unfoldable pub reapable : Time → SessionMeta → Bool
reapable cutoff m =
    not (is_persistent m)
    && ((m.status == "completed" || m.status == "error") && not (after m.updated_at cutoff))

reap_loop : Time → List SessionMeta → SessionStore → ℕ → SessionStore × ℕ
reap_loop cutoff [] s n = (s, n)
reap_loop cutoff (m ∷ ms) s n = elim (reapable cutoff m) [
  | false ↦ reap_loop cutoff ms s n
  | true ↦ elim (archive m.id s) [
    | none ↦ reap_loop cutoff ms s n
    | some t ↦ reap_loop cutoff ms t (n + 1)
  ]
]

unfoldable pub reap_completed : Time → Time → SessionStore → SessionStore × ℕ
unfolding reap_loop
reap_completed retention now s = reap_loop (now - retention) (list s) s 0

-- The tests of the loop of `CleanupStale`.
unfoldable pub is_stale : Time → SessionMeta → Bool
is_stale cutoff m =
    not (is_persistent m) && (m.status == "active" && not (after m.updated_at cutoff))

pub record Cleaned : Type 0 where
  pub store : SessionStore
  pub marked : ℕ
  pub archived : ℕ

-- A stale session that is there is marked, and then archived.
clean_one : String → Time → Cleaned → Option SessionMeta → Cleaned
clean_one id now c none = c
clean_one id now c (some _) =
    let marked = update_status id "completed" now c.store in
    elim (archive id marked) [
      | none ↦ record c { store = marked; marked = c.marked + 1 }
      | some t ↦ record { store = t; marked = c.marked + 1; archived = c.archived + 1 }
    ]

clean_loop : Time → Time → List SessionMeta → Cleaned → Cleaned
unfolding clean_one
clean_loop cutoff now [] c = c
clean_loop cutoff now (m ∷ ms) c =
    clean_loop cutoff now ms
      (if is_stale cutoff m then clean_one m.id now c (get_meta m.id c.store) else c)

unfoldable pub cleanup_stale : Time → Time → SessionStore → Cleaned
unfolding clean_loop
cleanup_stale stale_after now s =
    clean_loop (now - stale_after) now (list s) (record { store = s; marked = 0; archived = 0 })

-- Each directory is named by the ID in its metadata, once, and none is named "archive".
abbrev pub IsKeyed : Dict Session → Type 0
IsKeyed [] = Unit
IsKeyed ((k, x) ∷ d) = (x.meta.id ≡ k) × (get d k ≡ none) × ((k == "archive") ≡ false) × IsKeyed d

module _ (test : SessionMeta → Bool) (id : String) where
  -- Some metadata with the ID passes the test.
  abbrev any_hit : List SessionMeta → Bool
  any_hit [] = false
  any_hit (m ∷ ms) = (test m && m.id == id) || any_hit ms

  any_hit-insert_by :
      (less : SessionMeta → SessionMeta → Bool) (m : SessionMeta) (ms : List SessionMeta)
      → any_hit (insert_by less m ms) ≡ any_hit (m ∷ ms)
  unfolding insert_by
  any_hit-insert_by less m [] = refl
  any_hit-insert_by less m (n ∷ ms) = ground (arith, any_hit-insert_by less m ms)

  any_hit-sort_by :
      (less : SessionMeta → SessionMeta → Bool) (ms : List SessionMeta)
      → any_hit (sort_by less ms) ≡ any_hit ms
  unfolding sort_by
  any_hit-sort_by less [] = refl
  any_hit-sort_by less (m ∷ ms) =
      ground (arith, any_hit-insert_by less m (sort_by less ms), any_hit-sort_by less ms)

  abbrev hit : Option Session → Bool
  hit none = false
  hit (some x) = test x.meta

  any_hit-metas : (d : Dict Session) → IsKeyed d → any_hit (metas d) ≡ hit (get d id)
  unfolding get
  any_hit-metas [] h = refl
  any_hit-metas ((k, x) ∷ d) h =
      ground (arith, h.0, h.1, h.2, any_hit-metas d h.3, eq_iff k id, eq_iff x.meta.id id)

  any_hit-list :
      (s : SessionStore) → IsKeyed s.sessions → any_hit (list s) ≡ hit (get s.sessions id)
  unfolding list
  any_hit-list s h = any_hit-sort_by _ (metas s.sessions) ∙ any_hit-metas s.sessions h

get-archive :
    (i id : String) (s t : SessionStore)
    → archive i s ≡ some t
    → (get t.sessions id ≡ (if i == id then none else get s.sessions id))
      × (length t.archived ≡ length s.archived + 1)
unfolding archive
get-archive i id s t h = elim (Option-cases (get s.sessions i)) [
  | inl absent ↦ ground (arith, absent)
  | inr (x, present) ↦
      ground (arith, present, get-remove s.sessions i id, length-append s.archived (x ∷ []))
]

archive-none :
    (i id : String) (s : SessionStore)
    → archive i s ≡ none
    → (i == id) ≡ true
    → get s.sessions id ≡ none
unfolding archive
archive-none i id s h e = elim (Option-cases (get s.sessions i)) [
  | inl absent ↦ ground (arith, absent, eq_iff i id)
  | inr (x, present) ↦ ground (arith, present)
]

-- What the loop of the reaper leaves, whatever list it is given.
LoopOutcome : Time → String → List SessionMeta → SessionStore → ℕ → SessionStore × ℕ → Type 0
LoopOutcome cutoff id ms s n (t, m) =
    (get t.sessions id ≡ (if any_hit (reapable cutoff) id ms then none else get s.sessions id))
    × (length t.archived + n ≡ length s.archived + m)

reap_loop-outcome :
    (cutoff : Time) (id : String) (ms : List SessionMeta) (s : SessionStore) (n : ℕ)
    → LoopOutcome cutoff id ms s n (reap_loop cutoff ms s n)
unfolding reap_loop LoopOutcome
reap_loop-outcome cutoff id [] s n = (refl, refl)
reap_loop-outcome cutoff id (m ∷ ms) s n = elim (Bool-cases (reapable cutoff m)) [
  | inr spared ↦
      let ih = reap_loop-outcome cutoff id ms s n in
      (ground (arith, spared, ih.0), ground (arith, spared, ih.1))
  | inl due ↦ elim (Option-cases (archive m.id s)) [
    | inl missing ↦
        let ih = reap_loop-outcome cutoff id ms s n in
        (
          ground (arith, due, missing, ih.0, archive-none m.id id s missing),
          ground (arith, due, missing, ih.1),
        )
    | inr (t, moved) ↦
        let ih = reap_loop-outcome cutoff id ms t (n + 1) in
        let a = get-archive m.id id s t moved in
        (ground (arith, due, moved, ih.0, a.0), ground (arith, due, moved, ih.1, a.1))
  ]
]

-- A session that the reaper is to archive at a cutoff.
abbrev pub IsOver : Time → SessionMeta → Type 0
IsOver cutoff m =
    (m.kind ≢ "main")
    × (m.kind ≢ "project")
    × ((m.status ≡ "completed") ⊎ (m.status ≡ "error"))
    × (m.updated_at ≤ cutoff)

reapable-IsOver : (cutoff : Time) (m : SessionMeta) → reapable cutoff m ≡ true → IsOver cutoff m
unfolding reapable
reapable-IsOver cutoff m h = (
  λ e. ground (arith, h, e, eq_iff m.kind "main"),
  λ e. ground (arith, h, e, eq_iff m.kind "project"),
  elim (Bool-cases (m.status == "completed")) [
    | inl e ↦ inl (ground (arith, e, eq_iff m.status "completed"))
    | inr e ↦ inr (ground (arith, h, e, eq_iff m.status "error"))
  ],
  ground (arith, h),
)

IsOver-reapable : (cutoff : Time) (m : SessionMeta) → IsOver cutoff m → reapable cutoff m ≡ true
unfolding reapable
IsOver-reapable cutoff m (main, project, status, old) = ground (
  arith,
  main,
  project,
  status,
  old,
  eq_iff m.kind "main",
  eq_iff m.kind "project",
  eq_iff m.status "completed",
  eq_iff m.status "error",
)

-- Where each session is stored under its own ID, once, and none is called "archive",
-- `ReapCompleted` removes, of the sessions of the store, exactly those that are neither the main
-- session nor a project's, are completed or failed, and were not updated after the cutoff; every
-- other session is as it was, and the result counts the sessions that were archived.
pub reap_completed-exact :
    (retention now : Time) (s : SessionStore) (id : String) (x : Session)
    → IsKeyed s.sessions
    → get s.sessions id ≡ some x
    → let (t, count) = reap_completed retention now s in
      (IsOver (now - retention) x.meta → get t.sessions id ≡ none)
      × (¬ IsOver (now - retention) x.meta → get t.sessions id ≡ some x)
      × (length t.archived ≡ length s.archived + count)
unfolding reap_completed LoopOutcome
reap_completed-exact retention now s id x h present =
    let cutoff = now - retention in
    let (left, counted) = reap_loop-outcome cutoff id (list s) s 0 in
    let (t, count) = reap_completed retention now s in
    let exact : get t.sessions id ≡ (if reapable cutoff x.meta then none else some x) =
      left
      ∙ ap (λ (b : Bool). if b then none else get s.sessions id)
          (any_hit-list (reapable cutoff) id s h)
      ∙ ap (λ (o : Option Session). if hit (reapable cutoff) id o then none else o) present in
    (
      λ over.
          exact
          ∙ ap (λ (b : Bool). if b then none else some x) (IsOver-reapable cutoff x.meta over),
      λ live. elim (Bool-cases (reapable cutoff x.meta)) [
        | inl e ↦ absurd (live (reapable-IsOver cutoff x.meta e))
        | inr e ↦ exact ∙ ap (λ (b : Bool). if b then none else some x) e
      ],
      omega (arith, counted),
    )
