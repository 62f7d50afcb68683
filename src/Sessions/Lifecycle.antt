-- ===== src/Sessions/Lifecycle.antt =====
-- Creating and finding sessions (internal/persist/session.go).
use eclaire.Prelude.{
  ◌≡◌, refl, inl, inr, true, false, not, ◌&&◌, Option, none, some, [], ◌∷◌, String, ◌==◌, eq_iff,
  eq_refl, arith, if◌then◌else◌, Bool-cases, Option-cases,
}
use eclaire.Prelude.Times.{Time}
use eclaire.Prelude.Dict.{Dict, get, put, get-put, values}
use eclaire.Sessions.{
  SessionMeta, Session, SessionStore, get_meta, place, change_meta, with_child, create, new_meta,
  root_for, get_or_create_main, main_meta, main_session_id, find_by_project, create_project,
  project_meta, is_project_session, first_project,
}

get_meta-place :
    (meta : SessionMeta) (s : SessionStore) (k : String)
    → get_meta k (place meta s) ≡ (if meta.id == k then some meta else get_meta k s)
unfolding get_meta
get_meta-place meta s k =
    ground (arith, get-put s.sessions meta.id k (record { meta = meta; events = [] }))

abbrev changed_meta : (SessionMeta → SessionMeta) → Option SessionMeta → Option SessionMeta
changed_meta fn none = none
changed_meta fn (some m) = some (fn m)

pub get_meta-change_meta :
    (id : String) (fn : SessionMeta → SessionMeta) (s : SessionStore) (k : String)
    → get_meta k (change_meta id fn s)
      ≡ (if id == k then changed_meta fn (get_meta k s) else get_meta k s)
unfolding get_meta change_meta
get_meta-change_meta id fn s k = elim (Option-cases (get s.sessions id)) [
  | inl absent ↦ ground (arith, absent, eq_iff id k)
  | inr (x, present) ↦
      ground (arith, present, get-put s.sessions id k (record x { meta = fn x.meta }), eq_iff id k)
]

-- The metadata of a parent that a child is linked to.
abbrev linked : String → Time → Option SessionMeta → Option SessionMeta
linked id now o = changed_meta (with_child id now) o

-- `Create` under a fresh ID stores the session that it returns, active and with no events, with the
-- root of its parent (itself where it has no parent, and the parent's ID where the parent is
-- missing or has no root); it appends the new ID to the children of the parent, if that exists,
-- and leaves the metadata of every other session as it was.
pub create-outcome :
    (id : String) (now : Time) (agent title parent : String) (s : SessionStore) (k : String)
    → get_meta id s ≡ none
    → (parent == id) ≡ false
    → let (t, meta) = create id now agent title parent s in
      (meta ≡ new_meta id parent (root_for id parent s) agent title now)
      × (get_meta k t ≡ (
          if id == k
          then some meta
          else if not (parent == "") && parent == k
          then linked id now (get_meta k s)
          else get_meta k s))
unfolding create
create-outcome id now agent title parent s k absent other =
    let meta = new_meta id parent (root_for id parent s) agent title now in
    (
      refl,
      elim (Bool-cases (parent == "")) [
        | inl top ↦ ground (arith, top, get_meta-place meta s k)
        | inr child ↦ ground (
          arith,
          child,
          get_meta-change_meta parent (with_child id now) (place meta s) k,
          get_meta-place meta s k,
          eq_iff id k,
          eq_iff parent k,
          eq_iff parent id,
        )
      ],
    )

-- `GetOrCreateMain` called again, by any agent and later, changes nothing and returns the session
-- of the first call.
pub get_or_create_main-idempotent :
    (agent agent' : String) (now later : Time) (s : SessionStore)
    → let (t, meta) = get_or_create_main agent now s in
      get_or_create_main agent' later t ≡ (t, meta)
unfolding get_or_create_main
get_or_create_main-idempotent agent agent' now later s =
    elim (Option-cases (get_meta main_session_id s)) [
      | inr (m, present) ↦ rw (present, present) refl
      | inl absent ↦
          let meta = main_meta agent now in
          let e : get_meta main_session_id (place meta s) ≡ some meta =
            get_meta-place meta s main_session_id in
          rw (absent, e) refl
    ]

first_project-put :
    (root : String) (d : Dict Session) (k : String) (x : Session)
    → first_project root (values d) ≡ none
    → is_project_session root x.meta ≡ true
    → first_project root (values (put d k x)) ≡ some x.meta
unfolding first_project put
first_project-put root [] k x h p = rw p refl
first_project-put root ((i, w) ∷ d) k x h p = elim (Bool-cases (is_project_session root w.meta)) [
  | inl hit ↦ absurd (ground (arith, hit))
  | inr miss ↦ elim (Bool-cases (i == k)) [
    | inl same ↦ rw same (rw p refl)
    | inr other ↦ rw other (rw miss (first_project-put root d k x (rw miss at h) p))
  ]
]

-- `CreateProject` called again for the same root, with any other arguments, changes nothing and
-- returns the session of the first call.
pub create_project-idempotent :
    (id id' : String) (now later : Time) (agent agent' : String) (root title title' : String)
    (s : SessionStore)
    → let (t, meta) = create_project id now agent root title s in
      create_project id' later agent' root title' t ≡ (t, meta)
unfolding create_project find_by_project
create_project-idempotent id id' now later agent agent' root title title' s =
    elim (Option-cases (first_project root (values s.sessions))) [
      | inr (m, present) ↦ rw (present, present) refl
      | inl absent ↦
          let meta = project_meta id now agent root title in
          let e : first_project root (values (place meta s).sessions) ≡ some meta =
            first_project-put root s.sessions id (record { meta = meta; events = [] }) absent
              (rw eq_refl refl) in
          rw (absent, e) refl
    ]
