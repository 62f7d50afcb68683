-- ===== src/Sessions/Tests.antt =====
-- Small session stores on which the theorems are tried.
use eclaire.Prelude.{some, length, ◌+◌, ◌≡◌, refl, none, [], ◌∷◌}
use eclaire.Prelude.Dict.{get}
use eclaire.Sessions.{SessionMeta, SessionStore, new_meta}
use eclaire.Sessions.Reaping.{IsKeyed, IsOver, reap_completed, reap_completed-exact}

abbrev finished : SessionMeta
finished = record (new_meta "s" "" "s" "coding" "Work" 10) { status = "completed" }

abbrev one_session : SessionStore
one_session = record {
  sessions = ("s", record { meta = finished; events = [] }) ∷ [];
  archived = [];
}

one_session-IsKeyed : IsKeyed one_session.sessions
unfolding get
one_session-IsKeyed = (refl, refl, refl, tt)

found : get one_session.sessions "s" ≡ some (record { meta = finished; events = [] })
unfolding get
found = refl

reap_completed-exact_example :
    let (t, count) = reap_completed 5 100 one_session in
    (IsOver 95 finished → get t.sessions "s" ≡ none)
    × (¬ IsOver 95 finished → get t.sessions "s" ≡ some (record { meta = finished; events = [] }))
    × (length t.archived ≡ 0 + count)
reap_completed-exact_example =
    reap_completed-exact 5 100 one_session "s" (record { meta = finished; events = [] })
      one_session-IsKeyed found
