-- ===== src/Todos/Changes.antt =====
-- What a change of a task list does and reports (internal/tool/todos.go, `Diff`,
-- `TodosToolWithDeps`).
use mathlib.Core.List.{Memᴰ}
use mathlib.Core.Path.{subst}
use eclaire.Prelude.{
  ◌≡◌, ◌≢◌, refl, true, sym, ap, ◌∙◌, ◌↔◌, inl, inr, ℕ, suc, ◌≤◌, false, not, ◌&&◌, Option, some,
  List, [], ◌∷◌, String, ◌==◌, if-cases, length, arith, eq_iff, Bool-cases,
}
use eclaire.Prelude.Dict.{get, put, get-put, get-put_self}
use eclaire.Todos.{
  TodoItem, TodoStore, get_todos, or_none, diff, is_completed, was_completed, newly_completed,
  count_completed, has_incomplete_todos,
}

-- All tasks are completed exactly when the count of the completed ones is that of all.
count_le : (ts : List TodoItem) → count_completed ts ≤ length ts
count_le [] = omega arith
count_le (t ∷ ts) =
    if-cases (λ (n : ℕ). n ≤ suc (length ts)) (is_completed t) _ _ (λ e. omega (arith, count_le ts))
      (λ e. omega (arith, count_le ts))

all-incomplete :
    (ts : List TodoItem) → (has_incomplete_todos ts ≡ false) ↔ (count_completed ts ≡ length ts)
unfolding has_incomplete_todos
all-incomplete [] = (λ e. refl, λ e. refl)
all-incomplete (t ∷ ts) = elim (Bool-cases (is_completed t)) [
  | inl e ↦ ground (arith, e, all-incomplete ts)
  | inr e ↦ ground (arith, e, count_le ts)
]

unchanged :
    (session other : String) (items : List TodoItem) (s : TodoStore)
    → other ≢ session
    → get (put s session items) other ≡ get s other
unchanged session other items s h =
    get-put s session other items
    ∙ if-cases (λ (o : Option (List TodoItem)). o ≡ get s other) (session == other) (some items)
        (get s other) (λ e. absurd (ground (arith, h, e, eq_iff session other))) (λ e. refl)

-- The list has a completed task with this text.
abbrev pub HasCompleted : String → List TodoItem → Type 0
HasCompleted c ts = (t : TodoItem) × Memᴰ t ts × (t.status ≡ "completed") × (t.content ≡ c)

was-HasCompleted : (c : String) (ts : List TodoItem) → was_completed c ts ≡ true → HasCompleted c ts
unfolding was_completed
was-HasCompleted c [] h = cc
was-HasCompleted c (t ∷ ts) h = elim (Bool-cases (is_completed t && (t.content == c))) [
  | inl e ↦ (
    t,
    Memᴰ.head refl,
    ground (arith, e, eq_iff t.status "completed"),
    ground (arith, e, eq_iff t.content c),
  )
  | inr e ↦
      let (u, m, s, k) = was-HasCompleted c ts (ground (arith, e, h)) in (u, Memᴰ.tail m, s, k)
]

HasCompleted-was :
    (c : String) (ts : List TodoItem) (u : TodoItem)
    → Memᴰ u ts
    → u.status ≡ "completed"
    → u.content ≡ c
    → was_completed c ts ≡ true
unfolding was_completed
HasCompleted-was c (t ∷ ts) u (Memᴰ.head e) s k = ground (
  arith,
  eq_iff t.status "completed",
  eq_iff t.content c,
  sym (ap (λ (x : TodoItem). x.status) e) ∙ s,
  sym (ap (λ (x : TodoItem). x.content) e) ∙ k,
)
HasCompleted-was c (t ∷ ts) u (Memᴰ.tail m) s k = ground (arith, HasCompleted-was c ts u m s k)
HasCompleted-was c [] u m s k = elim m [ ]

not-HasCompleted :
    (c : String) (old : List TodoItem) → was_completed c old ≡ false → ¬ HasCompleted c old
not-HasCompleted c old h (u, m, s, k) = cc (HasCompleted-was c old u m s k, h)

-- The report of a text: it is completed now and was not before.
abbrev pub IsNews : String → List TodoItem → List TodoItem → Type 0
IsNews c old ts = HasCompleted c ts × ¬ HasCompleted c old

later-IsNews :
    (c : String) (old ts : List TodoItem) (t : TodoItem) → IsNews c old ts → IsNews c old (t ∷ ts)
later-IsNews c old ts t ((u, m, s, k), new) = ((u, Memᴰ.tail m, s, k), new)

reported-IsNews :
    (c : String) (old ts : List TodoItem) → Memᴰ c (newly_completed old ts) → IsNews c old ts
unfolding newly_completed
reported-IsNews c old [] = λ m. elim m [ ]
reported-IsNews c old (t ∷ ts) =
    if-cases (λ (cs : List String). Memᴰ c cs → IsNews c old (t ∷ ts))
      (is_completed t && not (was_completed t.content old)) _ _
      (λ e m. elim m [
        | Memᴰ.head f ↦ (
          (t, Memᴰ.head refl, ground (arith, e, eq_iff t.status "completed"), sym f),
          not-HasCompleted c old (ap (λ (x : String). was_completed x old) f ∙ ground (arith, e)),
        )
        | Memᴰ.tail n ↦ later-IsNews c old ts t (reported-IsNews c old ts n)
      ])
      (λ e m. later-IsNews c old ts t (reported-IsNews c old ts m))

IsNews-reported :
    (old ts : List TodoItem) (u : TodoItem)
    → Memᴰ u ts
    → u.status ≡ "completed"
    → was_completed u.content old ≡ false
    → Memᴰ u.content (newly_completed old ts)
unfolding newly_completed
IsNews-reported old [] u m s k = elim m [ ]
IsNews-reported old (t ∷ ts) u (Memᴰ.head f) s k =
    if-cases (λ (cs : List String). Memᴰ u.content cs)
      (is_completed t && not (was_completed t.content old)) _ _
      (λ e. Memᴰ.head (ap (λ (x : TodoItem). x.content) f))
      (λ e. absurd (
        ground (
          arith,
          e,
          eq_iff t.status "completed",
          sym (ap (λ (x : TodoItem). x.status) f) ∙ s,
          sym (ap (λ (x : TodoItem). was_completed x.content old) f) ∙ k,
        )))
IsNews-reported old (t ∷ ts) u (Memᴰ.tail m) s k =
    let rest = IsNews-reported old ts u m s k in
    if-cases (λ (cs : List String). Memᴰ u.content cs)
      (is_completed t && not (was_completed t.content old)) _ _ (λ e. Memᴰ.tail rest) (λ e. rest)

newly_completed_iff :
    (c : String) (old ts : List TodoItem) → Memᴰ c (newly_completed old ts) ↔ IsNews c old ts
newly_completed_iff c old ts = (
  reported-IsNews c old ts,
  λ ((u, m, s, k), new).
      subst (λ (x : String). Memᴰ x (newly_completed old ts)) k
        (IsNews-reported old ts u m s (elim (Bool-cases (was_completed u.content old)) [
          | inl e ↦
              absurd (
                new (was-HasCompleted c old (sym (ap (λ (x : String). was_completed x old) k) ∙ e)))
          | inr e ↦ e
        ])),
)

-- A list that is written is the one that the session reads next, and the lists of other sessions stay
-- as they are. A text is reported as just completed exactly when the new list has a completed task
-- with it and the old list has none, and the counts of completed and of all tasks are equal exactly
-- when no task of the new list is open.
pub diff-Written :
    (session other : String) (items : List TodoItem) (s : TodoStore)
    → other ≢ session
    → let (s', output) = diff session items s in
      (get_todos s' session ≡ items)
      × (get_todos s' other ≡ get_todos s other)
      × ((c : String) → Memᴰ c output.just_completed ↔ IsNews c (get_todos s session) items)
      × ((has_incomplete_todos items ≡ false) ↔ (output.completed ≡ output.total))
unfolding diff get_todos
diff-Written session other items s h = (
  ap or_none (get-put_self s session items),
  ap or_none {y = get s other} (unchanged session other items s h),
  λ c. newly_completed_iff c (get_todos s session) items,
  all-incomplete items,
)
