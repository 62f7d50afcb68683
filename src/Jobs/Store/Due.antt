-- ===== src/Jobs/Store/Due.antt =====
-- Which jobs `NextDue` returns and when the timer wakes (internal/agent/jobstore.go).
use mathlib.Core.List.{Mem, Memᴰ}
use mathlib.Core.List.Perm
use eclaire.Prelude.{
  ◌≤◌, Bool, true, false, Option, none, some, List, [], ◌∷◌, String, ◌==◌, eq_iff, eq_refl, ◌≡◌,
  refl, sym, ap, ◌∙◌, ◌⊎◌, inl, inr, arith, if◌then◌else◌, Bool-cases, is_some, All, select,
}
use eclaire.Prelude.Times.{Time, before}
use eclaire.Prelude.Dict.{Dict, get, values}
use eclaire.Prelude.Sorting.{IsSorted, sort_by-perm, sort_by-All, sort_by-IsSorted, up-IsWeakOrder}
use eclaire.Jobs.{Job}
use eclaire.Jobs.Store.Invariant.{IsStore}
use eclaire.Jobs.Store.{JobStore, is_due, next_due, next_key, next_wake_at, wake_from, wake_step}

-- An enabled job that is not running and whose next run has come.
pub record IsDue (now : Time) (j : Job) : Type 0 where
  pub enabled : j.enabled ≡ true
  pub idle : j.state.running_at ≡ none
  pub has_next : is_some j.state.next_run_at ≡ true
  pub reached : next_key j ≤ now

is_due→IsDue : (now : Time) (j : Job) → is_due now j ≡ true → IsDue now j
unfolding is_due
is_due→IsDue now j h = record {
  enabled = ground arith;
  idle = ground arith;
  has_next = ground arith;
  reached = ground arith;
}

IsDue→is_due : (now : Time) (j : Job) → IsDue now j → is_due now j ≡ true
unfolding is_due
IsDue→is_due now j h = ground (arith, h.enabled, h.idle, h.has_next, h.reached)

select-IsDue : (now : Time) (js : List Job) → All (IsDue now) (select (is_due now) js)
select-IsDue now [] = tt
select-IsDue now (j ∷ js) = elim (Bool-cases (is_due now j)) [
  | inl due ↦ rw due (is_due→IsDue now j due, select-IsDue now js)
  | inr idle ↦ rw idle (select-IsDue now js)
]

mem_values : (d : Dict Job) (k : String) (j : Job) → get d k ≡ some j → Memᴰ j (values d)
unfolding get
mem_values [] k j h = cc
mem_values ((i, w) ∷ d) k j h = elim (Bool-cases (i == k)) [
  | inl e ↦ Memᴰ.head (ground arith)
  | inr e ↦ Memᴰ.tail (mem_values d k j (rw e at h))
]

mem-select {ℓ} :
    {A : Type ℓ} (p : A → Bool) (a : A) (xs : List A)
    → p a ≡ true
    → Memᴰ a xs
    → Memᴰ a (select p xs)
mem-select p a [] h m = elim m [ ]
mem-select p a (x ∷ xs) h (Memᴰ.head e) = rw (ap p (sym e) ∙ h) (Memᴰ.head e)
mem-select p a (x ∷ xs) h (Memᴰ.tail m) = elim (Bool-cases (p x)) [
  | inl t ↦ rw t (Memᴰ.tail (mem-select p a xs h m))
  | inr f ↦ rw f (mem-select p a xs h m)
]

pub All-values :
    (d e : Dict Job)
    → IsStore d
    → ((k : String) (j : Job) → get d k ≡ some j → get e k ≡ some j)
    → All (λ j. get e j.id ≡ some j) (values d)
unfolding get
All-values [] e h sub = tt
All-values ((i, w) ∷ d) e h sub = (
  ground (arith, h.0, sub i w (rw eq_refl)),
  All-values d e h.2 (λ k j p. sub k j (ground (arith, p, h.1, eq_iff i k))),
)

found-IsDue :
    (now : Time) (e : Dict Job) (js : List Job)
    → All (λ j. get e j.id ≡ some j) js
    → All (λ j. (get e j.id ≡ some j) × IsDue now j) (select (is_due now) js)
found-IsDue now e [] h = tt
found-IsDue now e (j ∷ js) h = elim (Bool-cases (is_due now j)) [
  | inl due ↦ rw due ((h.0, is_due→IsDue now j due), found-IsDue now e js h.1)
  | inr idle ↦ rw idle (found-IsDue now e js h.1)
]

abbrev by_next : Job → Job → Bool
by_next a b = before (next_key a) (next_key b)

-- In a store that has each job under its own ID, once, `NextDue` returns jobs of the store that
-- are enabled, not running and whose next run has come; the earliest next run is first; and every
-- such job of the store is returned.
pub next_due-exact :
    (now : Time) (s : JobStore)
    → IsStore s.jobs
    → All (λ j. (get s.jobs j.id ≡ some j) × IsDue now j) (next_due now s)
      × IsSorted (λ a b. before (next_key a) (next_key b)) (next_due now s)
      × ((k : String) (j : Job) → get s.jobs k ≡ some j → IsDue now j → Mem j (next_due now s))
unfolding next_due
next_due-exact now s h = (
  sort_by-All by_next _ _ (found-IsDue now s.jobs _ (All-values s.jobs s.jobs h (λ k j p. p))),
  sort_by-IsSorted by_next (up-IsWeakOrder next_key) _,
  λ k j found due.
      (Perm.mem_iff (sort_by-perm by_next _)).1
        ∣ mem-select (is_due now) j _ (IsDue→is_due now j due) (mem_values s.jobs k j found) ∣₁,
)

step_le :
    (b : Bool) (o : Option Time) (e : Time)
    → (w : Time) × (wake_step b o (some e) ≡ some w) × (w ≤ e)
unfolding wake_step
step_le false o e = (e, refl, omega arith)
step_le true none e = (e, refl, omega arith)
step_le true (some t) e = (if before t e then t else e, refl, ground arith)

wake_le : (js : List Job) (e : Time) → (w : Time) × (wake_from (some e) js ≡ some w) × (w ≤ e)
unfolding wake_from
wake_le [] e = (e, refl, omega arith)
wake_le (j ∷ js) e =
    let (x, p, q) = step_le j.enabled j.state.next_run_at e in
    let (w, r, l) = wake_le js x in (w, rw p r, omega arith)

-- A job that is enabled and has the next run `t`.
abbrev pub Alarm : Job → Time → Type 0
Alarm j t = (j.enabled ≡ true) × (j.state.next_run_at ≡ some t)

Alarm-step :
    (e : Option Time) (j : Job) (t : Time)
    → Alarm j t
    → (w : Time) × (wake_step j.enabled j.state.next_run_at e ≡ some w) × (w ≤ t)
unfolding wake_step
Alarm-step none j t h = (t, ground (arith, h.0, h.1), omega arith)
Alarm-step (some e) j t h = (if before t e then t else e, ground (arith, h.0, h.1), ground arith)

wake_bound :
    (js : List Job) (e : Option Time) (j : Job) (t : Time)
    → Alarm j t
    → Memᴰ j js
    → (w : Time) × (wake_from e js ≡ some w) × (w ≤ t)
unfolding wake_from
wake_bound [] e j t h m = elim m [ ]
wake_bound (i ∷ js) e j t h (Memᴰ.head same) =
    let (x, p, q) = Alarm-step e i t (rw same at h) in
    let (w, r, l) = wake_le js x in (w, rw p r, omega arith)
wake_bound (i ∷ js) e j t h (Memᴰ.tail m) =
    wake_bound js (wake_step i.enabled i.state.next_run_at e) j t h m

step_from :
    (b : Bool) (o e : Option Time) (w : Time)
    → wake_step b o e ≡ some w
    → (e ≡ some w) ⊎ ((b ≡ true) × (o ≡ some w))
unfolding wake_step
step_from b o e w h = ground arith

wake_found :
    (js : List Job) (e : Option Time) (w : Time)
    → wake_from e js ≡ some w
    → (e ≡ some w) ⊎ ((j : Job) × Memᴰ j js × Alarm j w)
unfolding wake_from
wake_found [] e w h = inl h
wake_found (j ∷ js) e w h = elim (wake_found js _ w h) [
  | inl p ↦ elim (step_from j.enabled j.state.next_run_at e w p) [
    | inl q ↦ inl q
    | inr q ↦ inr (j, Memᴰ.head refl, q)
  ]
  | inr (i, m, a) ↦ inr (i, Memᴰ.tail m, a)
]

-- `NextWakeAt` is no later than the next run of any enabled job, running ones included, and it is
-- the next run of an enabled job of the store.
pub next_wake_at-earliest :
    (s : JobStore)
    → ((k : String) (j : Job) (t : Time)
        → get s.jobs k ≡ some j
        → Alarm j t
        → (w : Time) × (next_wake_at s ≡ some w) × (w ≤ t))
      × ((w : Time) → next_wake_at s ≡ some w → (j : Job) × Memᴰ j (values s.jobs) × Alarm j w)
unfolding next_wake_at
next_wake_at-earliest s = (
  λ k j t found h. wake_bound (values s.jobs) none j t h (mem_values s.jobs k j found),
  λ w h. elim (wake_found (values s.jobs) none w h) [ inl p ↦ absurd (cc) | inr r ↦ r ],
)
