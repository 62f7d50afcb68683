-- ===== src/Providers/Attempts/Bounds.antt =====
-- The attempts of a fallback chain (internal/provider/fallback.go, `Execute`).
use eclaire.Prelude.{
  ◌≡◌, refl, ℕ, zero, suc, ◌+◌, ◌*◌, ◌≤◌, true, Option, none, some, List, [], ◌∷◌, String, if-cases,
  arith, length,
}
use eclaire.Prelude.Dict.{Dict, get, put}
use eclaire.Providers.{RouteEntry, Provider, Model, Services, language_model}
use eclaire.Providers.Attempts.{
  Execution, succeeded, interrupted, gave_up, Run, max_retries, Attempts, Attempted, attempted,
  after_failure, after_model, attempt_loop, next_entry, with_entry, execute,
}

module _ (s : Services) (a : Attempts) where
  -- Success is that of the last call.
  abbrev pub Worked : Execution → ℕ → Type 0
  Worked succeeded calls = (n : ℕ) × (m : Model) × (calls ≡ suc n) × (a.works n m ≡ true)
  Worked interrupted calls = (n : ℕ) × (calls ≡ suc n) × (a.is_cancelled n ≡ true)
  Worked gave_up calls = Unit

  abbrev Tally : ℕ → ℕ → Attempted → Type 0
  Tally calls left (attempted execution p n) = (n ≤ calls + left) × Worked execution n

  later-Tally :
      (calls left : ℕ) (x : Attempted) → Tally (suc calls) left x → Tally calls (suc left) x
  later-Tally calls left (attempted execution p n) h = (omega (arith, h.0), h.1)

  failure-Tally :
      (calls left : ℕ) (p : Provider) (rest : Attempted)
      → Tally (suc calls) left rest
      → Tally calls (suc left) (after_failure a p calls left rest)
  unfolding after_failure
  failure-Tally calls zero p rest h = later-Tally calls zero rest h
  failure-Tally calls (suc left) p rest h =
      if-cases (Tally calls (suc (suc left))) (a.is_cancelled calls) _ _
        (λ e. (omega arith, (calls, refl, e))) (λ e. later-Tally calls (suc left) rest h)

  model-Tally :
      (calls left : ℕ) (x : Provider × Option Model) (rest : Provider → Attempted)
      → ((p : Provider) → Tally (suc calls) left (rest p))
      → Tally calls (suc left) (after_model a calls left x rest)
  unfolding after_model
  model-Tally calls left (p, none) rest h = (omega arith, tt)
  model-Tally calls left (p, some m) rest h =
      if-cases (Tally calls (suc left)) (a.works calls m) _ _
        (λ e. (omega arith, (calls, m, refl, e))) (λ e. failure-Tally calls left p (rest p) (h p))

  loop-Tally :
      (left calls : ℕ) (model : String) (p : Provider)
      → Tally calls left (attempt_loop s a left calls model p)
  unfolding attempt_loop
  loop-Tally zero calls model p = (omega arith, tt)
  loop-Tally (suc left) calls model p =
      model-Tally calls left (language_model s calls model p) _ (loop-Tally left (suc calls) model)

  abbrev Total : ℕ → ℕ → Run → Type 0
  Total calls n r = (r.calls ≤ calls + 3 * n) × Worked r.execution r.calls

  later-Total :
      (calls made n : ℕ) (r : Run) → made ≤ calls + 3 → Total made n r → Total calls (suc n) r
  later-Total calls made n r le h = (omega (arith, le, h.0), h.1)

  next-Total :
      (calls n : ℕ) (id : String) (ps : Dict Provider) (x : Attempted)
      (rest : Dict Provider → ℕ → Run)
      → Tally calls 3 x
      → ((ps' : Dict Provider) (made : ℕ) → Total made n (rest ps' made))
      → Total calls (suc n) (next_entry id ps x rest)
  unfolding next_entry
  next-Total calls n id ps (attempted gave_up p made) rest h k =
      later-Total calls made n (rest (put ps id p) made) h.0 (k (put ps id p) made)
  next-Total calls n id ps (attempted succeeded p made) rest h k = (omega (arith, h.0), h.1)
  next-Total calls n id ps (attempted interrupted p made) rest h k = (omega (arith, h.0), h.1)

  entry-Total :
      (calls n : ℕ) (e : RouteEntry) (o : Option Provider) (ps : Dict Provider)
      (rest : Dict Provider → ℕ → Run)
      → ((ps' : Dict Provider) (made : ℕ) → Total made n (rest ps' made))
      → Total calls (suc n) (with_entry s a e o ps calls rest)
  unfolding with_entry
  entry-Total calls n e none ps rest k =
      later-Total calls calls n (rest ps calls) (omega arith) (k ps calls)
  entry-Total calls n e (some p) ps rest k =
      next-Total calls n e.provider ps _ rest (loop-Tally (suc max_retries) calls e.model p) k

  -- The chain calls its function at most three times for each entry. It succeeds only where its last
  -- call did, and is interrupted only where the run is cancelled behind its last call.
  pub execute-Total :
      (es : List RouteEntry) (ps : Dict Provider) (calls : ℕ)
      → let r = execute s a es ps calls in
        (r.calls ≤ calls + 3 * length es) × Worked r.execution r.calls
  unfolding execute
  execute-Total [] ps calls = (omega arith, tt)
  execute-Total (e ∷ es) ps calls =
      entry-Total calls (length es) e (get ps e.provider) ps (execute s a es)
        (λ ps' made. execute-Total es ps' made)
