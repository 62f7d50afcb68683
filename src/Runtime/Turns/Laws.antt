-- ===== src/Runtime/Turns/Laws.antt =====
-- What the loop over the tool calls of one answer leaves as it is, and the results it collects
-- (internal/agent/runtime.go, `RunTurn`).
use eclaire.Prelude.{
  ◌≡◌, refl, sym, ap, ◌∙◌, ℕ, zero, suc, ◌≤◌, ◌<◌, Bool, true, false, List, [], ◌∷◌, ◌++◌, String,
  leb, ltb, if-cases, map, arith,
}
use mathlib.Core.Path.{subst}
use eclaire.Prelude.Times.{ℤ, pos, negsuc}
use eclaire.LoopDetection.{count_of}
use eclaire.Runtime.{ToolCall, Output, ToolResult, Runtime, Setting}
use eclaire.Runtime.Calls.{execute_tool_call}
use eclaire.Runtime.Turns.{
  Turn, Calls, count_error, note_result, run_one, run_calls, max_consecutive_tool_errors,
  max_error_resets, max_iter, clamp_pos, hard_max_iterations,
}

-- The conversation and the usage are the same, and no call is forgotten.
abbrev pub KeptTurn : Turn → Turn → Type 0
KeptTurn t u =
    (u.messages ≡ t.messages)
    × (u.new_messages ≡ t.new_messages)
    × (u.total_usage ≡ t.total_usage)
    × (t.total_tool_calls ≤ u.total_tool_calls)

abbrev pub call_ids : List ToolCall → List String
call_ids tcs = map (λ (tc : ToolCall). tc.id) tcs

abbrev pub result_ids : List (String × Output) → List String
result_ids rs = map (λ (r : String × Output). r.0) rs

count-Kept :
    (tc : ToolCall) (b : Bool) (t : Turn)
    → let u = (count_error tc b t).0 in KeptTurn t u × (u.runtime ≡ t.runtime)
unfolding count_error
count-Kept tc false t = ((refl, refl, refl, omega arith), refl)
count-Kept tc true t =
    let P = λ (x : Turn × Bool). KeptTurn t x.0 × (x.0.runtime ≡ t.runtime) in
    if-cases P (leb max_consecutive_tool_errors (suc (count_of t.consecutive tc.name))) _ _
      (λ e.
        if-cases P (leb max_error_resets (suc t.total_error_resets)) _ _
          (λ f. ((refl, refl, refl, omega arith), refl))
          (λ f. ((refl, refl, refl, omega arith), refl)))
      (λ e. ((refl, refl, refl, omega arith), refl))

-- What one call adds to the results.
abbrev Added : ToolCall → Runtime → Calls → Calls → Type 0
Added tc rt c c' =
    KeptTurn c.turn c'.turn
    × (result_ids c'.parts ≡ result_ids c.parts ++ tc.id ∷ [])
    × (c'.turn.runtime ≡ rt)
    × (c.turn.total_tool_calls < c'.turn.total_tool_calls)

map-snoc :
    (rs : List (String × Output)) (r : String × Output)
    → result_ids (rs ++ r ∷ []) ≡ result_ids rs ++ r.0 ∷ []
map-snoc [] r = refl
map-snoc (x ∷ rs) r = ap (◌∷◌ x.0) (map-snoc rs r)

note-Added :
    (tc : ToolCall) (rt : Runtime) (r : ToolResult) (c : Calls)
    → Added tc rt c (note_result tc (rt, r) c).0
unfolding note_result
note-Added tc rt r c =
    let k =
      count-Kept tc r.is_error
        (record c.turn { runtime = rt; total_tool_calls = suc c.turn.total_tool_calls }) in
    (
      (k.0.0, k.0.1, k.0.2, omega (arith, k.0.3)),
      map-snoc c.parts (tc.id, r.output),
      k.1,
      omega (arith, k.0.3),
    )

append_assoc {ℓ} : {A : Type ℓ} (xs ys zs : List A) → (xs ++ ys) ++ zs ≡ xs ++ (ys ++ zs)
append_assoc [] ys zs = refl
append_assoc (x ∷ xs) ys zs = ap (◌∷◌ x) (append_assoc xs ys zs)

module _ (env : Setting) where
  -- The results answer the calls in order, all of them unless the loop was broken off.
  abbrev pub Collected : List ToolCall → Calls → Calls × Bool → Type 0
  Collected tcs c x =
      KeptTurn c.turn x.0.turn
      × ((rest : List String) × (result_ids x.0.parts ++ rest ≡ result_ids c.parts ++ call_ids tcs)
          × (x.1 ≡ false → rest ≡ []))

  run_one-Added :
      (tc : ToolCall) (c : Calls)
      → Added tc (execute_tool_call env tc c.turn.runtime).0 c (run_one env tc c).0
  unfolding run_one
  run_one-Added tc c =
      note-Added tc (execute_tool_call env tc c.turn.runtime).0
        (execute_tool_call env tc c.turn.runtime).1 c

  kept-kept : (t u v : Turn) → KeptTurn t u → KeptTurn u v → KeptTurn t v
  kept-kept t u v a b = (b.0 ∙ a.0, b.1 ∙ a.1, b.2 ∙ a.2, omega (arith, a.3, b.3))

  pub run_calls-Collected :
      (tcs : List ToolCall) (c : Calls) → Collected tcs c (run_calls env tcs c)
  unfolding run_calls
  run_calls-Collected [] c = ((refl, refl, refl, omega arith), ([], refl, λ e. refl))
  run_calls-Collected (tc ∷ tcs) c =
      let c' = (run_one env tc c).0 in
      let a = run_one-Added tc c in
      let later = run_calls-Collected tcs c' in
      let joined =
        ap (λ (ids : List String). ids ++ call_ids tcs) a.1
        ∙ append_assoc (result_ids c.parts) (tc.id ∷ []) (call_ids tcs) in
      if-cases (Collected (tc ∷ tcs) c) (run_one env tc c).1 _ _
        (λ e. (a.0, (call_ids tcs, joined, λ f. cc)))
        (λ e. (
          kept-kept c.turn c'.turn (run_calls env tcs c').0.turn a.0 later.0,
          (later.1.0, later.1.1 ∙ joined, later.1.2),
        ))

  -- At least the first call is counted.
  pub run_calls-Counted :
      (tc : ToolCall) (tcs : List ToolCall) (c : Calls)
      → c.turn.total_tool_calls < (run_calls env (tc ∷ tcs) c).0.turn.total_tool_calls
  unfolding run_calls
  run_calls-Counted tc tcs c =
      let a = run_one-Added tc c in
      let k = run_calls-Collected tcs (run_one env tc c).0 in
      if-cases (λ (x : Calls × Bool). c.turn.total_tool_calls < x.0.turn.total_tool_calls)
        (run_one env tc c).1 _ _ (λ e. a.3) (λ e. omega (arith, a.3, k.0.3))

  -- What one call keeps of the runtime, all of them keep.
  pub run_calls-keep :
      (P : Runtime → Type 0)
      (keep : (tc : ToolCall) (rt : Runtime) → P rt → P (execute_tool_call env tc rt).0)
      (tcs : List ToolCall) (c : Calls)
      → P c.turn.runtime
      → P (run_calls env tcs c).0.turn.runtime
  unfolding run_calls
  run_calls-keep P keep [] c h = h
  run_calls-keep P keep (tc ∷ tcs) c h =
      let next = subst P (sym (run_one-Added tc c).2) (keep tc c.turn.runtime h) in
      if-cases (λ (x : Calls × Bool). P x.0.turn.runtime) (run_one env tc c).1 _ _ (λ e. next)
        (λ e. run_calls-keep P keep tcs (run_one env tc c).0 next)

-- The clamp leaves at least one iteration, and at most `HardMaxIterations`.
pub max_iter-Clamped : (m : ℤ) → (n : ℕ) × (max_iter m ≡ suc n) × (suc n ≤ hard_max_iterations)
unfolding max_iter clamp_pos
max_iter-Clamped (negsuc n) = (199, refl, omega arith)
max_iter-Clamped (pos zero) = (199, refl, omega arith)
max_iter-Clamped (pos (suc n)) =
    if-cases (λ (k : ℕ). (n : ℕ) × (k ≡ suc n) × (suc n ≤ hard_max_iterations))
      (ltb hard_max_iterations (suc n)) _ _ (λ e. (199, refl, omega arith))
      (λ e. (n, refl, ground (arith, e)))
