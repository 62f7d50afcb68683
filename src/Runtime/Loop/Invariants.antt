-- ===== src/Runtime/Loop/Invariants.antt =====
-- How an invariant of the turns carries over to the end of a conversation's turn
-- (internal/agent/runtime.go, `RunTurn`).
use eclaire.Prelude.{◌≡◌, refl, sym, ℕ, zero, suc, ltb, if◌then◌else◌, List}
use mathlib.Core.Path.{subst}
use eclaire.Runtime.{Setting, Runtime}
use eclaire.Runtime.Turns.Laws.{max_iter-Clamped}
use eclaire.Runtime.Turns.{
  FinishReason, end_turn, max_iterations, cancelled, Turn, ModelLib, Message, max_iter,
}
use eclaire.Runtime.Loop.{
  Stepped, goes_on, stops, cancelled_in_stream, fails, Ended, summary, stream_failed, iterate,
  run_loop, after_step, new_turn, run_turn,
}

-- `P` holds where the loop goes on, `Q` where it stops, and `R` where the stream fails.
abbrev pub StepHolds :
    (Turn → Type 0) → (FinishReason → Turn → Type 0) → (Turn → Type 0) → Stepped → Type 0
StepHolds P Q R (goes_on t) = P t
StepHolds P Q R (stops reason t) = Q reason t
StepHolds P Q R (cancelled_in_stream t) = Q cancelled t
StepHolds P Q R (fails e t) = R t

abbrev pub EndHolds : (FinishReason → Turn → Type 0) → (Turn → Type 0) → Ended → Type 0
EndHolds Q R (summary s t) = Q s.finish_reason t × (s.usage ≡ t.total_usage)
EndHolds Q R (stream_failed e t) = R t

module _ (env : Setting) (model : ModelLib) (P : Turn → Type 0) (Q : FinishReason → Turn → Type 0)
    (R : Turn → Type 0) (step : (t : Turn) → P t → StepHolds P Q R (iterate env model t))
    (last : (t : Turn)
      → P t
      → Q (if ltb 0 t.total_tool_calls then max_iterations else end_turn) t) where
  after-Holds :
      (most iter : ℕ) (x : Stepped) (next : Turn → Ended)
      → StepHolds P Q R x
      → ((t : Turn) → P t → EndHolds Q R (next t))
      → EndHolds Q R (after_step most iter x next)
  unfolding after_step
  after-Holds most iter (goes_on t) next h k = k t h
  after-Holds most iter (stops reason t) next h k = (h, refl)
  after-Holds most iter (cancelled_in_stream t) next h k = (h, refl)
  after-Holds most iter (fails e t) next h k = h

  pub loop-Holds :
      (most left iter : ℕ) (t : Turn) → P t → EndHolds Q R (run_loop env model most left iter t)
  unfolding run_loop
  loop-Holds most zero iter t h = (last t h, refl)
  loop-Holds most (suc left) iter t h =
      after-Holds most iter (iterate env model t) (run_loop env model most left (suc iter))
        (step t h) (λ u k. loop-Holds most left (suc iter) u k)

  -- For a first iteration that starts without `P`.
  pub first-Holds :
      (most left iter : ℕ) (t : Turn)
      → StepHolds P Q R (iterate env model t)
      → EndHolds Q R (run_loop env model most (suc left) iter t)
  unfolding run_loop
  first-Holds most left iter t h =
      after-Holds most iter (iterate env model t) (run_loop env model most left (suc iter)) h
        (λ u k. loop-Holds most left (suc iter) u k)

  -- A turn has at least one iteration.
  pub turn-Holds :
      (rt : Runtime) (messages : List Message)
      → StepHolds P Q R (iterate env model (new_turn rt messages))
      → EndHolds Q R (run_turn env model rt messages)
  unfolding run_turn
  turn-Holds rt messages h =
      let most = max_iter env.max_iterations in
      let c = max_iter-Clamped env.max_iterations in
      subst (λ (left : ℕ). EndHolds Q R (run_loop env model most left 0 (new_turn rt messages)))
        (sym c.1) (first-Holds most c.0 0 (new_turn rt messages) h)
