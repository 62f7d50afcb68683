-- ===== src/Runtime/Loop/Replies.antt =====
-- The conversation that a turn leaves (internal/agent/runtime.go, `RunTurn`).
use eclaire.Prelude.{
  ◌≡◌, refl, sym, ap, ◌∙◌, ◌⊎◌, inl, inr, ℕ, suc, ◌<◌, Bool, true, false, not, ◌||◌, List, [], ◌∷◌,
  ◌++◌, String, ◌==◌, ltb, if◌then◌else◌, if-cases, append_last, arith, length, lt→ltb,
}
use mathlib.Core.Path.{subst}
use eclaire.Runtime.{ToolCall, Output, Runtime, Setting}
use eclaire.Runtime.Streams.{Reading}
use eclaire.Runtime.Turns.{
  FinishReason, end_turn, max_iterations, loop_detected, consecutive_errors, Message, assistant,
  tool_message, Turn, ModelLib, Calls,
}
use eclaire.Runtime.Turns.Laws.{call_ids, result_ids, run_calls-Collected, run_calls-Counted}
use eclaire.Runtime.Loop.{
  iterate, note_answer, add_step, with_answer, new_turn, run_turn, has_parts,
}
use eclaire.Runtime.Loop.Invariants.{StepHolds, EndHolds, turn-Holds}
use eclaire.Runtime.Loop.Rounds.{
  started, after_tools, iterate-Holds, with_answer-Holds, with_calls-Holds,
}

abbrev pub round : String → List ToolCall → List (String × Output) → List Message
round text tcs results = assistant text tcs ∷ tool_message results ∷ []

-- Messages of the assistant, each with tool calls and followed by their results in the same order.
pub data IsReplied : List Message → Type 0 where
  nothing : IsReplied []
  replied :
      (before : List Message) (text : String) (tc : ToolCall) (tcs : List ToolCall)
      (results : List (String × Output))
      → IsReplied before
      → result_ids results ≡ call_ids (tc ∷ tcs)
      → IsReplied (before ++ round text (tc ∷ tcs) results)

-- What the new messages of a turn are, by the reason for which it ended.
abbrev pub Replied : FinishReason → List Message → Type 0
Replied end_turn ms =
    (before : List Message) × IsReplied before
    × ((ms ≡ before) ⊎ ((text : String) × (ms ≡ before ++ assistant text [] ∷ [])))
Replied consecutive_errors ms =
    (before : List Message) × (text : String) × (tcs : List ToolCall) × (results : List
      (String × Output))
    × (rest : List String) × IsReplied before
    × (ms ≡ before ++ round text tcs results)
    × (result_ids results ++ rest ≡ call_ids tcs)
Replied _ ms = IsReplied ms

module _ (env : Setting) (model : ModelLib) (given : List Message) where
  abbrev Asks : Turn → Type 0
  Asks t = t.messages ≡ given ++ t.new_messages

  abbrev Open : Turn → Type 0
  Open t = IsReplied t.new_messages × Asks t

  abbrev Going : Turn → Type 0
  Going t = Open t × (ltb 0 t.total_tool_calls ≡ true)

  abbrev Closed : FinishReason → Turn → Type 0
  Closed reason t = Replied reason t.new_messages × Asks t

  append_assoc : (xs ys zs : List Message) → (xs ++ ys) ++ zs ≡ xs ++ (ys ++ zs)
  append_assoc [] ys zs = refl
  append_assoc (x ∷ xs) ys zs = ap (◌∷◌ x) (append_assoc xs ys zs)

  -- The assistant's message is added where it has parts.
  noted :
      (r : Reading) (t : Turn)
      → let u = note_answer r t in
        (u.total_tool_calls ≡ t.total_tool_calls)
        × (((has_parts r ≡ true)
              × (u.new_messages ≡ t.new_messages ++ assistant r.text_content r.pending ∷ [])
              × (u.messages ≡ t.messages ++ assistant r.text_content r.pending ∷ []))
            ⊎ ((has_parts r ≡ false)
                × (u.new_messages ≡ t.new_messages)
                × (u.messages ≡ t.messages)))
  unfolding note_answer
  noted r t =
      if-cases
        (λ (u : Turn).
          (u.total_tool_calls ≡ t.total_tool_calls)
          × (((has_parts r ≡ true)
                × (u.new_messages ≡ t.new_messages ++ assistant r.text_content r.pending ∷ [])
                × (u.messages ≡ t.messages ++ assistant r.text_content r.pending ∷ []))
              ⊎ ((has_parts r ≡ false)
                  × (u.new_messages ≡ t.new_messages)
                  × (u.messages ≡ t.messages))))
        (has_parts r) _ _ (λ e. (refl, inl (e, refl, refl))) (λ e. (refl, inr (e, refl, refl)))

  asks-snoc :
      (ms news : List Message) (m : Message)
      → ms ≡ given ++ news
      → ms ++ m ∷ [] ≡ given ++ (news ++ m ∷ [])
  asks-snoc ms news m h = append_last m h ∙ append_assoc given news (m ∷ [])

  answer-Closed :
      (r : Reading) (t : Turn) → Open t → r.pending ≡ [] → Closed end_turn (note_answer r t)
  answer-Closed r t h e = elim (noted r t).1 [
    | inl x ↦ (
      (
        t.new_messages,
        h.0,
        inr (
          r.text_content,
          x.1 ∙ ap (λ (tcs : List ToolCall). t.new_messages ++ assistant r.text_content tcs ∷ []) e,
        ),
      ),
      x.2
          ∙ asks-snoc t.messages t.new_messages _ h.1
          ∙ ap (λ (ms : List Message). given ++ ms) (sym x.1),
    )
    | inr x ↦ (
      (t.new_messages, h.0, inl x.1),
      x.2 ∙ h.1 ∙ ap (λ (ms : List Message). given ++ ms) (sym x.1),
    )
  ]

  or-true : (b c : Bool) → c ≡ true → b || c ≡ true
  or-true true c e = refl
  or-true false c e = e

  calls_have_parts :
      (r : Reading) (tc : ToolCall) (tcs : List ToolCall)
      → r.pending ≡ tc ∷ tcs
      → has_parts r ≡ true
  calls_have_parts r tc tcs e =
      or-true (not (r.text_content == "")) (ltb 0 (length r.pending)) (
        ap (λ (xs : List ToolCall). ltb 0 (length xs)) e
        ∙ lt→ltb 0 (suc (length tcs)) (omega arith))

  -- The new messages grow by the answer and the results, and the prompt with them.
  round-Grown :
      (r : Reading) (tc : ToolCall) (tcs : List ToolCall) (t : Turn)
      → Open t
      → r.pending ≡ tc ∷ tcs
      → let c = (started env (tc ∷ tcs) (note_answer r t)).0 in
        ((after_tools c).new_messages ≡ t.new_messages ++ round r.text_content (tc ∷ tcs) c.parts)
        × Asks (after_tools c)
  round-Grown r tc tcs t h e =
      let c = (started env (tc ∷ tcs) (note_answer r t)).0 in
      let k =
        (run_calls-Collected env (tc ∷ tcs)
          (record { parts = []; result_map = []; turn = note_answer r t })).0 in
      elim (noted r t).1 [
        | inl x ↦ (
          append_last (tool_message c.parts) (
                k.1
                ∙ x.1
                ∙ ap (λ (xs : List ToolCall). t.new_messages ++ assistant r.text_content xs ∷ []) e)
              ∙ append_assoc t.new_messages (assistant r.text_content (tc ∷ tcs) ∷ []) _,
          asks-snoc c.turn.messages c.turn.new_messages (tool_message c.parts) (
              k.0
              ∙ x.2
              ∙ asks-snoc t.messages t.new_messages _ h.1
              ∙ ap (λ (ms : List Message). given ++ ms) (sym (k.1 ∙ x.1))),
        )
        | inr x ↦ absurd (cc (x.0, calls_have_parts r tc tcs e))
      ]

  append_nil {ℓ} : {A : Type ℓ} (xs : List A) → xs ++ [] ≡ xs
  append_nil [] = refl
  append_nil (x ∷ xs) = ap (◌∷◌ x) (append_nil xs)

  counted_first : (m n : ℕ) → m < n → ltb 0 n ≡ true
  counted_first m n h = lt→ltb 0 n (omega (arith, h))

  round-Holds :
      (r : Reading) (tc : ToolCall) (tcs : List ToolCall) (t : Turn)
      → Open t
      → r.pending ≡ tc ∷ tcs
      → let x = started env (tc ∷ tcs) (note_answer r t) in
        (x.1 ≡ true → Closed consecutive_errors (after_tools x.0))
        × (x.1 ≡ false
            → (history : List String)
            → Going (record (after_tools x.0) { loop_history = history })
              × Closed loop_detected (record (after_tools x.0) { loop_history = history }))
  round-Holds r tc tcs t h e =
      let start : Calls = record { parts = []; result_map = []; turn = note_answer r t } in
      let c = (started env (tc ∷ tcs) (note_answer r t)).0 in
      let grown = round-Grown r tc tcs t h e in
      let k = (run_calls-Collected env (tc ∷ tcs) start).1 in
      let all = λ (f : (started env (tc ∷ tcs) (note_answer r t)).1 ≡ false).
        subst IsReplied (sym grown.0) (
          replied t.new_messages r.text_content tc tcs c.parts h.0 (
            sym (append_nil (result_ids c.parts))
            ∙ ap (λ (ids : List String). result_ids c.parts ++ ids) (sym (k.2 f))
            ∙ k.1)) in
      (
        λ f. ((t.new_messages, r.text_content, tc ∷ tcs, c.parts, k.0, h.0, grown.0, k.1), grown.1),
        λ f history. (
          ((all f, grown.1), counted_first _ _ (run_calls-Counted env tc tcs start)),
          (all f, grown.1),
        ),
      )

  answered-Holds :
      (r : Reading) (t : Turn) → Open t → StepHolds Going Closed Open (with_answer env model r t)
  answered-Holds r t h =
      with_answer-Holds env model Going Closed Open r t (λ over. h)
        (λ under. (
          h,
          with_calls-Holds env model Going Closed Open r.pending (note_answer r t)
              (answer-Closed r t h) (λ tc tcs e. round-Holds r tc tcs t h e),
        ))

  step-Holds : (t : Turn) → Open t → StepHolds Going Closed Open (iterate env model t)
  unfolding add_step
  step-Holds t h =
      iterate-Holds env model Going Closed Open t (λ rt. h) (λ rt. h)
        (λ r rt. answered-Holds r (add_step r rt t) h)

  last-Closed :
      (t : Turn)
      → Going t
      → Closed (if ltb 0 t.total_tool_calls then max_iterations else end_turn) t
  last-Closed t h =
      if-cases (λ (reason : FinishReason). Closed reason t) (ltb 0 t.total_tool_calls) _ _
        (λ e. h.0) (λ e. absurd (cc (e, h.1)))

module _ (env : Setting) (model : ModelLib) where
  -- All calls of the assistant in the messages that `RunTurn` returns are answered, in order and
  -- directly behind them, unless the turn ended for errors in a row, where the results of the last
  -- calls may be cut short; at an end by the model a message without calls may follow. The prompt is
  -- always the given messages followed by the new ones, and the usage that of the turn.
  pub run_turn-Replied :
      (rt : Runtime) (messages : List Message)
      → EndHolds
          (λ (reason : FinishReason) (t : Turn).
            Replied reason t.new_messages × (t.messages ≡ messages ++ t.new_messages))
          (λ (t : Turn). IsReplied t.new_messages × (t.messages ≡ messages ++ t.new_messages))
          (run_turn env model rt messages)
  run_turn-Replied rt messages =
      turn-Holds env model (Going env model messages) (Closed env model messages)
        (Open env model messages) (λ t h. step-Holds env model messages t h.0)
        (last-Closed env model messages) rt messages
        (step-Holds env model messages (new_turn rt messages)
          (nothing, sym (append_nil env model messages messages)))
