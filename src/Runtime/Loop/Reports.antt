-- ===== src/Runtime/Loop/Reports.antt =====
-- What the model reported in a turn (internal/agent/runtime.go, `RunTurn`).
use eclaire.Prelude.{
  ◌≡◌, refl, ap, ◌∙◌, inl, inr, ℕ, suc, ◌+◌, none, some, List, [], ◌∷◌, ◌++◌, arith, length,
}
use eclaire.Runtime.{
  Runtime, Setting, Action, asked_model, ran_tool, ran_hooks, read_clock, asked_human, ToolCall,
}
use eclaire.Runtime.Clearance.{visible}
use eclaire.Runtime.Calls.{execute_tool_call}
use eclaire.Runtime.Calls.Safety.{execute_tool_call-Answered, ran}
use eclaire.Runtime.Streams.{
  Usage, StreamPart, text_part, reasoning_part, input_delta, input_start, input_end, call_part,
  finish_part, error_part, Reading, Read, read_all, stream_error, read_stream,
}
use eclaire.Runtime.Turns.{Message, Turn, ModelLib}

-- An answer of the model, to a prompt and after what was asked before.
pub record Answer : Type 0 where
  pub past : List Action
  pub prompt : List Message
  pub parts : List StreamPart

abbrev pub sum_of : Usage → ℕ
sum_of u = u.input_tokens + u.output_tokens

-- The input and output tokens that a stream reports: those of its last finish part.
abbrev pub reported : List StreamPart → ℕ → ℕ
reported [] n = n
reported (text_part delta ∷ ps) n = reported ps n
reported (reasoning_part delta ∷ ps) n = reported ps n
reported (input_start id name ∷ ps) n = reported ps n
reported (input_delta delta ∷ ps) n = reported ps n
reported (input_end ∷ ps) n = reported ps n
reported (call_part tc ∷ ps) n = reported ps n
reported (finish_part usage ∷ ps) n = reported ps (sum_of usage)
reported (error_part e ∷ ps) n = reported ps n

abbrev pub used : List Answer → ℕ
used [] = 0
used (a ∷ as') = reported a.parts 0 + used as'

-- A stream that is read to its end gives what it reports, and asks nothing.
abbrev pub ReadTells : ℕ → Runtime → Read → Type 0
ReadTells n rt (read_all r rt') = (sum_of r.step_usage ≡ n) × (rt'.actions ≡ rt.actions)
ReadTells n rt (stream_error e rt') = rt'.actions ≡ rt.actions

pub read_stream-ReadTells :
    (ps : List StreamPart) (r : Reading) (rt : Runtime)
    → ReadTells (reported ps (sum_of r.step_usage)) rt (read_stream ps r rt)
unfolding read_stream
read_stream-ReadTells [] r rt = (refl, refl)
read_stream-ReadTells (text_part delta ∷ ps) r rt = read_stream-ReadTells ps _ _
read_stream-ReadTells (reasoning_part delta ∷ ps) r rt = read_stream-ReadTells ps _ rt
read_stream-ReadTells (input_start id name ∷ ps) r rt = read_stream-ReadTells ps _ rt
read_stream-ReadTells (input_delta delta ∷ ps) r rt = read_stream-ReadTells ps _ rt
read_stream-ReadTells (input_end ∷ ps) r rt = read_stream-ReadTells ps r rt
read_stream-ReadTells (call_part tc ∷ ps) r rt = read_stream-ReadTells ps _ _
read_stream-ReadTells (finish_part usage ∷ ps) r rt =
    read_stream-ReadTells ps (record r { step_usage = usage }) rt
read_stream-ReadTells (error_part none ∷ ps) r rt = read_stream-ReadTells ps r rt
read_stream-ReadTells (error_part (some e) ∷ ps) r rt = refl

-- How often the model was asked.
abbrev pub asks : List Action → ℕ
asks [] = 0
asks (a ∷ as') = elim a [ asked_model ↦ suc (asks as') | _ ↦ asks as' ]

asks-visible : (xs : List Action) → asks (visible xs) ≡ asks xs
asks-visible [] = refl
asks-visible (asked_model ∷ xs) = ap (λ (n : ℕ). suc n) (asks-visible xs)
asks-visible (ran_tool tc ∷ xs) = asks-visible xs
asks-visible (ran_hooks event name ∷ xs) = asks-visible xs
asks-visible (read_clock ∷ xs) = asks-visible xs
asks-visible (asked_human action shown input ∷ xs) = asks-visible xs

pub asks-append : (xs ys : List Action) → asks (xs ++ ys) ≡ asks xs + asks ys
asks-append [] ys = omega arith
asks-append (asked_model ∷ xs) ys = omega (arith, asks-append xs ys)
asks-append (ran_tool tc ∷ xs) ys = asks-append xs ys
asks-append (ran_hooks event name ∷ xs) ys = asks-append xs ys
asks-append (read_clock ∷ xs) ys = asks-append xs ys
asks-append (asked_human action shown input ∷ xs) ys = asks-append xs ys

pub called-Asks :
    (env : Setting) (tc : ToolCall) (rt : Runtime)
    → asks (execute_tool_call env tc rt).0.actions ≡ asks rt.actions
called-Asks env tc rt =
    let before = asks-visible rt.actions in
    let after = asks-visible (execute_tool_call env tc rt).0.actions in
    elim (execute_tool_call-Answered env tc rt).1 [
      | inl x ↦ omega (arith, before, after, ap asks x.0)
      | inr x ↦
          omega
            (arith, before, after, ap asks x.2, asks-append (visible rt.actions) (ran tc x.0 ∷ []))
    ]

-- The answers of the model to one request after the other, the last first; `n` came before.
abbrev pub Answers : ModelLib → ℕ → List Answer → Type 0
Answers model n [] = Unit
Answers model n (a ∷ as') =
    (model.stream a.past a.prompt ≡ some a.parts)
    × (asks a.past ≡ n + length as')
    × Answers model n as'

-- The tokens of a turn are those that the model reported in its answers, one for each of the requests
-- but the last `unread` ones.
pub record Spent (model : ModelLib) (n unread : ℕ) (t : Turn) : Type 0 where
  pub answers : List Answer
  pub told : Answers model n answers
  pub asked : asks t.runtime.actions ≡ n + (unread + length answers)
  pub summed : sum_of t.total_usage ≡ used answers

pub move-Spent :
    (model : ModelLib) (n unread : ℕ) (t u : Turn)
    → asks u.runtime.actions ≡ asks t.runtime.actions
    → u.total_usage ≡ t.total_usage
    → Spent model n unread t
    → Spent model n unread u
move-Spent model n unread t u same usage s = record {
  answers = s.answers;
  told = s.told;
  asked = same ∙ s.asked;
  summed = ap sum_of usage ∙ s.summed;
}
