-- ===== src/Hooks/Laws.antt =====
-- When a hook stops a tool call (internal/hook/hook.go, `RunPre`).
use eclaire.Prelude.{
  ◌≡◌, refl, sym, ap, ◌⊎◌, ◌==◌, ◌&&◌, ◌||◌, Bool, true, false, List, [], ◌∷◌, ◌++◌, String,
  if◌then◌else◌, Bool-cases, inl, inr, All, some,
}
use mathlib.Core.Path.{subst}
use eclaire.Hooks.{
  Definition, Payload, HookLib, HookResult, Executed, result, failed, PreAnswer, passed,
  denied_with, broken, deny_text, updated, hook_error, pre_step, pre_loop, run_pre, matches,
  match_tool, execute, pre_tool_use, payload_of,
}

-- A hook for the event before a tool call, whose pattern is `*`, empty or one that fits the tool.
abbrev pub concerns : HookLib → String → Definition → Bool
concerns lib tool_name d =
    (d.event == "PreToolUse")
    && ((d.matcher == "*") || ((d.matcher == "") || lib.glob d.matcher tool_name))

-- The runs of the hooks that match, in order, as if none stopped the call.
abbrev pub answers : HookLib → Payload → List Definition → List (Definition × Executed)
answers lib payload [] = []
answers lib payload (d ∷ ds) =
    if concerns lib payload.tool_name d
    then (d, execute lib d payload) ∷ answers lib payload ds
    else answers lib payload ds

abbrev pub allows : Definition × Executed → Bool
allows (d, result r) = if r.denied then false else true
allows (d, failed error) = false

-- The last input that a hook wrote, or the given one.
abbrev pub last_update : String → List (Definition × Executed) → String
last_update input [] = input
last_update input ((d, result r) ∷ es) =
    last_update (if r.updated_input == "" then input else r.updated_input) es
last_update input ((d, failed error) ∷ es) = last_update input es

-- The answer of a hook that does not let the call pass.
abbrev pub stopped : HookLib → Definition × Executed → PreAnswer
stopped lib (d, result r) =
    denied_with (if r.deny_message == "" then "Tool use denied by hook" else r.deny_message)
stopped lib (d, failed error) = broken (hook_error lib "pre-hook " d error)

-- All hooks let the call pass, or one is the first that does not and decides.
abbrev pub Decided : HookLib → List (Definition × Executed) → String → PreAnswer → Type 0
Decided lib es input answer =
    (All (λ (e : Definition × Executed). allows e ≡ true) es
      × (answer ≡ passed (last_update input es)))
    ⊎ ((before : List (Definition × Executed)) × (e : Definition × Executed) × (after : List
          (Definition × Executed))
        × (es ≡ before ++ e ∷ after)
        × All (λ (x : Definition × Executed). allows x ≡ true) before
        × (allows e ≡ false)
        × (answer ≡ stopped lib e))

first_stop :
    (lib : HookLib) (e : Definition × Executed) (es : List (Definition × Executed)) (input : String)
    (answer : PreAnswer)
    → allows e ≡ false
    → answer ≡ stopped lib e
    → Decided lib (e ∷ es) input answer
first_stop lib e es input answer h k = inr ([], e, es, refl, tt, h, k)

later :
    (lib : HookLib) (d : Definition) (r : HookResult) (es : List (Definition × Executed))
    (input : String) (answer : PreAnswer)
    → allows (d, result r) ≡ true
    → Decided lib es (updated input r.updated_input) answer
    → Decided lib ((d, result r) ∷ es) input answer
later lib d r es input answer h (inl (all, e)) = inl ((h, all), e)
later lib d r es input answer h (inr (before, e, after, split, all, not_e, k)) =
    inr ((d, result r) ∷ before, e, after, ap (◌∷◌ (d, result r)) split, (h, all), not_e, k)

step-Decided :
    (lib : HookLib) (d : Definition) (x : Executed) (es : List (Definition × Executed))
    (input : String) (rest : String → PreAnswer)
    → ((new : String) → Decided lib es new (rest new))
    → Decided lib ((d, x) ∷ es) input (pre_step lib d x input rest)
unfolding pre_step
step-Decided lib d (failed error) es input rest h = first_stop lib _ es input _ refl refl
step-Decided lib d (result r) es input rest h = elim (Bool-cases r.denied) [
  | inl e ↦
      first_stop lib (d, result r) es input _ (ap (λ (b : Bool). if b then false else true) e)
        (ap
          (λ (b : Bool).
            if b
            then denied_with (deny_text r.deny_message)
            else rest (updated input r.updated_input))
          e)
  | inr e ↦ later lib d r es input _ (ap (λ (b : Bool). if b then false else true) e) (
      subst (Decided lib es (updated input r.updated_input))
        (ap
          (λ (b : Bool).
            if b
            then denied_with (deny_text r.deny_message)
            else rest (updated input r.updated_input))
          (sym e))
        (h (updated input r.updated_input)))
]

loop-Decided :
    (lib : HookLib) (payload : Payload) (ds : List Definition) (input : String)
    → Decided lib (answers lib payload ds) input (pre_loop lib payload ds input)
unfolding pre_loop matches match_tool
loop-Decided lib payload [] input = inl (tt, refl)
loop-Decided lib payload (d ∷ ds) input = elim (Bool-cases (concerns lib payload.tool_name d)) [
  | inl e ↦ rw e (
      step-Decided lib d (execute lib d payload) (answers lib payload ds) input _
        (loop-Decided lib payload ds))
  | inr e ↦ rw e (loop-Decided lib payload ds input)
]

-- Among the hooks for the event before a tool call that match the tool, `RunPre` lets the call pass
-- exactly when all of them run without an error and deny nothing, and it then gives the last input
-- that one of them wrote. Else the first hook that denies or fails decides: a denial gives its
-- message, and a failure gives an error and no denial.
pub run_pre-Decided :
    (lib : HookLib) (hooks : List Definition) (tool_name input agent_id session_id : String)
    → Decided lib
        (answers lib (payload_of pre_tool_use tool_name input agent_id session_id) hooks)
        ""
        (run_pre lib (some hooks) tool_name input agent_id session_id)
unfolding run_pre
run_pre-Decided lib hooks tool_name input agent_id session_id =
    loop-Decided lib (payload_of pre_tool_use tool_name input agent_id session_id) hooks ""
