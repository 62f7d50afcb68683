-- ===== src/Hooks/Tests.antt =====
-- Runs of the hooks at fixed inputs (internal/hook/hook.go).
use eclaire.Prelude.{true, none, some, List, [], ◌∷◌, String, ◌==◌, if◌then◌else◌, ◌≡◌, refl}
use eclaire.Prelude.Times.{Duration}
use eclaire.Hooks.{
  Definition, Payload, HookLib, CommandRun, wrote, broke, run_pre, pre_loop, matches, match_tool,
  pre_step, execute, read_run, no_result, denied_with, pre_tool_use, payload_of,
}
use eclaire.Hooks.Laws.{answers, Decided, run_pre-Decided}

-- One command refuses, one rewrites the input, and any other fails.
abbrev shell : String → Duration → Payload → CommandRun
shell command timeout payload =
    if command == "refuse"
    then wrote "no"
    else if command == "rewrite"
    then wrote "{}"
    else broke ""

abbrev lib : HookLib
lib = record {
  quoted = λ (s : String). s;
  glob = λ (pattern name : String). pattern == name;
  parse_duration = λ (s : String). none;
  run = shell;
  unmarshal = λ (out : String). some (
      if out == "no"
      then record no_result { denied = true }
      else record no_result { updated_input = "{\"dry\":1}" });
}

abbrev hook : String → Definition
hook command = record { event = pre_tool_use; matcher = "*"; command = command; timeout = "" }

abbrev rewrite_then_refuse : List Definition
rewrite_then_refuse = hook "rewrite" ∷ hook "refuse" ∷ hook "crash" ∷ []

runs_until_denied :
    run_pre lib (some rewrite_then_refuse) "shell" "{}" "coding" ""
    ≡ denied_with "Tool use denied by hook"
unfolding run_pre pre_loop matches match_tool pre_step execute read_run
runs_until_denied = refl

run_pre-Decided_example :
    Decided lib
      (answers lib (payload_of pre_tool_use "shell" "{}" "coding" "") rewrite_then_refuse)
      ""
      (run_pre lib (some rewrite_then_refuse) "shell" "{}" "coding" "")
run_pre-Decided_example = run_pre-Decided lib rewrite_then_refuse "shell" "{}" "coding" ""
