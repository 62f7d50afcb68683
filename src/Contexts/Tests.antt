-- ===== src/Contexts/Tests.antt =====
-- Prompts and conversations at fixed inputs (internal/agent/context_engine.go).
use eclaire.Prelude.{
  ◌≡◌, refl, ℕ, ◌≤◌, ◌<◌, Option, none, some, List, [], ◌∷◌, String, length, drop,
}
use eclaire.Prelude.Sorting.{sort_by, insert_by}
use eclaire.Runtime.{ToolCall, output_text}
use eclaire.Runtime.Turns.{Message, user_message, assistant, tool_message}
use eclaire.Contexts.{PromptSection, Sources, compact_prompt, joined, keep_loop}
use mathlib.Core.List.{Perm}
use eclaire.Contexts.Budgets.{Falls, Fills, compact_prompt-Fills}
use eclaire.Contexts.Compaction.{MessageAnalysis, CompactionResult, compact, analyze_messages}
use eclaire.Contexts.Compaction.Splits.{IsCut, analyze_messages-bounded, compact-Split}

abbrev section : String → ℕ → ℕ → PromptSection
section name priority tokens = record {
  name = name;
  content = name;
  priority = priority;
  tokens = tokens;
}

-- The tools have the higher priority and do not fit; the notes below them are kept.
abbrev two_sections : List PromptSection
two_sections = section "tools" 80 30 ∷ section "notes" 50 10 ∷ []

keeps_lower : compact_prompt two_sections 20 ≡ "notes"
unfolding compact_prompt joined keep_loop sort_by insert_by
keeps_lower = refl

compact_prompt-Fills_example :
    (sorted kept : List PromptSection) × Perm sorted two_sections
    × Falls sorted
    × (compact_prompt two_sections 20 ≡ joined kept)
    × Fills 20 0 sorted kept
compact_prompt-Fills_example = compact_prompt-Fills two_sections 20

abbrev no_cut : String → ℕ → String
no_cut text n = text

abbrev call : ToolCall
call = record { id = "1"; name = "read"; input = "{}" }

abbrev one_exchange : List Message
one_exchange =
    user_message "read it"
    ∷ assistant "" (call ∷ [])
    ∷ tool_message (("1", output_text "text") ∷ [])
    ∷ []

abbrev rendered : Option String → MessageAnalysis → String
rendered prior a = "[Session summary]\n"

abbrev history_of : Option CompactionResult → List Message
history_of none = []
history_of (some r) = drop 1 r.compacted_history

-- The call of the result that is preserved is among the messages that are removed.
orphan_result :
    history_of (compact no_cut rendered one_exchange 1)
    ≡ tool_message (("1", output_text "text") ∷ []) ∷ []
unfolding compact
orphan_result = refl

analyze_messages-bounded_example :
    let a = analyze_messages no_cut one_exchange in
    (a.total_messages ≡ 3)
    × (a.user_count ≡ 1)
    × (a.assistant_count ≡ 1)
    × (a.tool_count ≡ 1)
    × (length a.user_texts ≤ 3)
    × (length a.key_files ≤ 20)
    × (length a.timeline ≤ 30)
analyze_messages-bounded_example = analyze_messages-bounded no_cut one_exchange

compact-Split_example :
    let o = compact no_cut rendered one_exchange 1 in
    (3 ≤ 1 → o ≡ none)
    × (1 < 3 → (r : CompactionResult) × (o ≡ some r) × IsCut no_cut one_exchange 1 r)
compact-Split_example = compact-Split no_cut rendered one_exchange 1

abbrev sources : Sources
sources = record {
  runtime_header = "# Runtime";
  soul = "You are Claire.";
  output_style = none;
  agents = "";
  agents_registry = none;
  task_guidance = none;
  action_guidance = none;
  user = "";
  tools = some "# Available Tools\nread";
  instruction_files = none;
  project_context = none;
  tools_doc = "";
  skills = none;
  memory = none;
  standing_orders = none;
  daily_memory = none;
  heartbeat = "";
  overrides = "";
}
