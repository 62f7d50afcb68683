-- ===== src/Contexts.antt =====
-- The system prompt and its limits (internal/agent/context_engine.go, `Assemble`, `CompactPrompt`,
-- `sectionIncluded`). Sizes of texts count bytes; `cut` is content[:n], which may cut inside a
-- character. The texts of the sections come from files and from git, and are arguments.
pub mod Compaction
pub mod Budgets
mod Tests
use Prim.Native.String.{len}
use eclaire.Prelude.{
  ℕ, zero, suc, ◌+◌, ◌-◌, ◌/◌, ◌≤◌, Bool, true, false, not, ◌&&◌, ◌||◌, Option, none, some, List,
  [], ◌∷◌, ◌++◌, String, ◌==◌, ltb, leb, if◌then◌else◌,
}
use eclaire.Prelude.Text.{text_append}
use eclaire.Prelude.Sorting.{sort_by}

abbrev pub max_file_chars : ℕ
max_file_chars = 20_000

abbrev pub max_total_chars : ℕ
max_total_chars = 150_000

pub record PromptSection : Type 0 where
  pub name : String
  pub content : String
  pub priority : ℕ
  pub tokens : ℕ

pub record TokenBudget : Type 0 where
  pub context_window : ℕ
  pub system_prompt_est : ℕ
  pub history_est : ℕ
  pub reserved_output : ℕ
  pub available : ℕ

unfoldable pub should_compact : TokenBudget → Bool
should_compact b = ltb b.available b.history_est

pub record ContextPlan : Type 0 where
  pub system_prompt : String
  pub sections : List PromptSection
  pub budget : TokenBudget

unfoldable pub estimate_tokens : String → ℕ
estimate_tokens text = len text / 4

abbrev always_included : String → Bool
always_included name =
    (name == "runtime")
    || ((name == "soul")
        || ((name == "agents")
            || ((name == "tools")
                || ((name == "tools_doc") || ((name == "skills") || (name == "standing_orders"))))))

unfoldable pub section_included : String → String → Bool
section_included name mode = (mode == "") || ((mode == "full") || always_included name)

-- A section that is offered: `gate` is the name that the mode is asked about, and `ready` what else
-- must hold for it, a feature that is on or a text that is there.
pub record Offer : Type 0 where
  pub name : String
  pub gate : String
  pub priority : ℕ
  pub ready : Bool
  pub content : String

-- Where the texts come from.
pub record Sources : Type 0 where
  pub runtime_header : String
  pub soul : String
  pub output_style : Option String
  pub agents : String
  pub agents_registry : Option String
  pub task_guidance : Option String
  pub action_guidance : Option String
  pub user : String
  pub tools : Option String
  pub instruction_files : Option String
  pub project_context : Option String
  pub tools_doc : String
  pub skills : Option String
  pub memory : Option String
  pub standing_orders : Option String
  pub daily_memory : Option String
  pub heartbeat : String
  pub overrides : String

abbrev text_offer : String → ℕ → String → Offer
text_offer name priority content = record {
  name = name;
  gate = name;
  priority = priority;
  ready = true;
  content = content;
}

abbrev or_nothing : Option String → String
or_nothing none = ""
or_nothing (some s) = s

abbrev is_there : Option String → Bool
is_there none = false
is_there (some s) = true

abbrev optional : String → String → ℕ → Option String → Offer
optional name gate priority o = record {
  name = name;
  gate = gate;
  priority = priority;
  ready = is_there o;
  content = or_nothing o;
}

-- The sections in the order in which `Assemble` adds them.
unfoldable pub offers : Sources → List Offer
offers s =
    text_offer "runtime" 100 s.runtime_header
    ∷ text_offer "soul" 95 s.soul
    ∷ optional "output_style" "output_style" 92 s.output_style
    ∷ text_offer "agents" 90 s.agents
    ∷ optional "agents_registry" "agents" 89 s.agents_registry
    ∷ optional "task_guidance" "task_guidance" 88 s.task_guidance
    ∷ optional "action_guidance" "action_guidance" 86 s.action_guidance
    ∷ text_offer "user" 85 s.user
    ∷ optional "tools" "tools" 80 s.tools
    ∷ optional "instruction_files" "instruction_files" 75 s.instruction_files
    ∷ optional "project_context" "project_context" 73 s.project_context
    ∷ text_offer "tools_doc" 70 s.tools_doc
    ∷ optional "skills" "skills" 65 s.skills
    ∷ optional "memory" "memory" 60 s.memory
    ∷ optional "standing_orders" "standing_orders" 55 s.standing_orders
    ∷ optional "daily_memory" "daily_memory" 50 s.daily_memory
    ∷ text_offer "heartbeat" 45 s.heartbeat
    ∷ text_offer "overrides" 40 s.overrides
    ∷ []

abbrev separator : String
separator = "\n\n---\n\n"

unfoldable pub joined : List PromptSection → String
joined [] = ""
joined (s ∷ []) = s.content
joined (s ∷ t ∷ ss) = text_append s.content (text_append separator (joined (t ∷ ss)))

abbrev pub total_tokens : List PromptSection → ℕ
total_tokens [] = 0
total_tokens (s ∷ ss) = s.tokens + total_tokens ss

module _ (cut : String → ℕ → String) where
  abbrev pub shortened : String → String
  shortened content =
      if ltb max_file_chars (len content)
      then text_append (cut content max_file_chars) "\n[truncated at 20k chars]"
      else content

  abbrev section : Offer → PromptSection
  section o = record {
    name = o.name;
    content = shortened o.content;
    priority = o.priority;
    tokens = estimate_tokens (shortened o.content);
  }

  -- `addSection` for each offer in turn; `total` is totalChars.
  unfoldable pub add_sections : String → List Offer → ℕ → List PromptSection
  add_sections mode [] total = []
  add_sections mode (o ∷ os) total =
      let rest = add_sections mode os total in
      let more = add_sections mode os (total + len (shortened o.content)) in
      if not (o.ready && section_included o.gate mode) || (o.content == "")
      then rest
      else if ltb max_total_chars (total + len (shortened o.content))
      then rest
      else section o ∷ more

  abbrev reserved_of : ℕ → ℕ
  reserved_of window = if ltb 32_000 (window / 4) then 32_000 else window / 4

  -- The subtraction stops at 0, as the code does.
  unfoldable pub plan_of : ℕ → List PromptSection → ContextPlan
  plan_of window sections = record {
    system_prompt = joined sections;
    sections = sections;
    budget = record {
      context_window = window;
      system_prompt_est = total_tokens sections;
      history_est = 0;
      reserved_output = reserved_of window;
      available = window - total_tokens sections - reserved_of window;
    };
  }

  unfoldable pub assemble : Sources → String → ℕ → ContextPlan
  assemble s mode window =
      if mode == "none"
      then record {
        system_prompt = "You are Claire, a personal AI assistant operating inside eclaire.";
        sections = [];
        budget = record {
          context_window = window;
          system_prompt_est = 0;
          history_est = 0;
          reserved_output = 0;
          available = window;
        };
      }
      else plan_of window (add_sections mode (offers s) 0)

-- The loop of `CompactPrompt` over the sections by falling priority.
unfoldable pub keep_loop : ℕ → ℕ → List PromptSection → List PromptSection
keep_loop most total [] = []
keep_loop most total (s ∷ ss) =
    let rest = keep_loop most total ss in
    let more = keep_loop most (total + s.tokens) ss in
    if leb (total + s.tokens) most then s ∷ more else rest

abbrev pub by_priority : PromptSection → PromptSection → Bool
by_priority s t = ltb t.priority s.priority

-- The order of sections with one priority, which sort.Slice leaves open, is the given one.
unfoldable pub compact_prompt : List PromptSection → ℕ → String
compact_prompt sections most = joined (keep_loop most 0 (sort_by by_priority sections))
