-- ===== src/Contexts/Compaction/Splits.antt =====
-- What a compaction keeps and removes (internal/agent/context_engine.go, `Compact`,
-- `analyzeMessages`).
use eclaire.Prelude.{
  ◌≡◌, refl, sym, ◌∙◌, ℕ, suc, ◌+◌, ◌-◌, ◌≤◌, ◌<◌, Option, none, some, List, [], ◌∷◌, ◌++◌, String,
  ◌==◌, leb, if-cases, length, take, drop, length-take, length-drop, length-keep_last,
  take-append-drop, arith,
}
use eclaire.Prelude.Text.{text_append}
use eclaire.Runtime.{ToolCall, Output}
use eclaire.Runtime.Turns.{Message, user_message, system_message, assistant, tool_message}
use eclaire.Contexts.Compaction.{
  MessageAnalysis, new_analysis, with_text, with_calls, with_call, with_results, with_request,
  analyze_one, analyze_loop, analyze_messages, CompactionResult, compact, prior_summary,
  extract_file_paths, tool_result_output_string,
}

-- The counts of the roles, and of all messages.
abbrev SameCounts : MessageAnalysis → MessageAnalysis → Type 0
SameCounts a b =
    (b.total_messages ≡ a.total_messages)
    × (b.user_count ≡ a.user_count)
    × (b.assistant_count ≡ a.assistant_count)
    × (b.tool_count ≡ a.tool_count)

abbrev pub users : List Message → ℕ
users [] = 0
users (user_message text ∷ ms) = suc (users ms)
users (system_message text ∷ ms) = users ms
users (assistant text tcs ∷ ms) = users ms
users (tool_message results ∷ ms) = users ms

abbrev pub assistants : List Message → ℕ
assistants [] = 0
assistants (user_message text ∷ ms) = assistants ms
assistants (system_message text ∷ ms) = assistants ms
assistants (assistant text tcs ∷ ms) = suc (assistants ms)
assistants (tool_message results ∷ ms) = assistants ms

abbrev pub tools : List Message → ℕ
tools [] = 0
tools (user_message text ∷ ms) = tools ms
tools (system_message text ∷ ms) = tools ms
tools (assistant text tcs ∷ ms) = tools ms
tools (tool_message results ∷ ms) = suc (tools ms)

-- What the messages add to the counts of `a`.
abbrev pub CountedFrom : MessageAnalysis → List Message → MessageAnalysis → Type 0
CountedFrom a ms b =
    (b.total_messages ≡ a.total_messages + length ms)
    × (b.user_count ≡ a.user_count + users ms)
    × (b.assistant_count ≡ a.assistant_count + assistants ms)
    × (b.tool_count ≡ a.tool_count + tools ms)

counted-same :
    (a b c : MessageAnalysis) (ms : List Message)
    → CountedFrom a ms b
    → SameCounts b c
    → CountedFrom a ms c
counted-same a b c ms h s = (s.0 ∙ h.0, s.1 ∙ h.1, s.2 ∙ h.2, s.3 ∙ h.3)

module _ (cut : String → ℕ → String) where
  text-Same : (tag text : String) (a : MessageAnalysis) → SameCounts a (with_text cut tag text a)
  unfolding with_text
  text-Same tag text a =
      if-cases (SameCounts a) (text == "") _ _ (λ e. (refl, refl, refl, refl))
        (λ e. (refl, refl, refl, refl))

  calls-Same : (tcs : List ToolCall) (a : MessageAnalysis) → SameCounts a (with_calls cut tcs a)
  unfolding with_calls with_call
  calls-Same [] a = (refl, refl, refl, refl)
  calls-Same (tc ∷ tcs) a = calls-Same tcs (with_call cut tc a)

  results-Same :
      (rs : List (String × Output)) (a : MessageAnalysis) → SameCounts a (with_results cut rs a)
  unfolding with_results
  results-Same [] a = (refl, refl, refl, refl)
  results-Same ((id, output) ∷ rs) a =
      results-Same rs
        (record a { key_files = extract_file_paths (tool_result_output_string output) a.key_files })

  request-Same : (text : String) (a : MessageAnalysis) → SameCounts a (with_request cut text a)
  request-Same text a =
      if-cases (SameCounts a) (text == "") _ _ (λ e. (refl, refl, refl, refl))
        (λ e. (refl, refl, refl, refl))

  one-CountedFrom :
      (m : Message) (a : MessageAnalysis) → CountedFrom a (m ∷ []) (analyze_one cut m a)
  unfolding analyze_one
  one-CountedFrom (user_message text) a =
      let b : MessageAnalysis = record a {
        total_messages = suc a.total_messages;
        user_count = suc a.user_count;
      } in
      let c : MessageAnalysis = with_request cut text b in
      counted-same a c (with_text cut "[user] " text c) (user_message text ∷ [])
        (counted-same a b c (user_message text ∷ [])
          (omega arith, omega arith, omega arith, omega arith) (request-Same text b))
        (text-Same "[user] " text c)
  one-CountedFrom (system_message text) a = (omega arith, omega arith, omega arith, omega arith)
  one-CountedFrom (assistant text tcs) a =
      let b : MessageAnalysis = record a {
        total_messages = suc a.total_messages;
        assistant_count = suc a.assistant_count;
      } in
      let c : MessageAnalysis = with_text cut "[assistant] " text b in
      counted-same a c (with_calls cut tcs c) (assistant text tcs ∷ [])
        (counted-same a b c (assistant text tcs ∷ [])
          (omega arith, omega arith, omega arith, omega arith) (text-Same "[assistant] " text b))
        (calls-Same tcs c)
  one-CountedFrom (tool_message results) a =
      let b : MessageAnalysis = record a {
        total_messages = suc a.total_messages;
        tool_count = suc a.tool_count;
      } in
      counted-same a b (with_results cut results b) (tool_message results ∷ [])
        (omega arith, omega arith, omega arith, omega arith) (results-Same results b)

  users-cons : (m : Message) (ms : List Message) → users (m ∷ ms) ≡ users (m ∷ []) + users ms
  users-cons (user_message text) ms = omega arith
  users-cons (system_message text) ms = omega arith
  users-cons (assistant text tcs) ms = omega arith
  users-cons (tool_message results) ms = omega arith

  assistants-cons :
      (m : Message) (ms : List Message) → assistants (m ∷ ms) ≡ assistants (m ∷ []) + assistants ms
  assistants-cons (user_message text) ms = omega arith
  assistants-cons (system_message text) ms = omega arith
  assistants-cons (assistant text tcs) ms = omega arith
  assistants-cons (tool_message results) ms = omega arith

  tools-cons : (m : Message) (ms : List Message) → tools (m ∷ ms) ≡ tools (m ∷ []) + tools ms
  tools-cons (user_message text) ms = omega arith
  tools-cons (system_message text) ms = omega arith
  tools-cons (assistant text tcs) ms = omega arith
  tools-cons (tool_message results) ms = omega arith

  loop-CountedFrom :
      (ms : List Message) (a : MessageAnalysis) → CountedFrom a ms (analyze_loop cut ms a)
  unfolding analyze_loop
  loop-CountedFrom [] a = (omega arith, omega arith, omega arith, omega arith)
  loop-CountedFrom (m ∷ ms) a =
      let h = one-CountedFrom m a in
      let l = loop-CountedFrom ms (analyze_one cut m a) in
      (
        omega (arith, h.0, l.0),
        omega (arith, h.1, l.1, users-cons m ms),
        omega (arith, h.2, l.2, assistants-cons m ms),
        omega (arith, h.3, l.3, tools-cons m ms),
      )

  -- The analysis counts all messages, and those of the user, the assistant and the tools; messages of
  -- the system are counted among all only. It keeps at most three requests of the user, 20 files and
  -- 30 entries of the timeline.
  pub analyze_messages-bounded :
      (ms : List Message)
      → let a = analyze_messages cut ms in
        (a.total_messages ≡ length ms)
        × (a.user_count ≡ users ms)
        × (a.assistant_count ≡ assistants ms)
        × (a.tool_count ≡ tools ms)
        × (length a.user_texts ≤ 3)
        × (length a.key_files ≤ 20)
        × (length a.timeline ≤ 30)
  unfolding analyze_messages
  analyze_messages-bounded ms =
      let a = analyze_loop cut ms new_analysis in
      let l = loop-CountedFrom ms new_analysis in
      (
        omega (arith, l.0),
        omega (arith, l.1),
        omega (arith, l.2),
        omega (arith, l.3),
        omega (arith, length-keep_last 3 a.user_texts),
        omega (arith, length-take 20 a.key_files),
        omega (arith, length-keep_last 30 a.timeline),
      )

  -- `messages` become the message with the summary and their last `preserve` ones.
  abbrev pub IsCut : List Message → ℕ → CompactionResult → Type 0
  IsCut messages preserve r =
      (older tail : List Message) × (messages ≡ older ++ tail)
      × (length tail ≡ preserve)
      × (1 ≤ length older)
      × (r.compacted_history
          ≡ user_message (
              text_append r.summary
                "\n\nRecent messages are preserved verbatim. Continue the conversation from where it left off.")
            ∷ tail)
      × (r.removed_count ≡ length older)

  -- A conversation with at most `preserve` messages is left alone. A longer one becomes a message of
  -- the user with the summary, followed by exactly its last `preserve` messages, unchanged; at least
  -- one message is removed, and the number of the messages removed is that of all others.
  pub compact-Split :
      (render : Option String → MessageAnalysis → String) (messages : List Message) (preserve : ℕ)
      → let o = compact cut render messages preserve in
        (length messages ≤ preserve → o ≡ none)
        × (preserve < length messages
            → (r : CompactionResult) × (o ≡ some r) × IsCut messages preserve r)
  unfolding compact
  compact-Split render messages preserve =
      let split = length messages - preserve in
      let summary =
        render (prior_summary (take split messages)) (analyze_messages cut (take split messages)) in
      if-cases
        (λ (o : Option CompactionResult).
          (length messages ≤ preserve → o ≡ none)
          × (preserve < length messages
              → (r : CompactionResult) × (o ≡ some r) × IsCut messages preserve r))
        (leb (length messages) preserve) _ _ (λ e. (λ h. refl, λ h. absurd (ground (arith, e, h))))
        (λ e. (
          λ h. absurd (ground (arith, e, h)),
          λ h. (
            record {
              summary = summary;
              compacted_history =
                  user_message (
                    text_append summary
                      "\n\nRecent messages are preserved verbatim. Continue the conversation from where it left off.")
                  ∷ drop split messages;
              removed_count = length (take split messages);
            },
            refl,
            (
              take split messages,
              drop split messages,
              sym (take-append-drop split messages),
              length-drop split messages ∙ ground (arith, e),
              omega (arith, h, length-take split messages),
              refl,
              refl,
            ),
          ),
        ))
