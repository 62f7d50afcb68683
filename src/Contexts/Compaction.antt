-- ===== src/Contexts/Compaction.antt =====
-- The compaction of a conversation (internal/agent/context_engine.go, `Compact`, `analyzeMessages`,
-- `extractFilePaths`). The text of the summary is rendered by an argument, from the earlier summary and
-- the analysis; `cut` is text[:n]. The sets of names and files are lists without repetition.
pub mod Splits
use Prim.Native.String.{len}
use eclaire.Prelude.{
  ℕ, zero, suc, ◌+◌, ◌-◌, ◌≤◌, Bool, true, false, not, ◌&&◌, ◌||◌, Option, none, some, List, [],
  ◌∷◌, ◌++◌, String, ◌==◌, ltb, leb, eqb, if◌then◌else◌, length, take, drop, keep_last,
}
use eclaire.Prelude.Text.{Chars, codes, same, fields, contains, text_append, starts_by}
use eclaire.Runtime.{ToolCall, Output, output_text, output_error}
use eclaire.Runtime.Turns.{Message, user_message, system_message, assistant, tool_message}

pub record MessageAnalysis : Type 0 where
  pub total_messages : ℕ
  pub user_count : ℕ
  pub assistant_count : ℕ
  pub tool_count : ℕ
  pub tool_names : List String
  pub user_texts : List String
  pub key_files : List Chars
  pub timeline : List String
  pub pending_work : String

abbrev pub new_analysis : MessageAnalysis
new_analysis = record {
  total_messages = 0;
  user_count = 0;
  assistant_count = 0;
  tool_count = 0;
  tool_names = [];
  user_texts = [];
  key_files = [];
  timeline = [];
  pending_work = "";
}

-- The bytes of a text in UTF-8.
abbrev byte_count : ℕ → ℕ
byte_count c = if ltb c 128 then 1 else if ltb c 2048 then 2 else if ltb c 65536 then 3 else 4

abbrev bytes : Chars → ℕ
bytes [] = 0
bytes (c ∷ s) = byte_count c + bytes s

abbrev trailing : Chars
trailing = codes ".,;:!?\"')"

abbrev is_empty : Chars → Bool
is_empty [] = true
is_empty (c ∷ s) = false

-- strings.TrimRight with the signs above
trim_right : Chars → Chars
trim_right [] = []
trim_right (c ∷ s) =
    let rest = trim_right s in if is_empty rest && contains c trailing then [] else c ∷ rest

abbrev starts_http : Chars → Bool
starts_http s = same (take 4 s) (codes "http")

abbrev has_file : Chars → List Chars → Bool
has_file f [] = false
has_file f (g ∷ gs) = same g f || has_file f gs

abbrev looks_like_path : Chars → Bool
looks_like_path w = contains 47 w && (not (starts_http w) && (ltb 2 (bytes w) && ltb (bytes w) 200))

add_paths : List Chars → List Chars → List Chars
unfolding trim_right
add_paths [] files = files
add_paths (w ∷ ws) files =
    let f = trim_right w in
    let more = add_paths ws (files ++ f ∷ []) in
    let rest = add_paths ws files in
    if looks_like_path w && not (has_file f files) then more else rest

unfoldable pub extract_file_paths : String → List Chars → List Chars
unfolding add_paths
extract_file_paths text files = add_paths (fields (codes text)) files

abbrev tool_result_output_string : Output → String
tool_result_output_string (output_text s) = s
tool_result_output_string (output_error s) = text_append "Error: " s

abbrev has_name : String → List String → Bool
has_name n [] = false
has_name n (m ∷ ms) = (m == n) || has_name n ms

module _ (cut : String → ℕ → String) where
  preview : String → String → String
  preview tag text = text_append tag (if ltb 120 (len text) then cut text 120 else text)

  with_text : String → String → MessageAnalysis → MessageAnalysis
  unfolding preview
  with_text tag text a =
      if text == "" then a else record a { timeline = a.timeline ++ preview tag text ∷ [] }

  abbrev call_preview : ToolCall → String
  call_preview tc =
      if not (tc.input == "") && ltb (len tc.input) 80
      then text_append tc.name (text_append " " tc.input)
      else tc.name

  with_call : ToolCall → MessageAnalysis → MessageAnalysis
  with_call tc a = record a {
    tool_names =
        if has_name tc.name a.tool_names then a.tool_names else a.tool_names ++ tc.name ∷ [];
    timeline = a.timeline ++ text_append "[tool_call] " (call_preview tc) ∷ [];
  }

  with_calls : List ToolCall → MessageAnalysis → MessageAnalysis
  unfolding with_call
  with_calls [] a = a
  with_calls (tc ∷ tcs) a = with_calls tcs (with_call tc a)

  with_results : List (String × Output) → MessageAnalysis → MessageAnalysis
  with_results [] a = a
  with_results ((id, output) ∷ rs) a =
      with_results rs
        (record a { key_files = extract_file_paths (tool_result_output_string output) a.key_files })

  abbrev with_request : String → MessageAnalysis → MessageAnalysis
  with_request text a =
      if text == "" then a else record a { user_texts = a.user_texts ++ text ∷ [] }

  -- One message; the text of an assistant's message stands before its calls.
  unfoldable pub analyze_one : Message → MessageAnalysis → MessageAnalysis
  unfolding with_text with_calls with_results
  analyze_one (user_message text) a = with_text "[user] " text (
      with_request text
        (record a { total_messages = suc a.total_messages; user_count = suc a.user_count }))
  analyze_one (system_message text) a = record a { total_messages = suc a.total_messages }
  analyze_one (assistant text tcs) a = with_calls tcs (
      with_text "[assistant] " text (record a {
        total_messages = suc a.total_messages;
        assistant_count = suc a.assistant_count;
      }))
  analyze_one (tool_message results) a =
      with_results results
        (record a { total_messages = suc a.total_messages; tool_count = suc a.tool_count })

  unfoldable pub analyze_loop : List Message → MessageAnalysis → MessageAnalysis
  analyze_loop [] a = a
  analyze_loop (m ∷ ms) a = analyze_loop ms (analyze_one m a)

  -- What the last message of the assistant says, of at most 300 bytes.
  unfoldable pub pending_loop : List Message → String → String
  pending_loop [] found = found
  pending_loop (user_message text ∷ ms) found = pending_loop ms found
  pending_loop (system_message text ∷ ms) found = pending_loop ms found
  pending_loop (assistant text tcs ∷ ms) found =
      pending_loop ms (if ltb 300 (len text) then cut text 300 else text)
  pending_loop (tool_message results ∷ ms) found = pending_loop ms found

  -- The last requests, entries and some of the files are kept.
  unfoldable pub analyze_messages : List Message → MessageAnalysis
  analyze_messages ms =
      let a = analyze_loop ms new_analysis in
      record a {
        user_texts = keep_last 3 a.user_texts;
        key_files = take 20 a.key_files;
        timeline = keep_last 30 a.timeline;
        pending_work = pending_loop ms "";
      }

abbrev is_summary : String → Bool
is_summary text = starts_by "[Session summary]" text

text_summary : String → Option String
text_summary text = if is_summary text then some text else none

-- The summary of an earlier compaction, in the first of the older messages.
prior_summary : List Message → Option String
unfolding text_summary
prior_summary [] = none
prior_summary (user_message text ∷ ms) = text_summary text
prior_summary (system_message text ∷ ms) = text_summary text
prior_summary (assistant text tcs ∷ ms) = text_summary text
prior_summary (tool_message results ∷ ms) = none

pub record CompactionResult : Type 0 where
  pub summary : String
  pub compacted_history : List Message
  pub removed_count : ℕ

-- `render` is the text of the summary.
unfoldable pub compact :
    (String → ℕ → String)
    → (Option String → MessageAnalysis → String)
    → List Message
    → ℕ
    → Option CompactionResult
unfolding prior_summary
compact cut render messages preserve =
    let split = length messages - preserve in
    let older = take split messages in
    let summary = render (prior_summary older) (analyze_messages cut older) in
    if leb (length messages) preserve
    then none
    else some (record {
      summary = summary;
      compacted_history =
          user_message (
            text_append summary
              "\n\nRecent messages are preserved verbatim. Continue the conversation from where it left off.")
          ∷ drop split messages;
      removed_count = length older;
    })
