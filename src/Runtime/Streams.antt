-- ===== src/Runtime/Streams.antt =====
-- The answer of the model, as a stream of parts (internal/agent/runtime.go, `RunTurn`, the loop over
-- the stream). The costs, which are floating-point numbers, are left out. Counts of tokens are
-- natural numbers that do not overflow.
use eclaire.Prelude.{
  ℕ, ◌+◌, ◌&&◌, Option, none, some, List, [], ◌∷◌, ◌++◌, String, ◌==◌, if◌then◌else◌,
}
use eclaire.Prelude.Text.{text_append}
use eclaire.Runtime.{ToolCall, text_delta, tool_call, Runtime, emit}

pub record Usage : Type 0 where
  pub input_tokens : ℕ
  pub output_tokens : ℕ
  pub total_tokens : ℕ
  pub reasoning_tokens : ℕ
  pub cache_creation_tokens : ℕ
  pub cache_read_tokens : ℕ

abbrev pub no_usage : Usage
no_usage = record {
  input_tokens = 0;
  output_tokens = 0;
  total_tokens = 0;
  reasoning_tokens = 0;
  cache_creation_tokens = 0;
  cache_read_tokens = 0;
}

abbrev pub add_usage : Usage → Usage → Usage
add_usage u v = record {
  input_tokens = u.input_tokens + v.input_tokens;
  output_tokens = u.output_tokens + v.output_tokens;
  total_tokens = u.total_tokens + v.total_tokens;
  reasoning_tokens = u.reasoning_tokens + v.reasoning_tokens;
  cache_creation_tokens = u.cache_creation_tokens + v.cache_creation_tokens;
  cache_read_tokens = u.cache_read_tokens + v.cache_read_tokens;
}

-- An error part may hold no error.
pub data StreamPart : Type 0 where
  text_part reasoning_part input_delta : String → StreamPart
  input_start : String → String → StreamPart
  input_end : StreamPart
  call_part : ToolCall → StreamPart
  finish_part : Usage → StreamPart
  error_part : Option String → StreamPart

-- The variables of the loop over the parts.
pub record Reading : Type 0 where
  pub text_content : String
  pub reasoning_content : String
  pub pending : List ToolCall
  pub step_usage : Usage
  pub current_id : String
  pub current_name : String
  pub current_input : String

abbrev pub new_reading : Reading
new_reading = record {
  text_content = "";
  reasoning_content = "";
  pending = [];
  step_usage = no_usage;
  current_id = "";
  current_name = "";
  current_input = "";
}

-- What the call gets from the parts before it where it lacks its input or its name.
unfoldable pub completed_call : ToolCall → Reading → ToolCall
completed_call tc r = record {
  id = tc.id;
  name = if tc.name == "" then r.current_name else tc.name;
  input = if (tc.input == "") && (r.current_id == tc.id) then r.current_input else tc.input;
}

pub data Read : Type 0 where
  read_all : Reading → Runtime → Read
  stream_error : String → Runtime → Read

unfoldable pub read_stream : List StreamPart → Reading → Runtime → Read
read_stream [] r rt = read_all r rt
read_stream (text_part delta ∷ ps) r rt =
    read_stream ps (record r { text_content = text_append r.text_content delta })
      (emit (text_delta delta) rt)
read_stream (reasoning_part delta ∷ ps) r rt =
    read_stream ps (record r { reasoning_content = text_append r.reasoning_content delta }) rt
read_stream (input_start id name ∷ ps) r rt =
    read_stream ps (record r { current_id = id; current_name = name; current_input = "" }) rt
read_stream (input_delta delta ∷ ps) r rt =
    read_stream ps (record r { current_input = text_append r.current_input delta }) rt
read_stream (input_end ∷ ps) r rt = read_stream ps r rt
read_stream (call_part tc ∷ ps) r rt =
    read_stream ps (record r { pending = r.pending ++ completed_call tc r ∷ [] })
      (emit (tool_call (completed_call tc r)) rt)
read_stream (finish_part usage ∷ ps) r rt = read_stream ps (record r { step_usage = usage }) rt
read_stream (error_part none ∷ ps) r rt = read_stream ps r rt
read_stream (error_part (some error) ∷ ps) r rt = stream_error error rt
