-- ===== src/Inputs.antt =====
-- The inputs of tool calls: their check before a tool runs (internal/tool/validate.go,
-- `ValidateToolInput`) and what a human is shown of them (internal/agent/runtime.go,
-- `summarizeToolInput`). encoding/json and unicode.IsControl are a parameter.
pub mod Workspace
mod Tests
use Prim.Native.Char.{Char, code}
use Prim.Native.String.{len}
use eclaire.Prelude.{
  ℕ, zero, suc, Bool, true, false, not, ◌&&◌, ◌||◌, Option, none, some, List, [], ◌∷◌, String, ◌==◌,
  ltb, eqb, if◌then◌else◌,
}
use eclaire.Prelude.Text.{text_append, starts_by, codes, contains, decimal}
use eclaire.Prelude.Dict.{Dict, get}

-- A value of a map[string]any: a text, or anything else.
pub data Json : Type 0 where
  text : String → Json
  other_value : Json

-- `unmarshal` reads an object; `valid` is json.Valid.
pub record JsonLib : Type 0 where
  pub unmarshal : String → Option (Dict Json)
  pub valid : String → Bool
  pub is_control : ℕ → Bool

abbrev pub max_input_bytes : ℕ
max_input_bytes = 500_000

abbrev pub max_string_field_bytes : ℕ
max_string_field_bytes = 200_000

pub data InputError : Type 0 where
  too_large : ℕ → InputError
  invalid_json : InputError
  field_too_long : String → ℕ → InputError
  control_characters null_byte : String → InputError

abbrev dangerous : JsonLib → ℕ → Bool
dangerous lib r = not (eqb r 10) && (not (eqb r 13) && (not (eqb r 9) && lib.is_control r))

any_dangerous : JsonLib → List ℕ → Bool
any_dangerous lib [] = false
any_dangerous lib (r ∷ rs) = dangerous lib r || any_dangerous lib rs

unfoldable pub contains_dangerous_control_chars : JsonLib → String → Bool
unfolding any_dangerous
contains_dangerous_control_chars lib s = any_dangerous lib (codes s)

unfoldable pub is_path_field : String → Bool
is_path_field name =
    (name == "path")
    || ((name == "file_path")
        || ((name == "file") || ((name == "cwd") || ((name == "directory") || (name == "dir")))))

unfoldable pub check_field : JsonLib → String → Json → Option InputError
check_field lib key other_value = none
check_field lib key (text str) =
    if ltb max_string_field_bytes (len str)
    then some (field_too_long key (len str))
    else if contains_dangerous_control_chars lib str
    then some (control_characters key)
    else if is_path_field key && contains 0 (codes str)
    then some (null_byte key)
    else none

abbrev or_else : Option InputError → Option InputError → Option InputError
or_else none rest = rest
or_else (some e) rest = some e

-- In the order in which `range` meets the fields.
unfoldable pub check_fields : JsonLib → Dict Json → Option InputError
check_fields lib [] = none
check_fields lib ((key, value) ∷ fields) =
    or_else (check_field lib key value) (check_fields lib fields)

check_parsed : JsonLib → String → Option (Dict Json) → Option InputError
check_parsed lib input (some fields) = check_fields lib fields
check_parsed lib input none = if lib.valid input then none else some invalid_json

-- The tool's name is not used.
unfoldable pub validate_tool_input : JsonLib → String → Option InputError
unfolding check_parsed
validate_tool_input lib input =
    if input == ""
    then none
    else if ltb max_input_bytes (len input)
    then some (too_large (len input))
    else check_parsed lib input (lib.unmarshal input)

-- `params[key].(string)`, where it is a text that is not empty.
text_field : Option Json → Option String
text_field (some (text s)) = if s == "" then none else some s
text_field _ = none

-- The first of the keys that holds such a text.
unfoldable pub first_text : Dict Json → List String → Option String
unfolding text_field
first_text params [] = none
first_text params (k ∷ ks) =
    let rest = first_text params ks in
    elim (text_field (get params k)) [ none ↦ rest | some s ↦ some s ]

-- The path that a call names, if its input is an object that holds one.
abbrev pub target_path : Option (Dict Json) → List String → Option String
target_path none keys = none
target_path (some params) keys = first_text params keys

abbrev named : String → String → String
named label value = text_append label value

-- `cut` is cmd[:200], which may cut inside a character.
shown_command : (String → String) → Option Json → String
shown_command cut (some (text cmd)) =
    named "Command: " (if ltb 200 (len cmd) then text_append (cut cmd) "..." else cmd)
shown_command cut _ = ""

shown : String → Option Json → String
shown label (some (text s)) = named label s
shown label _ = ""

shown_path : Option Json → Option Json → String
unfolding shown
shown_path (some (text p)) other = named "Path: " p
shown_path none other = shown "Path: " other
shown_path (some other_value) other = shown "Path: " other

abbrev is_edit_tool : String → Bool
is_edit_tool name =
    (name == "write") || ((name == "edit") || ((name == "multiedit") || (name == "apply_patch")))

summarize_params : (String → String) → String → Option (Dict Json) → String
unfolding shown_command shown shown_path
summarize_params cut name none = ""
summarize_params cut name (some params) =
    if name == "shell"
    then shown_command cut (get params "command")
    else if is_edit_tool name
    then shown_path (get params "path") (get params "file_path")
    else if (name == "fetch") || (name == "download")
    then shown "URL: " (get params "url")
    else if name == "eclaire_email"
    then shown "To: " (get params "to")
    else ""

unfoldable pub summarize_tool_input : JsonLib → (String → String) → String → String → String
unfolding summarize_params
summarize_tool_input lib cut name input = summarize_params cut name (lib.unmarshal input)

abbrev sizes : ℕ → ℕ → String
sizes n most =
    text_append " ("
      (text_append (decimal n) (text_append " > " (text_append (decimal most) " bytes)")))

-- `quoted` is the verb %q, and `json_error` the error of the parse of the input.
unfoldable pub show_error : (String → String) → String → InputError → String
show_error quoted json_error (too_large n) =
    text_append "input exceeds max size" (sizes n max_input_bytes)
show_error quoted json_error invalid_json = text_append "invalid JSON input: " json_error
show_error quoted json_error (field_too_long key n) = text_append "field " (
    text_append (quoted key)
      (text_append " exceeds max string size" (sizes n max_string_field_bytes)))
show_error quoted json_error (control_characters key) =
    text_append "field " (text_append (quoted key) " contains dangerous control characters")
show_error quoted json_error (null_byte key) =
    text_append "path field " (text_append (quoted key) " contains null byte")
