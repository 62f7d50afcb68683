-- ===== src/Permissions/Patterns.antt =====
-- The pattern of a shell command (internal/tool/permission.go, `ExtractShellPattern`,
-- `ExtractCommandPattern` and what they call). The parser of shell programs is a parameter: its
-- syntax trees are those of mvdan.cc/sh as far as the code tells them apart, and a missing command
-- is `no_command`. `shell -c` parses an inner text, so
-- the nesting is bounded by fuel, which is the length of the text.
pub mod Chains
mod Tests
use Prim.Native.String.{len}
use eclaire.Prelude.{
  ℕ, zero, suc, Bool, true, false, not, ◌&&◌, ◌||◌, Option, none, some, List, [], ◌∷◌, ◌++◌, String,
  ◌==◌, if◌then◌else◌, ◌≡◌, ◌≢◌, refl, ap, ◌∙◌, inl, inr, Bool-cases, arith, eq_iff, eq_refl,
}
use eclaire.Prelude.Text.{text_append, starts_by}
use eclaire.Prelude.Dict.{Dict, get}
use eclaire.Inputs.{Json, text, other_value, JsonLib}

pub data QuotedPart : Type 0 where
  quoted_lit : String → QuotedPart
  expansion : QuotedPart

pub data WordPart : Type 0 where
  lit sgl_quoted : String → WordPart
  dbl_quoted : List QuotedPart → WordPart
  other_part : WordPart

abbrev pub Word : Type 0
Word = List WordPart

mutual
  pub data Stmt : Type 0 where
    call : List Word → Stmt
    binary_cmd : Stmt → Stmt → Stmt
    subshell block : Stmts → Stmt
    other_command no_command : Stmt

  pub data Stmts : Type 0 where
    no_stmts : Stmts
    stmts : Stmt → Stmts → Stmts

-- `parse` fails on a text that is no program; `base` is filepath.Base, and `subcommands` the
-- variable `subcommandBinaries`.
pub record ShellLib : Type 0 where
  pub parse : String → Option Stmts
  pub base : String → String
  pub subcommands : List String

abbrev member : String → List String → Bool
member k [] = false
member k (j ∷ js) = (j == k) || member k js

unfoldable pub add_subcommand_binaries : List String → ShellLib → ShellLib
add_subcommand_binaries binaries lib = record lib { subcommands = binaries ++ lib.subcommands }

-- Here and in the word, `none` is the early return of "".
quoted_text : List QuotedPart → Option String
quoted_text [] = some ""
quoted_text (expansion ∷ ps) = none
quoted_text (quoted_lit s ∷ ps) = elim (quoted_text ps) [
  | none ↦ none
  | some t ↦ some (text_append s t)
]

part_text : WordPart → Option String
unfolding quoted_text
part_text (lit s) = some s
part_text (sgl_quoted s) = some s
part_text (dbl_quoted ps) = quoted_text ps
part_text other_part = none

abbrev join_parts : Option String → Option String → Option String
join_parts (some s) (some t) = some (text_append s t)
join_parts _ _ = none

word_text : Word → Option String
unfolding part_text
word_text [] = some ""
word_text (p ∷ ps) = join_parts (part_text p) (word_text ps)

abbrev or_empty : Option String → String
or_empty none = ""
or_empty (some s) = s

unfoldable pub shell_word_to_string : Word → String
unfolding word_text
shell_word_to_string w = or_empty (word_text w)

abbrev preamble_only : List String
preamble_only = "cd" ∷ "env" ∷ "nice" ∷ "nohup" ∷ "time" ∷ []

-- The loop over `startIdx`: the arguments from there on, and none where the call has no pattern.
unfoldable pub skip_preamble : (String → String) → List Word → List Word
skip_preamble base [] = []
skip_preamble base (w ∷ ws) =
    let word = shell_word_to_string w in
    let rest = skip_preamble base ws in
    if word == ""
    then w ∷ ws
    else if member (base word) preamble_only
    then []
    else if base word == "sudo"
    then rest
    else w ∷ ws

-- The text behind the first `-c` that has one.
unfoldable pub inner_command : List Word → Option String
inner_command [] = none
inner_command (w ∷ []) = none
inner_command (w ∷ v ∷ ws) =
    let rest = inner_command (v ∷ ws) in
    if (shell_word_to_string w == "-c") && not (shell_word_to_string v == "")
    then some (shell_word_to_string v)
    else rest

abbrev is_shell : String → Bool
is_shell binary = (binary == "bash") || ((binary == "sh") || (binary == "zsh"))

with_subcommand : ShellLib → String → List Word → String
with_subcommand lib binary [] = binary
with_subcommand lib binary (w ∷ ws) =
    let arg = shell_word_to_string w in
    if member binary lib.subcommands && (not (arg == "") && not (starts_by "-" arg))
    then text_append binary (text_append " " arg)
    else binary

named_pattern : ShellLib → (String → String) → String → List Word → String
unfolding with_subcommand
named_pattern lib again binary ws =
    if is_shell binary
    then elim (inner_command ws) [ none ↦ with_subcommand lib binary ws | some inner ↦ again inner ]
    else with_subcommand lib binary ws

from_binary : ShellLib → (String → String) → List Word → String
unfolding named_pattern
from_binary lib again [] = ""
from_binary lib again (w ∷ ws) =
    if shell_word_to_string w == ""
    then ""
    else named_pattern lib again (lib.base (shell_word_to_string w)) ws

-- `again` is `ExtractCommandPattern`.
unfoldable pub pattern_from_call : ShellLib → (String → String) → List Word → String
unfolding from_binary
pattern_from_call lib again args = from_binary lib again (skip_preamble lib.base args)

abbrev first_of : Stmts → Stmt
first_of no_stmts = no_command
first_of (stmts s ss) = s

unfoldable mutual
  pub pattern_from_stmt : ShellLib → (String → String) → Stmt → String
  pattern_from_stmt lib again (call args) = pattern_from_call lib again args
  pattern_from_stmt lib again (binary_cmd x y) =
      let first = pattern_from_stmt lib again x in
      let second = pattern_from_stmt lib again y in if first == "" then second else first
  pattern_from_stmt lib again (subshell ss) = pattern_from_first lib again ss
  pattern_from_stmt lib again (block ss) = pattern_from_first lib again ss
  pattern_from_stmt lib again other_command = ""
  pattern_from_stmt lib again no_command = ""

  pub pattern_from_first : ShellLib → (String → String) → Stmts → String
  pattern_from_first lib again no_stmts = ""
  pattern_from_first lib again (stmts s ss) = pattern_from_stmt lib again s

pattern_from_prog : ShellLib → (String → String) → Option Stmts → String
pattern_from_prog lib again none = ""
pattern_from_prog lib again (some prog) = pattern_from_first lib again prog

unfoldable pub extract_command_pattern : ShellLib → ℕ → String → String
unfolding pattern_from_prog
extract_command_pattern lib zero cmd = ""
extract_command_pattern lib (suc fuel) cmd =
    pattern_from_prog lib (extract_command_pattern lib fuel) (lib.parse cmd)

command_of : Option Json → String
command_of (some (text cmd)) = cmd
command_of _ = ""

parsed_command : Option (Dict Json) → String
unfolding command_of
parsed_command none = ""
parsed_command (some params) = command_of (get params "command")

unfoldable pub extract_shell_pattern : JsonLib → ShellLib → String → String
unfolding parsed_command
extract_shell_pattern json lib input =
    if input == ""
    then ""
    else let cmd = parsed_command (json.unmarshal input) in
      if cmd == "" then "" else extract_command_pattern lib (suc (len cmd)) cmd
