-- ===== src/Permissions/Patterns/Tests.antt =====
-- Patterns of fixed commands (internal/tool/permission.go).
use eclaire.Prelude.{◌≡◌, ◌≢◌, refl, ℕ, some, [], ◌∷◌, String, ◌==◌, false, arith, eq_iff}
use eclaire.Tools.{new_registry}
use eclaire.Permissions.{
  PermissionMode, prompt, check_with_mode, approve_pattern, new_permission_checker,
}
use eclaire.Permissions.Patterns.{
  ShellLib, Stmt, stmts, no_stmts, call, binary_cmd, Word, lit, pattern_from_stmt,
  pattern_from_call, skip_preamble, shell_word_to_string, extract_command_pattern,
}
use eclaire.Permissions.Patterns.Chains.{approve_pattern-chain}

abbrev word : String → Word
word s = lit s ∷ []

abbrev git_status : Stmt
git_status = call (word "git" ∷ word "status" ∷ [])

abbrev remove_all : Stmt
remove_all = call (word "rm" ∷ word "-rf" ∷ word "/" ∷ [])

-- The parse of `git status && rm -rf /`, and of nothing else.
abbrev lib : ShellLib
lib = record {
  parse = λ (s : String). some (stmts (binary_cmd git_status remove_all) no_stmts);
  base = λ (s : String). s;
  subcommands = "git" ∷ [];
}

is_named : (pattern_from_stmt lib (extract_command_pattern lib 1) git_status == "") ≡ false
unfolding pattern_from_stmt pattern_from_call skip_preamble shell_word_to_string
is_named = refl

named_not_empty : pattern_from_stmt lib (extract_command_pattern lib 1) git_status ≢ ""
named_not_empty e = ground (
  arith,
  e,
  is_named,
  eq_iff (pattern_from_stmt lib (extract_command_pattern lib 1) git_status) "",
)

approve_pattern-chain_example :
    let p = extract_command_pattern lib 2 "git status && rm -rf /" in
    let first = pattern_from_stmt lib (extract_command_pattern lib 1) git_status in
    let c = approve_pattern "coding" "shell" first (new_permission_checker new_registry) in
    (p ≡ first)
    × ((check_with_mode (λ (t r w : ℕ). 0) 1000 "coding" "shell" p PermissionMode.write_only c).1
        ≢ prompt)
approve_pattern-chain_example =
    approve_pattern-chain (λ (t r w : ℕ). 0) lib 1 "git status && rm -rf /" git_status remove_all
      no_stmts 1000 "coding" PermissionMode.write_only (new_permission_checker new_registry) refl
      named_not_empty
