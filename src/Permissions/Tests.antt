-- ===== src/Permissions/Tests.antt =====
-- Small permission checkers on which the theorems are tried.
use eclaire.Prelude.{◌/◌, ◌*◌, ◌≡◌, refl}
use eclaire.Prelude.Dict.{get}
use eclaire.Tools.{new_registry, key, effective_tier}
use eclaire.RateLimits.{Refill, allow}
use eclaire.Permissions.{
  allowed, PermissionMode, PermissionChecker, new_permission_checker, is_approved, approve,
  check_with_mode, check_tool_rate,
}
use eclaire.Permissions.Approvals.{approve-isolated}
use eclaire.Permissions.Decisions.{IsAuthorised, check_with_mode-IsAuthorised}
use eclaire.Prelude.Text.{text_before}

-- One token for each part of the window, in whole numbers.
abbrev by_parts : Refill
by_parts elapsed window limit = elapsed * limit / window

abbrev checker : PermissionChecker
checker = new_permission_checker new_registry

approve-isolated_example :
    is_approved (key "research" "shell") "shell" "git push" (approve "coding" "shell" checker)
    ≡ is_approved (key "research" "shell") "shell" "git push" checker
approve-isolated_example =
    (approve-isolated "coding" "research" "shell" "shell" "git push" "git" checker refl refl
      (λ e. cc)).0

abbrev free_mode : PermissionMode
free_mode = PermissionMode.allow_all

shell_runs : (check_with_mode by_parts 5 "coding" "shell" "git push" free_mode checker).1 ≡ allowed
unfolding check_with_mode is_approved effective_tier get text_before check_tool_rate allow
shell_runs = refl

check_with_mode-IsAuthorised_example :
    IsAuthorised
      (is_approved (key "coding" "shell") "shell" "git push" checker)
      free_mode
      (effective_tier new_registry "coding" "shell")
check_with_mode-IsAuthorised_example =
    check_with_mode-IsAuthorised by_parts 5 "coding" "shell" "git push" free_mode checker shell_runs
