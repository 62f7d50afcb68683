-- ===== src/Inputs/Workspace.antt =====
-- Where a tool call writes (internal/tool/permission.go, `CheckWorkspaceBoundary`,
-- `resolveRealPath`; internal/agent/runtime.go, `extractWriteDir`). The functions of path/filepath are
-- a parameter.
pub mod Boundary
use Prim.Native.Char.{Char, code}
use Prim.Native.String.{len}
use eclaire.Prelude.{
  ℕ, zero, suc, Bool, true, false, not, ◌&&◌, ◌||◌, Option, none, some, List, [], ◌∷◌, String, ◌==◌,
  ltb, eqb, if◌then◌else◌,
}
use eclaire.Prelude.Text.{text_append, starts_by, codes, contains, decimal}
use eclaire.Prelude.Dict.{Dict, get}
use eclaire.Inputs.{Json, text, JsonLib, first_text, target_path}

-- The file system, as path/filepath shows it: `abs` and `eval_symlinks` may fail.
pub record PathLib : Type 0 where
  pub abs : String → Option String
  pub clean : String → String
  pub dir : String → String
  pub base : String → String
  pub join : String → String → String
  pub eval_symlinks : String → Option String

-- The loop of `resolveRealPath` for a path whose directory is `dir`, on fuel. The `none` of fuel is
-- the path as it is.
unfoldable pub resolve_up : PathLib → ℕ → String → String → String → String
resolve_up lib zero p dir base = p
resolve_up lib (suc fuel) p dir base =
    let up = resolve_up lib fuel dir (lib.dir dir) (lib.join (lib.base dir) base) in
    if dir == p
    then p
    else elim (lib.eval_symlinks dir) [ none ↦ up | some real ↦ lib.join real base ]

unfoldable pub resolve_real_path : PathLib → ℕ → String → String
resolve_real_path lib fuel p = elim (lib.eval_symlinks p) [
  | some real ↦ real
  | none ↦ resolve_up lib fuel p (lib.dir p) (lib.base p)
]

abbrev pub real : PathLib → String → String
real lib p = resolve_real_path lib (len p) p

unfoldable pub is_write_tool : String → Bool
is_write_tool name =
    (name == "write")
    || ((name == "edit")
        || ((name == "multiedit")
            || ((name == "apply_patch") || ((name == "download") || (name == "shell")))))

-- `strings.HasPrefix(realPath, realRoot+"/") || realPath == realRoot`
unfoldable pub is_inside : String → String → Bool
is_inside path root = starts_by (text_append root "/") path || (path == root)

abbrev inside_root : PathLib → String → Option String → Bool
inside_root lib path none = false
inside_root lib path (some root) = is_inside path (real lib (lib.clean root))

unfoldable pub inside_any : PathLib → String → List String → Bool
inside_any lib path [] = false
inside_any lib path (root ∷ roots) =
    inside_root lib path (lib.abs root) || inside_any lib path roots

pub data BoundaryAnswer : Type 0 where
  inside : BoundaryAnswer
  unresolved : BoundaryAnswer
  outside : String → BoundaryAnswer

check_absolute : PathLib → String → List String → Option String → BoundaryAnswer
check_absolute paths target roots none = unresolved
check_absolute paths target roots (some path) =
    if inside_any paths (real paths (paths.clean path)) roots then inside else outside target

check_target : PathLib → List String → Option String → BoundaryAnswer
unfolding check_absolute
check_target paths roots none = inside
check_target paths roots (some target) = check_absolute paths target roots (paths.abs target)

abbrev pub param_keys : String → List String
param_keys name = if name == "shell" then "cwd" ∷ [] else "path" ∷ "file_path" ∷ "file" ∷ []

unfoldable pub check_workspace_boundary :
    JsonLib → PathLib → String → String → List String → BoundaryAnswer
unfolding check_target
check_workspace_boundary lib paths name input roots =
    if is_write_tool name
    then check_target paths roots (target_path (lib.unmarshal input) (param_keys name))
    else inside

write_dir_of : PathLib → Option String → String
write_dir_of paths none = ""
write_dir_of paths (some path) = paths.dir (paths.clean path)

-- The directory of the path; "" where there is none.
unfoldable pub extract_write_dir : JsonLib → PathLib → String → String
unfolding write_dir_of
extract_write_dir lib paths input =
    elim (target_path (lib.unmarshal input) ("path" ∷ "file_path" ∷ "file" ∷ [])) [
      | none ↦ ""
      | some p ↦ write_dir_of paths (paths.abs p)
    ]

-- The reason beside a refusal; `path_error` is the error of filepath.Abs and `roots` their text.
unfoldable pub show_boundary : (String → String) → String → String → BoundaryAnswer → String
show_boundary quoted path_error roots inside = ""
show_boundary quoted path_error roots unresolved = text_append "cannot resolve path: " path_error
show_boundary quoted path_error roots (outside target) =
    text_append "write to "
      (text_append (quoted target) (text_append " is outside workspace boundaries " roots))
