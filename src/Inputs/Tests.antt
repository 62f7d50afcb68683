-- ===== src/Inputs/Tests.antt =====
-- The boundary at fixed paths (internal/tool/permission.go).
use Prim.Native.String.{len}
use eclaire.Prelude.{
  ◌≡◌, refl, ◌⊎◌, inl, inr, ℕ, ◌<◌, true, false, some, none, [], ◌∷◌, String, ◌==◌, if◌then◌else◌,
  if-cases, arith, leb,
}
use eclaire.Prelude.Text.{starts_by}
use eclaire.Prelude.Dict.{get}
use eclaire.Inputs.{text, JsonLib, target_path, first_text}
use eclaire.Inputs.Workspace.{PathLib, real, is_inside, param_keys}
use eclaire.Inputs.Workspace.Boundary.{ClimbsUp, IsResolved, resolve_real_path-IsResolved}

-- Only the root exists, so the search for a path goes up to it.
abbrev paths : PathLib
paths = record {
  abs = λ (p : String). some p;
  clean = λ (p : String). p;
  dir = λ (p : String). if leb (len p) 1 then p else "/";
  base = λ (p : String). "x";
  join = λ (p q : String). "/x";
  eval_symlinks = λ (p : String). if p == "/" then some "/" else none;
}

abbrev json : JsonLib
json = record {
  unmarshal = λ (s : String). some (("path", text "/work/a") ∷ []);
  valid = λ (s : String). true;
  is_control = λ (n : ℕ). false;
}

-- With the file system's root as a workspace root, this path below it is not inside.
root_admits_nothing : is_inside "/etc/hosts" "/" ≡ false
unfolding is_inside
root_admits_nothing = refl

named : target_path (json.unmarshal "{}") (param_keys "write") ≡ some "/work/a"
unfolding first_text get
named = refl

climbs : ClimbsUp paths
climbs p h = (
  if-cases (λ (s : String). starts_by "/" s ≡ true) (leb (len p) 1) p "/" (λ e. h) (λ e. refl),
  if-cases (λ (s : String). (s ≡ p) ⊎ (len s < len p)) (leb (len p) 1) p "/" (λ e. inl refl)
      (λ e. inr (ground (arith, e))),
)

resolve_real_path-IsResolved_example : IsResolved paths "/work/a" (real paths "/work/a")
resolve_real_path-IsResolved_example = resolve_real_path-IsResolved paths "/work/a" climbs refl
