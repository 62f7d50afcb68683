-- ===== src/Inputs/Workspace/Boundary.antt =====
-- The workspace boundary (internal/tool/permission.go, `CheckWorkspaceBoundary`, `resolveRealPath`).
use Prim.Native.String.{len}
use eclaire.Prelude.{
  ◌≡◌, ◌≢◌, Option-cases, refl, ◌⊎◌, inl, inr, ℕ, zero, suc, ◌≤◌, ◌<◌, true, Option, none, some,
  List, ◌∷◌, String, ◌==◌, if-cases, arith, eq_iff,
}
use eclaire.Prelude.Text.{starts_by, text_append}
use eclaire.Inputs.Workspace.{PathLib, resolve_up, resolve_real_path, real}

-- The directory of an absolute path is absolute, and shorter but for the root's.
abbrev pub ClimbsUp : PathLib → Type 0
ClimbsUp lib =
    (p : String)
    → starts_by "/" p ≡ true
    → (starts_by "/" (lib.dir p) ≡ true) × ((lib.dir p ≡ p) ⊎ (len (lib.dir p) < len p))

-- The search of a path that does not exist: up from `p`, with the names left behind in `base`, to the
-- first directory that exists, below which the names are put; at the top the search gives up.
pub data Climbs (lib : PathLib) : String → String → String → Type 0 where
  gives_up : (p base : String) → lib.dir p ≡ p → Climbs lib p base p
  finds :
      (p base found : String)
      → lib.dir p ≢ p
      → lib.eval_symlinks (lib.dir p) ≡ some found
      → Climbs lib p base (lib.join found base)
  climbs :
      (p base end : String)
      → lib.dir p ≢ p
      → lib.eval_symlinks (lib.dir p) ≡ none
      → Climbs lib (lib.dir p) (lib.join (lib.base (lib.dir p)) base) end
      → Climbs lib p base end

shorter_fits :
    (lib : PathLib) (p : String) (n : ℕ)
    → lib.dir p ≢ p
    → (lib.dir p ≡ p) ⊎ (len (lib.dir p) < len p)
    → len p ≤ suc n
    → len (lib.dir p) ≤ n
shorter_fits lib p n apart (inl top) k = absurd (apart top)
shorter_fits lib p n apart (inr shorter) k = omega (arith, k, shorter)

up-Climbs :
    (lib : PathLib) (above : ClimbsUp lib) (n : ℕ) (p base : String)
    → starts_by "/" p ≡ true
    → len p ≤ n
    → Climbs lib p base (resolve_up lib n p (lib.dir p) base)
unfolding resolve_up
up-Climbs lib above zero p base h k = elim (above p h).1 [
  | inl top ↦ gives_up p base top
  | inr shorter ↦ absurd (omega (arith, k, shorter))
]
up-Climbs lib above (suc n) p base h k =
    if-cases (Climbs lib p base) (lib.dir p == p) _ _
      (λ e. gives_up p base (ground (arith, e, eq_iff (lib.dir p) p)))
      (λ e.
        let apart : lib.dir p ≢ p = λ top. ground (arith, top, e, eq_iff (lib.dir p) p) in
        elim (Option-cases (lib.eval_symlinks (lib.dir p))) [
          | inl absent ↦ rw absent (
              climbs p base _ apart absent (
                up-Climbs lib above n (lib.dir p) (lib.join (lib.base (lib.dir p)) base)
                  (above p h).0 (shorter_fits lib p n apart (above p h).1 k)))
          | inr (found, present) ↦ rw present (finds p base found apart present)
        ])

-- What `resolveRealPath` is to find: the real form of a path that exists, or that of a search.
abbrev pub IsResolved : PathLib → String → String → Type 0
IsResolved lib p end =
    (lib.eval_symlinks p ≡ some end)
    ⊎ ((lib.eval_symlinks p ≡ none) × Climbs lib p (lib.base p) end)

from-IsResolved :
    (lib : PathLib) (p : String)
    → ClimbsUp lib
    → starts_by "/" p ≡ true
    → (o : Option String) → lib.eval_symlinks p ≡ o
    → IsResolved lib p
        (elim o [ some found ↦ found | none ↦ resolve_up lib (len p) p (lib.dir p) (lib.base p) ])
from-IsResolved lib p above h none e =
    inr (e, up-Climbs lib above (len p) p (lib.base p) h (omega arith))
from-IsResolved lib p above h (some found) e = inl e

-- Where the directory of each absolute path is an absolute path that is shorter or the same,
-- `resolveRealPath` ends on an absolute path, with the real form of the path if it exists, and otherwise
-- with the names that do not exist below the real form of the nearest directory that does. It gives up,
-- with the path at the top, only where no directory on the way up exists.
pub resolve_real_path-IsResolved :
    (lib : PathLib) (p : String)
    → ClimbsUp lib
    → starts_by "/" p ≡ true
    → IsResolved lib p (real lib p)
unfolding resolve_real_path
resolve_real_path-IsResolved lib p above h =
    from-IsResolved lib p above h (lib.eval_symlinks p) refl

-- The path is the root, or the root and a slash stand before the rest of it.
abbrev pub Below : String → String → Type 0
Below path root =
    (path ≡ root) ⊎ ((rest : String) × (path ≡ text_append (text_append root "/") rest))

-- One of the roots, in its real form, holds the path.
pub data IsWithin (lib : PathLib) (path : String) : List String → Type 0 where
  here :
      (root found : String) (roots : List String)
      → lib.abs root ≡ some found
      → Below path (real lib (lib.clean found))
      → IsWithin lib path (root ∷ roots)
  later :
      (root : String) (roots : List String)
      → IsWithin lib path roots
      → IsWithin lib path (root ∷ roots)
