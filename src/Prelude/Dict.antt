-- ===== src/Prelude/Dict.antt =====
-- A Go map with text keys, as an association list. Its order stands for the order, unspecified in
-- Go, in which `range` meets the entries.
use Prim.Native.Nat.{suc}
use Prim.Native.String.{String}
use text.Mathlib.Text.{◌==◌}
use text.Mathlib.TextEquality.{eq_iff}
use text.Mathlib.TextPositions.{eq_refl}
use mathlib.Core.Path.{◌≡◌, refl}
use mathlib.Core.Logic.{inl, inr}
use mathlib.Core.Bool.{Bool}
use mathlib.Core.Option.{Option, none, some}
use mathlib.Core.List.{List, [], ◌∷◌}
use native.Mathlib.Omega.{arith}
use eclaire.Prelude.Tests.{if◌then◌else◌, is_some, Bool-cases}
use eclaire.Prelude.Lists.{length, All}

abbrev pub Dict {ℓ} : Type ℓ → Type ℓ
Dict V = List (String × V)

module _ {ℓ} {V : Type ℓ} where
  unfoldable pub get : Dict V → String → Option V
  get [] k = none
  get ((j, v) ∷ d) k = if j == k then some v else get d k

  unfoldable pub put : Dict V → String → V → Dict V
  put [] k v = (k, v) ∷ []
  put ((j, w) ∷ d) k v = if j == k then (k, v) ∷ d else (j, w) ∷ put d k v

  unfoldable pub remove : Dict V → String → Dict V
  remove [] k = []
  remove ((j, w) ∷ d) k = if j == k then remove d k else (j, w) ∷ remove d k

  abbrev pub has : Dict V → String → Bool
  has d k = is_some (get d k)

  abbrev pub values : Dict V → List V
  values [] = []
  values ((k, v) ∷ d) = v ∷ values d

  pub get-put :
      (d : Dict V) (k j : String) (v : V) → get (put d k v) j ≡ (if k == j then some v else get d j)
  unfolding get put
  get-put [] k j v = refl
  get-put ((i, w) ∷ d) k j v = ground (arith, eq_iff k j, eq_iff i k, eq_iff i j, get-put d k j v)

  pub get-remove :
      (d : Dict V) (k j : String) → get (remove d k) j ≡ (if k == j then none else get d j)
  unfolding get remove
  get-remove [] k j = ground arith
  get-remove ((i, w) ∷ d) k j = ground (arith, eq_iff k j, eq_iff i k, eq_iff i j, get-remove d k j)

  pub get-put_self : (d : Dict V) (k : String) (v : V) → get (put d k v) k ≡ some v
  get-put_self d k v = rw (get-put d k k v) (rw eq_refl)

  pub get-remove_self : (d : Dict V) (k : String) → get (remove d k) k ≡ none
  get-remove_self d k = rw (get-remove d k k) (rw eq_refl)

  pub length-put_new :
      (d : Dict V) (k : String) (v : V) → get d k ≡ none → length (put d k v) ≡ suc (length d)
  unfolding get put
  length-put_new [] k v h = refl
  length-put_new ((j, w) ∷ d) k v h = ground (arith, length-put_new d k v)

  -- What holds of every entry holds after a write, if it holds of what is written.
  pub All-put {κ} :
      (P : String × V → Type κ) (d : Dict V) (k : String) (v : V)
      → P (k, v)
      → All P d
      → All P (put d k v)
  unfolding put
  All-put P [] k v p h = (p, tt)
  All-put P ((j, w) ∷ d) k v p h = elim (Bool-cases (j == k)) [
    | inl e ↦ rw e (p, h.1)
    | inr e ↦ rw e (h.0, All-put P d k v p h.1)
  ]
