-- ===== src/Prelude/Sorting.antt =====
-- Go's `sort.Slice` as an insertion sort. The order of equal elements is not specified by Go, and
-- no lemma here speaks of it.
use Prim.Native.Nat.{ℕ}
use mathlib.Core.Path.{◌≡◌, refl}
use mathlib.Core.Logic.{inl, inr}
use mathlib.Core.Bool.{Bool, true, false}
use mathlib.Core.List.{List, [], ◌∷◌, Perm}
use mathlib.Core.List.Perm
use native.Mathlib.Omega.{arith}
use eclaire.Prelude.Tests.{ltb, Bool-cases, if◌then◌else◌}
use eclaire.Prelude.Lists.{All, All-imp, length}

-- `less` is a strict weak order.
pub record IsWeakOrder {ℓ} {A : Type ℓ} (less : A → A → Bool) : Type ℓ where
  pub asym : (a b : A) → less a b ≡ true → less b a ≡ false
  pub le_trans : (a b c : A) → less b a ≡ false → less c b ≡ false → less c a ≡ false

module _ {ℓ} {A : Type ℓ} (less : A → A → Bool) where
  unfoldable pub insert_by : A → List A → List A
  insert_by x [] = x ∷ []
  insert_by x (y ∷ ys) = if less y x then y ∷ insert_by x ys else x ∷ y ∷ ys

  unfoldable pub sort_by : List A → List A
  sort_by [] = []
  sort_by (x ∷ xs) = insert_by x (sort_by xs)

  -- No element is less than one before it.
  abbrev pub IsSorted : List A → Type 0
  IsSorted [] = Unit
  IsSorted (x ∷ xs) = All (λ y. less y x ≡ false) xs × IsSorted xs

  insert_by-perm : (x : A) (ys : List A) → Perm (insert_by x ys) (x ∷ ys)
  unfolding insert_by
  insert_by-perm x [] = Perm.refl (x ∷ [])
  insert_by-perm x (y ∷ ys) = elim (Bool-cases (less y x)) [
    | inl e ↦ rw e (Perm.trans (Perm.cons y (insert_by-perm x ys)) (Perm.swap x y ys))
    | inr e ↦ rw e (Perm.refl (x ∷ y ∷ ys))
  ]

  pub sort_by-perm : (xs : List A) → Perm (sort_by xs) xs
  unfolding sort_by
  sort_by-perm [] = Perm.refl []
  sort_by-perm (x ∷ xs) = Perm.trans (insert_by-perm x (sort_by xs)) (Perm.cons x (sort_by-perm xs))

  insert_by-All {κ} :
      (P : A → Type κ) (x : A) (ys : List A) → P x → All P ys → All P (insert_by x ys)
  unfolding insert_by
  insert_by-All P x [] hx h = (hx, tt)
  insert_by-All P x (y ∷ ys) hx h = elim (Bool-cases (less y x)) [
    | inl e ↦ rw e (h.0, insert_by-All P x ys hx h.1)
    | inr e ↦ rw e (hx, h)
  ]

  pub sort_by-All {κ} : (P : A → Type κ) (xs : List A) → All P xs → All P (sort_by xs)
  unfolding sort_by
  sort_by-All P [] h = h
  sort_by-All P (x ∷ xs) h = insert_by-All P x (sort_by xs) h.0 (sort_by-All P xs h.1)

  module _ (order : IsWeakOrder less) where
    insert_by-IsSorted : (x : A) (ys : List A) → IsSorted ys → IsSorted (insert_by x ys)
    unfolding insert_by
    insert_by-IsSorted x [] h = (tt, tt)
    insert_by-IsSorted x (y ∷ ys) h = elim (Bool-cases (less y x)) [
      | inl e ↦ rw e (
        insert_by-All (λ z. less z y ≡ false) x ys (order.asym y x e) h.0,
        insert_by-IsSorted x ys h.1,
      )
      | inr e ↦ rw e (
        (
          e,
          All-imp (λ z. less z y ≡ false) (λ z. less z x ≡ false) (λ z p. order.le_trans x y z e p)
              ys h.0,
        ),
        h,
      )
    ]

    pub sort_by-IsSorted : (xs : List A) → IsSorted (sort_by xs)
    unfolding sort_by
    sort_by-IsSorted [] = tt
    sort_by-IsSorted (x ∷ xs) = insert_by-IsSorted x (sort_by xs) (sort_by-IsSorted xs)

module _ {ℓ} {A : Type ℓ} where
  pub length-insert_by :
      (less : A → A → Bool) (x : A) (ys : List A) → length (insert_by less x ys) ≡ length (x ∷ ys)
  unfolding insert_by
  length-insert_by less x [] = refl
  length-insert_by less x (y ∷ ys) = ground (arith, length-insert_by less x ys)

  pub length-sort_by : (less : A → A → Bool) (xs : List A) → length (sort_by less xs) ≡ length xs
  unfolding sort_by
  length-sort_by less [] = refl
  length-sort_by less (x ∷ xs) =
      omega (arith, length-insert_by less x (sort_by less xs), length-sort_by less xs)

  -- The orders by a number, up and down.
  pub up-IsWeakOrder : (key : A → ℕ) → IsWeakOrder (λ a b. ltb (key a) (key b))
  up-IsWeakOrder key = record { asym = λ a b h. ground arith; le_trans = λ a b c h k. ground arith }

  pub down-IsWeakOrder : (key : A → ℕ) → IsWeakOrder (λ a b. ltb (key b) (key a))
  down-IsWeakOrder key = record {
    asym = λ a b h. ground arith;
    le_trans = λ a b c h k. ground arith;
  }
