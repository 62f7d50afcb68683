-- ===== src/Prelude/Lists.antt =====
-- Lists measured by native numbers, under the library's names, and predicates on all elements.
use Prim.Native.Nat.{ℕ, zero, suc, ◌+◌, ◌-◌, ◌≤◌, min}
use mathlib.Core.Path.{◌≡◌, refl, ap, sym, ◌∙◌}
use mathlib.Core.Bool.{Bool}
use mathlib.Core.List.{List, [], ◌∷◌, ◌++◌}
use native.Mathlib.Omega.{arith}
use mathlib.Core.Logic.{inl, inr}
use eclaire.Prelude.Tests.{ltb, Bool-cases, if◌then◌else◌}

module _ {ℓ} {A : Type ℓ} where
  abbrev pub length : List A → ℕ
  length [] = 0
  length (x ∷ xs) = suc (length xs)

  pub length-append : (xs ys : List A) → length (xs ++ ys) ≡ length xs + length ys
  length-append [] ys = omega arith
  length-append (x ∷ xs) ys = omega (arith, length-append xs ys)

  abbrev pub take : ℕ → List A → List A
  take zero xs = []
  take (suc n) [] = []
  take (suc n) (x ∷ xs) = x ∷ take n xs

  abbrev pub drop : ℕ → List A → List A
  drop zero xs = xs
  drop (suc n) [] = []
  drop (suc n) (x ∷ xs) = drop n xs

  pub length-take : (n : ℕ) (xs : List A) → length (take n xs) ≡ min n (length xs)
  length-take zero xs = omega arith
  length-take (suc n) [] = omega arith
  length-take (suc n) (x ∷ xs) = omega (arith, length-take n xs)

  pub length-drop : (n : ℕ) (xs : List A) → length (drop n xs) ≡ length xs - n
  length-drop zero xs = omega arith
  length-drop (suc n) [] = omega arith
  length-drop (suc n) (x ∷ xs) = omega (arith, length-drop n xs)

  pub take-append-drop : (n : ℕ) (xs : List A) → take n xs ++ drop n xs ≡ xs
  take-append-drop zero xs = refl
  take-append-drop (suc n) [] = refl
  take-append-drop (suc n) (x ∷ xs) = ap (◌∷◌ x) (take-append-drop n xs)

  -- The elements that pass a test, in order.
  abbrev pub select : (A → Bool) → List A → List A
  select p [] = []
  select p (x ∷ xs) = if p x then x ∷ select p xs else select p xs

  pub length-select-le : (p : A → Bool) (xs : List A) → length (select p xs) ≤ length xs
  length-select-le p [] = omega arith
  length-select-le p (x ∷ xs) = ground (arith, length-select-le p xs)

module _ {ℓ κ} {A : Type ℓ} where
  abbrev pub All : (A → Type κ) → List A → Type κ
  All P [] = Unit
  All P (x ∷ xs) = P x × All P xs

  pub All-append : (P : A → Type κ) (xs ys : List A) → All P xs → All P ys → All P (xs ++ ys)
  All-append P [] ys hx hy = hy
  All-append P (x ∷ xs) ys hx hy = (hx.0, All-append P xs ys hx.1 hy)

  pub All-drop : (P : A → Type κ) (n : ℕ) (xs : List A) → All P xs → All P (drop n xs)
  All-drop P zero xs h = h
  All-drop P (suc n) [] h = h
  All-drop P (suc n) (x ∷ xs) h = All-drop P n xs h.1

module _ {ℓ κ κ'} {A : Type ℓ} where
  pub All-imp :
      (P : A → Type κ) (Q : A → Type κ') (f : (x : A) → P x → Q x) (xs : List A)
      → All P xs
      → All Q xs
  All-imp P Q f [] h = tt
  All-imp P Q f (x ∷ xs) h = (f x h.0, All-imp P Q f xs h.1)

module _ {ℓ} {A : Type ℓ} where
  -- `if len(xs) > n { xs = xs[len(xs)-n:] }`
  unfoldable pub keep_last : ℕ → List A → List A
  keep_last n xs = if ltb n (length xs) then drop (length xs - n) xs else xs

  pub length-keep_last : (n : ℕ) (xs : List A) → length (keep_last n xs) ≡ min n (length xs)
  unfolding keep_last
  length-keep_last n xs = ground (arith, length-drop (length xs - n) xs)

  drop-append : (k : ℕ) (xs ys : List A) → k ≤ length xs → drop k (xs ++ ys) ≡ drop k xs ++ ys
  drop-append zero xs ys h = refl
  drop-append (suc k) [] ys h = absurd (omega arith)
  drop-append (suc k) (x ∷ xs) ys h = drop-append k xs ys (omega arith)

  -- The last elements of a list that grew by one: the new one, behind the last of the old ones.
  pub keep_last-snoc :
      (n : ℕ) (xs : List A) (y : A) → keep_last (suc n) (xs ++ y ∷ []) ≡ keep_last n xs ++ y ∷ []
  unfolding keep_last
  keep_last-snoc n xs y = elim (Bool-cases (ltb n (length xs))) [
    | inl more ↦
        let l : length (xs ++ y ∷ []) ≡ suc (length xs) =
          omega (arith, length-append xs (y ∷ [])) in
        let k : length (xs ++ y ∷ []) - suc n ≡ length xs - n = omega arith in
        ground (arith, more, l, k, drop-append (length xs - n) xs (y ∷ []) (omega arith))
    | inr less ↦ ground (arith, less, length-append xs (y ∷ []))
  ]

  drop-nil : (k : ℕ) → drop {A = A} k [] ≡ []
  drop-nil zero = refl
  drop-nil (suc k) = refl

  drop-suc : (k l : ℕ) (x : A) (xs : List A) → l ≡ suc k → drop k xs ≡ drop l (x ∷ xs)
  drop-suc k l x xs e = rw e refl

  drop-drop : (a b : ℕ) (xs : List A) → drop a (drop b xs) ≡ drop (b + a) xs
  drop-drop a zero xs = ap (λ (k : ℕ). drop k xs) (omega arith)
  drop-drop a (suc b) [] = drop-nil a ∙ sym (drop-nil (suc b + a))
  drop-drop a (suc b) (x ∷ xs) = drop-drop a b xs ∙ drop-suc (b + a) (suc b + a) x xs (omega arith)

  drop_same : (k l : ℕ) (xs : List A) → k ≡ l → drop k xs ≡ drop l xs
  drop_same k l xs e = ap (λ (n : ℕ). drop n xs) e

  pub keep_last-eq-drop : (n : ℕ) (xs : List A) → keep_last n xs ≡ drop (length xs - n) xs
  unfolding keep_last
  keep_last-eq-drop n xs = elim (Bool-cases (ltb n (length xs))) [
    | inl more ↦ rw more refl
    | inr less ↦ rw less (drop_same 0 (length xs - n) xs (ground arith))
  ]

  -- To keep the last elements it is enough to have kept more of them before.
  pub keep_last-keep_last :
      (n : ℕ) (xs : List A) → keep_last n (keep_last (suc n) xs) ≡ keep_last n xs
  keep_last-keep_last n xs =
      let m : ℕ = length xs - suc n in
      rw (keep_last-eq-drop (suc n) xs) (
        keep_last-eq-drop n (drop m xs)
        ∙ drop-drop (length (drop m xs) - n) m xs
        ∙ drop_same _ _ xs (omega (arith, length-drop m xs))
        ∙ sym (keep_last-eq-drop n xs))

module _ {ℓ} {A : Type ℓ} where
  pub append_last : {xs ys : List A} (x : A) → xs ≡ ys → xs ++ x ∷ [] ≡ ys ++ x ∷ []
  append_last x e = ap (λ (zs : List A). zs ++ x ∷ []) e
