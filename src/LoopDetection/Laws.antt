-- ===== src/LoopDetection/Laws.antt =====
-- What the detection finds (internal/agent/loop.go).
use eclaire.Prelude.{
  ℕ, suc, ◌+◌, ◌-◌, ◌≤◌, ◌<◌, ◌≡◌, ◌↔◌, refl, true, List, [], ◌∷◌, String, ◌==◌, eq_iff, arith, ltb,
  if◌then◌else◌, Bool-cases, inl, inr, length, drop,
}
use Prim.Native.String.{len}
use eclaire.Prelude.Dict.{Dict, get, put, get-put}
use eclaire.LoopDetection.{count_of, repeats, is_looping, split_words, ngrams, is_degenerate}

-- How often a text occurs in a list.
unfoldable pub times : String → List String → ℕ
times k [] = 0
times k (j ∷ js) = if j == k then suc (times k js) else times k js

count-put :
    (counts : Dict ℕ) (k j : String) (n : ℕ)
    → count_of (put counts k n) j ≡ (if k == j then n else count_of counts j)
count-put counts k j n = ground (arith, get-put counts k j n)

found :
    (most : ℕ) (counts : Dict ℕ) (ks : List String)
    → repeats most counts ks ≡ true
    → (k : String) × (most < count_of counts k + times k ks)
unfolding repeats times
found most counts [] h = cc
found most counts (k ∷ ks) h = elim (Bool-cases (ltb most (suc (count_of counts k)))) [
  | inl e ↦ (k, ground (arith, e, eq_iff k k))
  | inr e ↦
      let n = suc (count_of counts k) in
      let (j, l) = found most (put counts k n) ks (rw e at h) in
      (j, ground (arith, l, count-put counts k j n, eq_iff k j))
]

finds :
    (most : ℕ) (counts : Dict ℕ) (ks : List String) (k : String)
    → ((j : String) → count_of counts j ≤ most)
    → most < count_of counts k + times k ks
    → repeats most counts ks ≡ true
unfolding repeats times
finds most counts [] k small h = absurd (omega (arith, small k))
finds most counts (i ∷ ks) k small h = elim (Bool-cases (ltb most (suc (count_of counts i)))) [
  | inl e ↦ rw e refl
  | inr e ↦
      let n = suc (count_of counts i) in
      rw e (
        finds most (put counts i n) ks k (λ j. ground (arith, count-put counts i j n, small j, e))
          (ground (arith, h, count-put counts i k n, eq_iff i k)))
]

repeats_iff :
    (most : ℕ) (ks : List String)
    → (repeats most [] ks ≡ true) ↔ ((k : String) × (most < times k ks))
unfolding get
repeats_iff most ks = (
  λ h. let (k, l) = found most [] ks h in (k, omega arith),
  λ x. finds most [] ks x.0 (λ j. omega arith) (omega (arith, x.1)),
)

-- A history loops exactly when it fills the window and some signature occurs more than
-- `max_repeats` times among its last `window_size` entries.
pub is_looping_iff :
    (history : List String) (window_size max_repeats : ℕ)
    → (is_looping history window_size max_repeats ≡ true) ↔ (
        (window_size ≤ length history)
        × ((k : String) × (max_repeats < times k (drop (length history - window_size) history))))
unfolding is_looping
is_looping_iff history w m = elim (Bool-cases (ltb (length history) w)) [
  | inl e ↦ (λ h. ground (arith, h, e), λ x. ground (arith, x.0, e))
  | inr e ↦
      let both = repeats_iff m (drop (length history - w) history) in
      (λ h. (ground (arith, e), both.0 (rw e at h)), λ x. rw e (both.1 x.1))
]

-- A text is degenerate exactly when it has at least 100 bytes and 8 words, and some sequence of four
-- words occurs in it more than `threshold` times.
pub is_degenerate_iff :
    (text : String) (threshold : ℕ)
    → (is_degenerate text threshold ≡ true) ↔ (
        (100 ≤ len text)
        × (8 ≤ length (split_words text))
        × ((k : String) × (threshold < times k (ngrams (split_words text)))))
unfolding is_degenerate
is_degenerate_iff text m = elim (Bool-cases (ltb (len text) 100)) [
  | inl e ↦ (λ h. ground (arith, h, e), λ x. ground (arith, x.0, e))
  | inr e ↦ elim (Bool-cases (ltb (length (split_words text)) 8)) [
    | inl f ↦ (λ h. ground (arith, h, e, f), λ x. ground (arith, x.1, f))
    | inr f ↦
        let both = repeats_iff m (ngrams (split_words text)) in
        (
          λ h. (ground (arith, e), ground (arith, f), both.0 (rw (e, f) at h)),
          λ x. rw (e, f) (both.1 x.2),
        )
  ]
]
