-- ===== src/Contexts/Budgets.antt =====
-- The limits of the system prompt (internal/agent/context_engine.go, `addSection`, `CompactPrompt`).
use Prim.Native.Nat.{min}
use Prim.Native.String.{len}
use eclaire.Prelude.{
  ◌≡◌, refl, ℕ, ◌+◌, ◌≤◌, ◌<◌, List, [], ◌∷◌, String, leb, ltb, if-cases, All, All-imp, arith, ◌==◌,
  not, ◌&&◌, ◌||◌, leb→le, ◌/◌,
}
use mathlib.Core.List.{Perm}
use eclaire.Prelude.Sorting.{sort_by, sort_by-perm, sort_by-IsSorted, IsSorted, down-IsWeakOrder}
use eclaire.Contexts.{
  PromptSection, Offer, max_total_chars, shortened, add_sections, section_included, keep_loop,
  total_tokens, compact_prompt, joined, by_priority, ContextPlan,
}

abbrev pub total_chars : List PromptSection → ℕ
total_chars [] = 0
total_chars (s ∷ ss) = len s.content + total_chars ss

-- The bytes of the sections that are added to `total` bytes stay within the limit.
pub add_sections-bounded :
    (cut : String → ℕ → String) (mode : String) (os : List Offer) (total : ℕ)
    → total ≤ max_total_chars
    → total + total_chars (add_sections cut mode os total) ≤ max_total_chars
unfolding add_sections
add_sections-bounded cut mode [] total h = omega (arith, h)
add_sections-bounded cut mode (o ∷ os) total h =
    let P = λ (ss : List PromptSection). total + total_chars ss ≤ max_total_chars in
    let rest = add_sections-bounded cut mode os total h in
    if-cases P (not (o.ready && section_included o.gate mode) || (o.content == "")) _ _ (λ e. rest)
      (λ e.
        if-cases P (ltb max_total_chars (total + len (shortened cut o.content))) _ _ (λ f. rest)
          (λ f.
            let more =
              add_sections-bounded cut mode os (total + len (shortened cut o.content))
                (ground (arith, f)) in
            omega (arith, more)))

-- Two lists in the order of a third.
pub data IsMerge : List PromptSection → List PromptSection → List PromptSection → Type 0 where
  both_empty : IsMerge [] [] []
  left :
      (s : PromptSection) (xs ys zs : List PromptSection)
      → IsMerge xs ys zs
      → IsMerge (s ∷ xs) ys (s ∷ zs)
  right :
      (s : PromptSection) (xs ys zs : List PromptSection)
      → IsMerge xs ys zs
      → IsMerge xs (s ∷ ys) (s ∷ zs)

-- What is kept of the sections: it fits, and none of those left out would fit as well.
abbrev pub Fills : ℕ → ℕ → List PromptSection → List PromptSection → Type 0
Fills most total ss kept =
    (dropped : List PromptSection) × IsMerge kept dropped ss
    × (total + total_tokens kept ≤ most)
    × All (λ (s : PromptSection). most < total + total_tokens kept + s.tokens) dropped

keep-Fills :
    (most total : ℕ) (ss : List PromptSection)
    → total ≤ most
    → Fills most total ss (keep_loop most total ss)
unfolding keep_loop
keep-Fills most total [] h = ([], both_empty, omega (arith, h), tt)
keep-Fills most total (s ∷ ss) h =
    if-cases (Fills most total (s ∷ ss)) (leb (total + s.tokens) most) _ _
      (λ e.
        let k = keep-Fills most (total + s.tokens) ss (leb→le _ _ e) in
        (
          k.0,
          left s _ k.0 ss k.1,
          omega (arith, k.2),
          All-imp _ _ (λ x l. omega (arith, l)) k.0 k.3,
        ))
      (λ e.
        let k = keep-Fills most total ss h in
        (s ∷ k.0, right s _ k.0 ss k.1, k.2, (ground (arith, e), k.3)))

-- No section has a lower priority than one after it.
abbrev pub Falls : List PromptSection → Type 0
Falls [] = Unit
Falls (s ∷ ss) = All (λ (t : PromptSection). t.priority ≤ s.priority) ss × Falls ss

sorted-Falls : (ss : List PromptSection) → IsSorted by_priority ss → Falls ss
sorted-Falls [] h = tt
sorted-Falls (s ∷ ss) h = (All-imp _ _ (λ t e. ground (arith, e)) ss h.0, sorted-Falls ss h.1)

-- `CompactPrompt` goes through the sections by falling priority and keeps those whose tokens fit into
-- the maximum together; each section that it leaves out would not fit beside those that it keeps.
pub compact_prompt-Fills :
    (sections : List PromptSection) (most : ℕ)
    → (sorted kept : List PromptSection) × Perm sorted sections
      × Falls sorted
      × (compact_prompt sections most ≡ joined kept)
      × Fills most 0 sorted kept
unfolding compact_prompt
compact_prompt-Fills sections most =
    let sorted = sort_by by_priority sections in
    (
      sorted,
      keep_loop most 0 sorted,
      sort_by-perm by_priority sections,
      sorted-Falls sorted (
          sort_by-IsSorted by_priority (down-IsWeakOrder (λ (s : PromptSection). s.priority))
            sections),
      refl,
      keep-Fills most 0 sorted (omega arith),
    )

-- The estimate for a text is a quarter of its bytes.
abbrev pub estimate : List PromptSection → ℕ
estimate [] = 0
estimate (s ∷ ss) = len s.content / 4 + estimate ss

-- The budget of a window: the estimate, the reserve and what is left, which is 0 where they do not fit.
abbrev pub Shared : ℕ → ContextPlan → Type 0
Shared window plan =
    (total_chars plan.sections ≤ max_total_chars)
    × (plan.budget.system_prompt_est ≡ estimate plan.sections)
    × (plan.budget.reserved_output ≡ min 32_000 (window / 4))
    × (plan.budget.system_prompt_est + plan.budget.reserved_output ≤ window
        → plan.budget.available + plan.budget.system_prompt_est + plan.budget.reserved_output
          ≡ window)
    × (window ≤ plan.budget.system_prompt_est + plan.budget.reserved_output
        → plan.budget.available ≡ 0)
