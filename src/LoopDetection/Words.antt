-- ===== src/LoopDetection/Words.antt =====
-- What the words of a text are (internal/agent/loop.go, `splitWords`).
use Prim.Native.Char.{Char}
use eclaire.Prelude.{
  ◌≡◌, ◌≢◌, refl, sym, ap, ◌∙◌, Bool, true, false, not, ◌&&◌, List, [], ◌∷◌, String, ◌==◌, eq_iff,
  arith, if◌then◌else◌, Bool-cases, inl, inr, All,
}
use eclaire.Prelude.Text.{text_append, text_append_assoc}
use eclaire.LoopDetection.{is_blank, words_from, split_words}

abbrev pub blank_free : String → Bool
blank_free String.[] = true
blank_free (String.◌∷◌ c s) = not (is_blank c) && blank_free s

abbrev pub unblank : String → String
unblank String.[] = ""
unblank (String.◌∷◌ c s) = if is_blank c then unblank s else String.◌∷◌ c (unblank s)

abbrev pub joined : List String → String
joined [] = ""
joined (w ∷ ws) = text_append w (joined ws)

append_empty : (s : String) → text_append s "" ≡ s
append_empty String.[] = refl
append_empty (String.◌∷◌ c s) = ap (String.◌∷◌ c) (append_empty s)

blank_free-snoc :
    (w : String) (c : Char)
    → is_blank c ≡ false
    → blank_free w ≡ true
    → blank_free (text_append w (String.◌∷◌ c "")) ≡ true
blank_free-snoc String.[] c h e = rw h refl
blank_free-snoc (String.◌∷◌ d w) c h e = ground (arith, e, blank_free-snoc w c h)

snoc_ne : (w : String) (c : Char) → text_append w (String.◌∷◌ c "") ≢ ""
snoc_ne String.[] c h = cc
snoc_ne (String.◌∷◌ d w) c h = cc

words_from-joined : (w s : String) → joined (words_from w s) ≡ text_append w (unblank s)
unfolding words_from
words_from-joined w String.[] = ground (arith, eq_iff w "", append_empty w)
words_from-joined w (String.◌∷◌ c s) = elim (Bool-cases (is_blank c)) [
  | inl e ↦ elim (Bool-cases (w == "")) [
    | inl f ↦
        rw (e, f)
          (words_from-joined "" s ∙ sym (ap (λ v. text_append v (unblank s)) ((eq_iff w "").0 f)))
    | inr f ↦ rw (e, f) (ap (text_append w) (words_from-joined "" s))
  ]
  | inr e ↦ rw e (
      words_from-joined (text_append w (String.◌∷◌ c "")) s
      ∙ text_append_assoc w (String.◌∷◌ c "") (unblank s))
]

abbrev pub IsWord : String → Type 0
IsWord w = (w ≢ "") × (blank_free w ≡ true)

words_from-IsWord : (w s : String) → blank_free w ≡ true → All IsWord (words_from w s)
unfolding words_from
words_from-IsWord w String.[] h = elim (Bool-cases (w == "")) [
  | inl e ↦ rw e tt
  | inr e ↦ rw e ((λ k. ground (arith, e, k, eq_iff w ""), h), tt)
]
words_from-IsWord w (String.◌∷◌ c s) h = elim (Bool-cases (is_blank c)) [
  | inl e ↦ elim (Bool-cases (w == "")) [
    | inl f ↦ rw (e, f) (words_from-IsWord "" s refl)
    | inr f ↦ rw (e, f) ((λ k. ground (arith, f, k, eq_iff w ""), h), words_from-IsWord "" s refl)
  ]
  | inr e ↦ rw e (words_from-IsWord _ s (blank_free-snoc w c e h))
]

-- The words of a text are not empty and have no blank, and side by side they are the text without its
-- blanks.
pub split_words-outcome :
    (text : String) → All IsWord (split_words text) × (joined (split_words text) ≡ unblank text)
unfolding split_words
split_words-outcome text = (words_from-IsWord "" text refl, words_from-joined "" text)
