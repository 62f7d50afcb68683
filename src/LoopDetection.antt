-- ===== src/LoopDetection.antt =====
-- Detection of an agent that repeats itself (internal/agent/loop.go, `isLooping`, `isDegenerate`,
-- `splitWords`). A signature of a turn's tool calls is a text; a `counts` map of Go reads 0 for a
-- key that it does not have.
pub mod Laws
pub mod Words
mod Tests
use Prim.Native.Char.{Char, code}
use Prim.Native.String.{len}
use eclaire.Prelude.{
  ℕ, zero, suc, ◌+◌, ◌-◌, Bool, true, false, ◌&&◌, ◌||◌, Option, none, some, List, [], ◌∷◌, String,
  ◌==◌, ltb, eqb, if◌then◌else◌, length, drop,
}
use eclaire.Prelude.Dict.{Dict, get, put}
use eclaire.Prelude.Text.{text_append}

abbrev pub loop_window_size : ℕ
loop_window_size = 10

abbrev pub loop_max_repeats : ℕ
loop_max_repeats = 5

abbrev or_zero : Option ℕ → ℕ
or_zero none = 0
or_zero (some n) = n

abbrev pub count_of : Dict ℕ → String → ℕ
count_of counts k = or_zero (get counts k)

-- The loop over the keys: it stops at the first whose count passes `most`.
unfoldable pub repeats : ℕ → Dict ℕ → List String → Bool
repeats most counts [] = false
repeats most counts (k ∷ ks) =
    let n = suc (count_of counts k) in
    let rest = repeats most (put counts k n) ks in if ltb most n then true else rest

unfoldable pub is_looping : List String → ℕ → ℕ → Bool
is_looping history window_size max_repeats =
    if ltb (length history) window_size
    then false
    else repeats max_repeats [] (drop (length history - window_size) history)

abbrev pub is_blank : Char → Bool
is_blank c = eqb (code c) 32 || (eqb (code c) 9 || (eqb (code c) 10 || eqb (code c) 13))

-- `word` is text[start:i], empty where `start` is -1.
unfoldable pub words_from : String → String → List String
words_from word String.[] = if word == "" then [] else word ∷ []
words_from word (String.◌∷◌ c s) =
    let rest = words_from "" s in
    let more = words_from (text_append word (String.◌∷◌ c "")) s in
    if is_blank c then (if word == "" then rest else word ∷ rest) else more

unfoldable pub split_words : String → List String
split_words text = words_from "" text

abbrev pub spaced : String → String → String
spaced a b = text_append a (text_append " " b)

-- The keys of the four-word n-grams, from the first word on.
unfoldable pub ngrams : List String → List String
ngrams [] = []
ngrams (a ∷ []) = []
ngrams (a ∷ b ∷ []) = []
ngrams (a ∷ b ∷ c ∷ []) = []
ngrams (a ∷ b ∷ c ∷ d ∷ ws) = spaced a (spaced b (spaced c d)) ∷ ngrams (b ∷ c ∷ d ∷ ws)

-- `len text` counts bytes, as in Go.
unfoldable pub is_degenerate : String → ℕ → Bool
is_degenerate text threshold =
    if ltb (len text) 100
    then false
    else if ltb (length (split_words text)) 8
    then false
    else repeats threshold [] (ngrams (split_words text))
