-- ===== src/Prelude/Text.antt =====
-- Texts as lists of code points, and the functions of Go's `strings` and `strconv` that the
-- program walks them with.
use Prim.Native.Nat.{ℕ, zero, suc, ◌+◌, ◌-◌, ◌*◌, ◌/◌, ◌%◌}
use Prim.Native.Char.{Char, code}
use Prim.Native.String.{String}
use mathlib.Core.Path.{◌≡◌, refl, ap, sym, ◌∙◌}
use text.Mathlib.TextEquality.{Char-path}
use native.Mathlib.Omega.{arith}
use mathlib.Core.Bool.{Bool, true, false, not, ◌&&◌, ◌||◌}
use mathlib.Core.Option.{Option, none, some}
use mathlib.Core.List.{List, [], ◌∷◌, ◌++◌, reverse}
use eclaire.Prelude.Tests.{ltb, leb, eqb, if◌then◌else◌}
use eclaire.Prelude.Times.{ℤ, pos, negsuc}

abbrev pub Chars : Type 0
Chars = List ℕ

abbrev pub codes : String → Chars
codes String.[] = []
codes (String.◌∷◌ c s) = code c ∷ codes s

abbrev pub same : Chars → Chars → Bool
same [] [] = true
same [] (y ∷ ys) = false
same (x ∷ xs) [] = false
same (x ∷ xs) (y ∷ ys) = eqb x y && same xs ys

-- unicode.IsSpace, on the white space of Latin-1
abbrev pub is_space : ℕ → Bool
is_space c = (leb 9 c && leb c 13) || (eqb c 32 || (eqb c 0x85 || eqb c 0xa0))

abbrev pub is_digit : ℕ → Bool
is_digit c = leb b'0' c && leb c b'9'

abbrev pub null : Chars → Bool
null [] = true
null (_ ∷ _) = false

-- strings.Fields: `word` is the current field.
fields_from : Chars → Chars → List Chars
fields_from word [] = if null word then [] else word ∷ []
fields_from word (c ∷ s) =
    let rest = fields_from [] s in
    let more = fields_from (word ++ c ∷ []) s in
    if is_space c then (if null word then rest else word ∷ rest) else more

unfoldable pub fields : Chars → List Chars
unfolding fields_from
fields s = fields_from [] s

-- strings.Split at a separator of one character; never empty
split_from : ℕ → Chars → Chars → List Chars
split_from sep word [] = word ∷ []
split_from sep word (c ∷ s) =
    let next = word ∷ split_from sep [] s in
    let more = split_from sep (word ++ c ∷ []) s in if eqb c sep then next else more

unfoldable pub split : ℕ → Chars → List Chars
unfolding split_from
split sep s = split_from sep [] s

-- strings.Contains for one character
unfoldable pub contains : ℕ → Chars → Bool
contains c [] = false
contains c (d ∷ s) = eqb c d || contains c s

-- strings.SplitN(s, sep, 2), where the separator occurs: what stands before and after the first.
unfoldable pub cut : ℕ → Chars → Chars × Chars
cut sep [] = ([], [])
cut sep (c ∷ s) =
    let (before, after) = cut sep s in if eqb c sep then ([], s) else (c ∷ before, after)

abbrev pub trim_left : Chars → Chars
trim_left [] = []
trim_left (c ∷ s) = if is_space c then trim_left s else c ∷ s

-- strings.TrimSpace
unfoldable pub trim_space : Chars → Chars
trim_space s = reverse (trim_left (reverse (trim_left s)))

digits_value : ℕ → Chars → Option ℕ
digits_value n [] = some n
digits_value n (c ∷ s) =
    let rest = digits_value (n * 10 + (c - b'0')) s in if is_digit c then rest else none

-- The integer that ParseInt returns beside its error: 0 for a malformed numeral, the nearest
-- 64-bit integer for one that is out of range.
abbrev positive : Option ℕ → ℤ
positive none = pos 0
positive (some n) = if leb n 9223372036854775807 then pos n else pos 9223372036854775807

abbrev negative : Option ℕ → ℤ
negative none = pos 0
negative (some zero) = pos 0
negative (some (suc n)) = if leb n 9223372036854775807 then negsuc n else negsuc 9223372036854775807

abbrev unsigned : Chars → Option ℕ
unsigned [] = none
unsigned (c ∷ s) = digits_value 0 (c ∷ s)

-- `v, _ := strconv.Atoi(s)`
unfoldable pub atoi : Chars → ℤ
unfolding digits_value
atoi [] = pos 0
atoi (c ∷ s) =
    if eqb c b'-'
    then negative (unsigned s)
    else if eqb c b'+'
    then positive (unsigned s)
    else positive (unsigned (c ∷ s))

pub same_refl : (s : Chars) → same s s ≡ true
same_refl [] = refl
same_refl (c ∷ s) = ground (arith, same_refl s)

pub same_eq : (s t : Chars) → same s t ≡ true → s ≡ t
same_eq [] [] h = refl
same_eq [] (y ∷ ys) h = cc
same_eq (x ∷ xs) [] h = cc
same_eq (x ∷ xs) (y ∷ ys) h = ground (arith, same_eq xs ys)

abbrev pub text_append : String → String → String
text_append String.[] t = t
text_append (String.◌∷◌ c s) t = String.◌∷◌ c (text_append s t)

pub text_append_assoc :
    (s t u : String) → text_append (text_append s t) u ≡ text_append s (text_append t u)
text_append_assoc String.[] t u = refl
text_append_assoc (String.◌∷◌ c s) t u = ap (String.◌∷◌ c) (text_append_assoc s t u)

abbrev cons_to : Char → Option String → Option String
cons_to c none = none
cons_to c (some s) = some (String.◌∷◌ c s)

-- What stands before the first character `sep`, if it occurs.
unfoldable pub text_before : ℕ → String → Option String
text_before sep String.[] = none
text_before sep (String.◌∷◌ c s) =
    let rest = text_before sep s in if eqb (code c) sep then some "" else cons_to c rest

abbrev pub free_of : ℕ → String → Bool
free_of sep String.[] = true
free_of sep (String.◌∷◌ c s) = not (eqb (code c) sep) && free_of sep s

pub text_before-append :
    (s t : String)
    → free_of 58 s ≡ true
    → text_before 58 (text_append s (text_append ":" t)) ≡ some s
unfolding text_before
text_before-append String.[] t h = refl
text_before-append (String.◌∷◌ c s) t h = ground (arith, h, text_before-append s t)

-- The character at an index, as a text.
abbrev nth_text : String → ℕ → String
nth_text String.[] n = ""
nth_text (String.◌∷◌ c s) zero = String.◌∷◌ c ""
nth_text (String.◌∷◌ c s) (suc n) = nth_text s n

abbrev digit_text : ℕ → String
digit_text n = nth_text "0123456789" n

decimal_from : ℕ → ℕ → String
decimal_from zero n = ""
decimal_from (suc fuel) n =
    let rest = decimal_from fuel (n / 10) in
    if ltb n 10 then digit_text n else text_append rest (digit_text (n % 10))

-- %d; a number has at most as many digits as the fuel `suc n`
unfoldable pub decimal : ℕ → String
unfolding decimal_from
decimal n = decimal_from (suc n) n

-- strings.HasPrefix, the prefix first
abbrev pub starts_by : String → String → Bool
starts_by String.[] t = true
starts_by (String.◌∷◌ c s) String.[] = false
starts_by (String.◌∷◌ c s) (String.◌∷◌ d t) = eqb (code c) (code d) && starts_by s t

-- A text begins with `s` exactly when it is `s` and a rest.
pub starts_by-append : (s t : String) → starts_by s (text_append s t) ≡ true
starts_by-append String.[] t = refl
starts_by-append (String.◌∷◌ c s) t = ground (arith, starts_by-append s t)

pub starts_by-rest :
    (s t : String) → starts_by s t ≡ true → (rest : String) × (t ≡ text_append s rest)
starts_by-rest String.[] t h = (t, refl)
starts_by-rest (String.◌∷◌ c s) String.[] h = cc
starts_by-rest (String.◌∷◌ c s) (String.◌∷◌ d t) h =
    let (rest, e) = starts_by-rest s t (ground (arith, h)) in
    (
      rest,
      ap (λ (x : Char). String.◌∷◌ x t) (sym (Char-path c d (ground (arith, h))))
          ∙ ap (String.◌∷◌ c) e,
    )
