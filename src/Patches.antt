-- ===== src/Patches.antt =====
-- The tool that applies a unified diff (internal/tool/patch.go). Texts are lists of code points: Go
-- looks at the first byte of a line, which is that of the first character where it is a sign. The
-- reading and writing of the file are left out.
pub mod RoundTrip
mod Tests
use eclaire.Prelude.{
  ℕ, zero, suc, ◌+◌, ◌-◌, ◌≤◌, Bool, true, false, not, ◌&&◌, ◌||◌, Option, none, some, List, [],
  ◌∷◌, ◌++◌, ltb, leb, eqb, if◌then◌else◌, length, take, drop,
}
use eclaire.Prelude.Text.{Chars, codes, same, split, fields, cut, contains, trim_space, atoi}
use eclaire.Prelude.Times.{ℤ, pos, negsuc}

pub record DiffLine : Type 0 where
  pub op : ℕ
  pub text : Chars

pub record Hunk : Type 0 where
  pub old_start : ℤ
  pub old_count : ℤ
  pub new_start : ℤ
  pub new_count : ℤ
  pub lines : List DiffLine

abbrev pub at_sign : ℕ
at_sign = 64

abbrev pub has_at_signs : Chars → Bool
has_at_signs (a ∷ b ∷ s) = eqb a at_sign && eqb b at_sign
has_at_signs _ = false

-- What stands before the first "@@", or all of the line.
abbrev pub before_at_signs : Chars → Chars
before_at_signs [] = []
before_at_signs (c ∷ s) =
    let rest = before_at_signs s in if has_at_signs (c ∷ s) then [] else c ∷ rest

-- strings.TrimPrefix for one character
abbrev pub trim_sign : ℕ → Chars → Chars
trim_sign sign [] = []
trim_sign sign (c ∷ s) = if eqb c sign then s else c ∷ s

-- A start and a count, which is 1 where it is left out.
unfoldable pub parse_range : Chars → ℤ × ℤ
parse_range s =
    if contains 44 s
    then (let (start, count) = cut 44 s in (atoi start, atoi count))
    else (atoi s, pos 1)

header_of : List Chars → Option Hunk
unfolding parse_range
header_of [] = none
header_of (old ∷ []) = none
header_of (old ∷ new ∷ rest) =
    let (old_start, old_count) = parse_range (trim_sign b'-' old) in
    let (new_start, new_count) = parse_range (trim_sign b'+' new) in
    some (record {
      old_start = old_start;
      old_count = old_count;
      new_start = new_start;
      new_count = new_count;
      lines = [];
    })

abbrev pub after_at_signs : Chars → Chars
after_at_signs s = if has_at_signs s then drop 2 s else s

unfoldable pub parse_hunk_header : Chars → Option Hunk
unfolding header_of
parse_hunk_header line =
    header_of (fields (trim_space (before_at_signs (trim_space (after_at_signs line)))))

-- A line whose first character is no sign is a line of context, as a whole.
unfoldable pub parse_line : Chars → DiffLine
parse_line [] = record { op = b' '; text = [] }
parse_line (c ∷ s) =
    if eqb c b'+' || (eqb c b'-' || eqb c b' ')
    then record { op = c; text = s }
    else record { op = b' '; text = c ∷ s }

abbrev close : Option Hunk → List Hunk
close none = []
close (some h) = h ∷ []

add_line : DiffLine → Option Hunk → Option Hunk
add_line l none = none
add_line l (some h) = some (record h { lines = h.lines ++ l ∷ [] })

-- A header ends the open hunk.
opened : Option Hunk → Option Hunk → (Option Hunk → Option (List Hunk)) → Option (List Hunk)
opened current none rest = none
opened current (some h) rest = elim (rest (some h)) [
  | none ↦ none
  | some hs ↦ some (close current ++ hs)
]

-- The loop over the lines, with the hunk that is open, if there is one; lines before the first are
-- skipped. `none` is the error of a header.
unfoldable pub parse_lines : List Chars → Option Hunk → Option (List Hunk)
unfolding add_line opened
parse_lines [] current = some (close current)
parse_lines (l ∷ ls) current =
    let more = parse_lines ls (add_line (parse_line l) current) in
    let next = opened current (parse_hunk_header l) (parse_lines ls) in
    if has_at_signs l then next else more

unfoldable pub parse_hunks : Chars → Option (List Hunk)
parse_hunks patch = parse_lines (split 10 patch) none

-- The lines that a hunk puts in, and the number of lines that it replaces.
unfoldable pub new_lines : List DiffLine → List Chars
new_lines [] = []
new_lines (l ∷ ls) = if eqb l.op b' ' || eqb l.op b'+' then l.text ∷ new_lines ls else new_lines ls

unfoldable pub old_consumed : List DiffLine → ℕ
old_consumed [] = 0
old_consumed (l ∷ ls) =
    if eqb l.op b' ' || eqb l.op b'-' then suc (old_consumed ls) else old_consumed ls

-- `h.oldStart - 1 + offset`, where the offset is `added` less `removed`, and not below 0.
unfoldable pub position : ℤ → ℕ → ℕ → ℕ
position (pos n) added removed = (n + added) - (1 + removed)
position (negsuc n) added removed = added - (n + (2 + removed))

-- One hunk; `none` where the position is behind the end, for which Go slices beyond the length.
unfoldable pub apply_hunk : Hunk → ℕ → ℕ → List Chars → Option (List Chars)
apply_hunk h added removed lines =
    let at = position h.old_start added removed in
    if leb at (length lines)
    then some (take at lines ++ (new_lines h.lines ++ drop (at + old_consumed h.lines) lines))
    else none

unfoldable pub apply_loop : List Hunk → ℕ → ℕ → List Chars → Option (List Chars)
apply_loop [] added removed lines = some lines
apply_loop (h ∷ hs) added removed lines = elim (apply_hunk h added removed lines) [
  | none ↦ none
  | some result ↦
      apply_loop hs (added + length (new_lines h.lines)) (removed + old_consumed h.lines) result
]

unfoldable pub apply_hunks : List Chars → List Hunk → Option (List Chars)
apply_hunks original hunks = apply_loop hunks 0 0 original
