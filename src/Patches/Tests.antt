-- ===== src/Patches/Tests.antt =====
-- Patches at fixed inputs (internal/tool/patch.go).
use eclaire.Prelude.{◌≡◌, refl, ◌<◌, some, List, [], ◌∷◌, String, arith, map, All, length}
use eclaire.Prelude.Text.{Chars, codes, split, fields, trim_space, contains, atoi, cut}
use eclaire.Prelude.Times.{pos}
use eclaire.Patches.{
  Hunk, parse_hunks, parse_lines, apply_hunks, apply_loop, apply_hunk, new_lines, old_consumed,
  position, parse_hunk_header, parse_line,
}
use eclaire.Patches.RoundTrip.{
  Part, old_file, new_file, hunks_of, old_text, keep, remove, insert, apply_hunks-new_file,
}

abbrev lines_of : List String → List Chars
lines_of ss = map codes ss

abbrev three_lines : List Chars
three_lines = lines_of ("one" ∷ "two" ∷ "three" ∷ [])

-- A patch that ends in a line break, as all do: the empty text behind it is read as a line of
-- context, and one more line of the file is replaced by an empty line.
abbrev one_change : String
one_change = "@@ -1,1 +1,1 @@\n-one\n+ONE\n"

abbrev parsed : List Hunk
parsed =
    record {
      old_start = pos 1;
      old_count = pos 1;
      new_start = pos 1;
      new_count = pos 1;
      lines =
          record { op = b'-'; text = codes "one" }
          ∷ record { op = b'+'; text = codes "ONE" }
          ∷ record { op = b' '; text = [] }
          ∷ [];
    }
    ∷ []

trailing_line : parse_hunks (codes one_change) ≡ some parsed
unfolding parse_hunks parse_lines split parse_hunk_header fields trim_space contains parse_line atoi
    cut
trailing_line = refl

loses_line : apply_hunks three_lines parsed ≡ some (lines_of ("ONE" ∷ "" ∷ "three" ∷ []))
unfolding apply_hunks apply_loop apply_hunk position new_lines old_consumed
loses_line = refl

abbrev change : List Part
change =
    record {
      untouched = lines_of ("one" ∷ []);
      changes = keep (codes "two") ∷ insert (codes "2.5") ∷ [];
    }
    ∷ record { untouched = lines_of ("three" ∷ []); changes = remove (codes "four") ∷ [] }
    ∷ []

change_removes_or_keeps : All (λ (p : Part). 0 < length (old_text p.changes)) change
change_removes_or_keeps = (omega arith, (omega arith, tt))

apply_hunks-new_file_example :
    apply_hunks (old_file change (lines_of ("five" ∷ []))) (hunks_of 0 0 change)
    ≡ some (new_file change (lines_of ("five" ∷ [])))
apply_hunks-new_file_example =
    apply_hunks-new_file change (lines_of ("five" ∷ [])) change_removes_or_keeps
