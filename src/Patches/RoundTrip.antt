-- ===== src/Patches/RoundTrip.antt =====
-- A patch made from an edit gives the edited file (internal/tool/patch.go, `applyHunks`).
use eclaire.Prelude.{
  ◌≡◌, refl, sym, ap, ◌∙◌, ℕ, zero, suc, ◌+◌, Option, some, none, List, [], ◌∷◌, ◌++◌, leb,
  if◌then◌else◌, if-cases, length, take, drop, arith, length-append, All, ◌<◌,
}
use eclaire.Prelude.Text.{Chars}
use eclaire.Prelude.Times.{pos}
use eclaire.Patches.{
  DiffLine, Hunk, new_lines, old_consumed, position, apply_hunk, apply_loop, apply_hunks,
}

-- A line of an edit.
pub data Change : Type 0 where
  keep remove insert : Chars → Change

-- A part of an edit: lines that no hunk mentions, and the lines of a hunk.
pub record Part : Type 0 where
  pub untouched : List Chars
  pub changes : List Change

-- The lines as a patch writes them.
abbrev pub lines_of : List Change → List DiffLine
lines_of [] = []
lines_of (keep text ∷ cs) = record { op = b' '; text = text } ∷ lines_of cs
lines_of (remove text ∷ cs) = record { op = b'-'; text = text } ∷ lines_of cs
lines_of (insert text ∷ cs) = record { op = b'+'; text = text } ∷ lines_of cs

-- The lines before and after the changes.
abbrev pub old_text : List Change → List Chars
old_text [] = []
old_text (keep text ∷ cs) = text ∷ old_text cs
old_text (remove text ∷ cs) = text ∷ old_text cs
old_text (insert text ∷ cs) = old_text cs

abbrev pub new_text : List Change → List Chars
new_text [] = []
new_text (keep text ∷ cs) = text ∷ new_text cs
new_text (remove text ∷ cs) = new_text cs
new_text (insert text ∷ cs) = text ∷ new_text cs

-- The file before and after the edit, which ends with lines that no hunk mentions.
abbrev pub old_file : List Part → List Chars → List Chars
old_file [] tail = tail
old_file (p ∷ ps) tail = p.untouched ++ (old_text p.changes ++ old_file ps tail)

abbrev pub new_file : List Part → List Chars → List Chars
new_file [] tail = tail
new_file (p ∷ ps) tail = p.untouched ++ (new_text p.changes ++ new_file ps tail)

-- Where a range of a unified diff starts behind `before` lines: at its first line, counted from 1, and
-- an empty range at the line before it.
abbrev pub start_of : ℕ → ℕ → ℕ
start_of zero before = before
start_of (suc count) before = suc before

-- The hunks of a unified diff: `seen` lines of the old file and `made` lines of the new file stand
-- before.
abbrev pub hunks_of : ℕ → ℕ → List Part → List Hunk
hunks_of seen made [] = []
hunks_of seen made (p ∷ ps) =
    let old = seen + length p.untouched in
    let new = made + length p.untouched in
    record {
      old_start = pos (start_of (length (old_text p.changes)) old);
      old_count = pos (length (old_text p.changes));
      new_start = pos (start_of (length (new_text p.changes)) new);
      new_count = pos (length (new_text p.changes));
      lines = lines_of p.changes;
    }
    ∷ hunks_of (old + length (old_text p.changes)) (new + length (new_text p.changes)) ps

consumed-length : (cs : List Change) → old_consumed (lines_of cs) ≡ length (old_text cs)
unfolding old_consumed
consumed-length [] = refl
consumed-length (keep text ∷ cs) = omega (arith, consumed-length cs)
consumed-length (remove text ∷ cs) = omega (arith, consumed-length cs)
consumed-length (insert text ∷ cs) = consumed-length cs

inserted-text : (cs : List Change) → new_lines (lines_of cs) ≡ new_text cs
unfolding new_lines
inserted-text [] = refl
inserted-text (keep text ∷ cs) = ap (◌∷◌ text) (inserted-text cs)
inserted-text (remove text ∷ cs) = inserted-text cs
inserted-text (insert text ∷ cs) = ap (◌∷◌ text) (inserted-text cs)

take-append : (xs ys : List Chars) → take (length xs) (xs ++ ys) ≡ xs
take-append [] ys = refl
take-append (x ∷ xs) ys = ap (◌∷◌ x) (take-append xs ys)

drop-append : (xs ys : List Chars) → drop (length xs) (xs ++ ys) ≡ ys
drop-append [] ys = refl
drop-append (x ∷ xs) ys = drop-append xs ys

append_assoc : (xs ys zs : List Chars) → (xs ++ ys) ++ zs ≡ xs ++ (ys ++ zs)
append_assoc [] ys zs = refl
append_assoc (x ∷ xs) ys zs = ap (◌∷◌ x) (append_assoc xs ys zs)

-- A hunk at the end of `front` replaces its old lines.
apply_hunk-at :
    (h : Hunk) (cs : List Change) (a r : ℕ) (front rest : List Chars)
    → h.lines ≡ lines_of cs
    → position h.old_start a r ≡ length front
    → apply_hunk h a r (front ++ (old_text cs ++ rest)) ≡ some ((front ++ new_text cs) ++ rest)
unfolding apply_hunk
apply_hunk-at h cs a r front rest is at =
    let all = front ++ (old_text cs ++ rest) in
    let size : length front + old_consumed h.lines ≡ length (front ++ old_text cs) =
      omega (arith, (ap old_consumed is ∙ consumed-length cs), length-append front (old_text cs)) in
    let dropped : drop (length front + old_consumed h.lines) all ≡ rest =
      ap (λ (n : ℕ). drop n all) size
      ∙ ap (drop (length (front ++ old_text cs))) (sym (append_assoc front (old_text cs) rest))
      ∙ drop-append (front ++ old_text cs) rest in
    ap
      (λ (n : ℕ).
        if leb n (length all)
        then some (take n all ++ (new_lines h.lines ++ drop (n + old_consumed h.lines) all))
        else none)
      at
    ∙ if-cases (λ (o : Option (List Chars)). o ≡ some ((front ++ new_lines h.lines) ++ rest))
        (leb (length front) (length all)) _ _
        (λ e. ap some (
          ap
            (λ (xs : List Chars).
              xs ++ (new_lines h.lines ++ drop (length front + old_consumed h.lines) all))
            (take-append front (old_text cs ++ rest))
          ∙ ap (λ (xs : List Chars). front ++ (new_lines h.lines ++ xs)) dropped
          ∙ sym (append_assoc front (new_lines h.lines) rest)))
        (λ e. absurd (ground (arith, e, length-append front (old_text cs ++ rest))))
    ∙ ap (λ (xs : List Chars). some ((front ++ xs) ++ rest)) (ap new_lines is ∙ inserted-text cs)

start-suc : (count before : ℕ) → 0 < count → start_of count before ≡ suc before
start-suc zero before h = absurd (omega (arith, h))
start-suc (suc count) before h = refl

position-suc : (before a r n : ℕ) → before + a ≡ n + r → position (pos (suc before)) a r ≡ n
unfolding position
position-suc before a r n h = omega (arith, h)

loop-new_file :
    (ps : List Part) (tail front : List Chars) (seen made a r : ℕ)
    → All (λ (p : Part). 0 < length (old_text p.changes)) ps
    → length front ≡ made
    → made + r ≡ seen + a
    → apply_loop (hunks_of seen made ps) a r (front ++ old_file ps tail)
      ≡ some (front ++ new_file ps tail)
unfolding apply_loop
loop-new_file [] tail front seen made a r h e k = refl
loop-new_file (p ∷ ps) tail front seen made a r h e k =
    let u = p.untouched in
    let old = seen + length u in
    let new = made + length u in
    let hunk : Hunk = record {
      old_start = pos (start_of (length (old_text p.changes)) old);
      old_count = pos (length (old_text p.changes));
      new_start = pos (start_of (length (new_text p.changes)) new);
      new_count = pos (length (new_text p.changes));
      lines = lines_of p.changes;
    } in
    let next : Option (List Chars) → Option (List Chars) = λ o. elim o [
      | none ↦ none
      | some result ↦
          apply_loop
            (hunks_of (old + length (old_text p.changes)) (new + length (new_text p.changes)) ps)
            (a + length (new_lines (lines_of p.changes))) (r + old_consumed (lines_of p.changes))
            result
    ] in
    let here : position hunk.old_start a r ≡ length (front ++ u) =
      ap (λ (n : ℕ). position (pos n) a r) (start-suc (length (old_text p.changes)) old h.0)
      ∙ position-suc old a r (length (front ++ u)) (omega (arith, k, e, length-append front u)) in
    ap (λ (xs : List Chars). next (apply_hunk hunk a r xs))
      (sym (append_assoc front u (old_text p.changes ++ old_file ps tail)))
    ∙ ap next (apply_hunk-at hunk p.changes a r (front ++ u) (old_file ps tail) refl here)
    ∙ loop-new_file ps tail ((front ++ u) ++ new_text p.changes) (old + length (old_text p.changes))
        (new + length (new_text p.changes)) (a + length (new_lines (lines_of p.changes)))
        (r + old_consumed (lines_of p.changes)) h.1
        (omega (arith, e, length-append front u, length-append (front ++ u) (new_text p.changes)))
        (omega (arith, k, consumed-length p.changes, ap length (inserted-text p.changes)))
    ∙ ap some (
        append_assoc (front ++ u) (new_text p.changes) (new_file ps tail)
        ∙ append_assoc front u (new_text p.changes ++ new_file ps tail))

-- The hunks of a unified diff, each of which removes or keeps a line, applied to the old file give
-- the new file: the lines between the hunks are kept, and the offset that each hunk leaves moves the
-- later ones to their place.
pub apply_hunks-new_file :
    (ps : List Part) (tail : List Chars)
    → All (λ (p : Part). 0 < length (old_text p.changes)) ps
    → apply_hunks (old_file ps tail) (hunks_of 0 0 ps) ≡ some (new_file ps tail)
unfolding apply_hunks
apply_hunks-new_file ps tail h = loop-new_file ps tail [] 0 0 0 0 h refl (omega arith)
