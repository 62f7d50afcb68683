-- ===== src/Shell/Limits.antt =====
-- What a buffer of limited size holds (internal/tool/executor.go, `limitedBuffer`).
use eclaire.Prelude.{
  ◌≡◌, refl, sym, ap, ◌∙◌, ℕ, zero, suc, ◌-◌, ◌≤◌, true, List, [], ◌∷◌, ◌++◌, ltb, leb, if-cases,
  length, length-take, length-append, take, arith,
}
use eclaire.Prelude.Text.{Chars}
use eclaire.Shell.{LimitedBuffer, new_buffer, write, write_all}

-- All that is written, in one text.
abbrev pub output : List Chars → Chars
output [] = []
output (p ∷ ps) = p ++ output ps

append_nil : (xs : Chars) → xs ++ [] ≡ xs
append_nil [] = refl
append_nil (x ∷ xs) = ap (◌∷◌ x) (append_nil xs)

append_assoc : (xs ys zs : Chars) → (xs ++ ys) ++ zs ≡ xs ++ (ys ++ zs)
append_assoc [] ys zs = refl
append_assoc (x ∷ xs) ys zs = ap (◌∷◌ x) (append_assoc xs ys zs)

take_none : (n : ℕ) (ys : Chars) → n ≡ 0 → take n ys ≡ []
take_none n ys e = rw e refl

shift :
    (n : ℕ) (xs ys : Chars)
    → take n xs ++ take (n - length xs) ys ≡ take n xs ++ take (suc n - suc (length xs)) ys
shift n xs ys = ap (λ (k : ℕ). take n xs ++ take k ys) (omega arith)

take-append : (n : ℕ) (xs ys : Chars) → take n (xs ++ ys) ≡ take n xs ++ take (n - length xs) ys
take-append zero xs ys = sym (take_none (0 - length xs) ys (omega arith))
take-append (suc n) [] ys = ap (λ (k : ℕ). take k ys) {x = suc n} (omega arith)
take-append (suc n) (x ∷ xs) ys = ap (◌∷◌ x) (take-append n xs ys ∙ shift n xs ys)

take_all : (n : ℕ) (xs : Chars) → length xs ≤ n → take n xs ≡ xs
take_all zero [] h = refl
take_all (suc n) [] h = refl
take_all zero (x ∷ xs) h = absurd (omega (arith, h))
take_all (suc n) (x ∷ xs) h = ap (◌∷◌ x) (take_all n xs (omega (arith, h)))

-- The buffer holds the first bytes of what was written, and stops only when it is full.
abbrev IsPrefix : ℕ → Chars → LimitedBuffer → Type 0
IsPrefix m w lb = (lb.max ≡ m) × (lb.buf ≡ take m w) × (lb.truncated ≡ true → m ≤ length w)

still : (m : ℕ) (w p : Chars) → m ≤ length w → take m (w ++ p) ≡ take m w
still m w p h =
    take-append m w p
    ∙ ap (λ (s : Chars). take m w ++ s) (take_none (m - length w) p (omega (arith, h)))
    ∙ append_nil (take m w)

room :
    (m : ℕ) (w : Chars) (lb : LimitedBuffer)
    → IsPrefix m w lb
    → lb.max - length lb.buf ≡ m - length w
room m w lb h = omega (arith, h.0, ap length h.1, length-take m w)

-- The first bytes of a write that fit.
fits :
    (m : ℕ) (w p : Chars) (lb : LimitedBuffer)
    → IsPrefix m w lb
    → lb.buf ++ take (lb.max - length lb.buf) p ≡ take m (w ++ p)
fits m w p lb h = rw (room m w lb h) (rw h.1 (sym (take-append m w p)))

longer : (m : ℕ) (w p : Chars) → m ≤ length w → m ≤ length (w ++ p)
longer m w p h = omega (arith, h, length-append w p)

write-IsPrefix :
    (m : ℕ) (w p : Chars) (lb : LimitedBuffer) → IsPrefix m w lb → IsPrefix m (w ++ p) (write p lb)
unfolding write
write-IsPrefix m w p lb h =
    let remaining : ℕ = lb.max - length lb.buf in
    if-cases (IsPrefix m (w ++ p)) lb.truncated _ _
      (λ e. (h.0, h.1 ∙ sym (still m w p (h.2 e)), λ t. longer m w p (h.2 e)))
      (λ whole.
        if-cases (IsPrefix m (w ++ p)) (leb remaining 0) _ _
          (λ none_left.
            let gone : m ≤ length w = ground (arith, none_left, room m w lb h) in
            (h.0, h.1 ∙ sym (still m w p gone), λ t. longer m w p gone))
          (λ some_left.
            if-cases (IsPrefix m (w ++ p)) (ltb remaining (length p)) _ _
              (λ e. (
                h.0,
                fits m w p lb h,
                λ t. ground (arith, e, some_left, room m w lb h, length-append w p),
              ))
              (λ e. (
                h.0,
                ap (λ (s : Chars). lb.buf ++ s) (sym (take_all remaining p (ground (arith, e))))
                    ∙ fits m w p lb h,
                λ t. absurd (cc (t, whole)),
              ))))

write_all-IsPrefix :
    (m : ℕ) (w : Chars) (ps : List Chars) (lb : LimitedBuffer)
    → IsPrefix m w lb
    → IsPrefix m (w ++ output ps) (write_all ps lb)
unfolding write_all
write_all-IsPrefix m w [] lb h = rw (append_nil w) h
write_all-IsPrefix m w (p ∷ ps) lb h =
    rw (sym (append_assoc w p (output ps)))
      (write_all-IsPrefix m (w ++ p) ps (write p lb) (write-IsPrefix m w p lb h))

-- However a command splits its output into writes, the buffer holds the first `m` bytes of all of it,
-- and it is marked as truncated only if the output fills it.
pub write_all-first :
    (m : ℕ) (ps : List Chars)
    → let lb = write_all ps (new_buffer m) in
      (lb.buf ≡ take m (output ps)) × (lb.truncated ≡ true → m ≤ length (output ps))
write_all-first m ps =
    let h =
      write_all-IsPrefix m [] ps (new_buffer m)
        (refl, sym (take_all m [] (omega arith)), λ t. absurd (cc t)) in
    (h.1, h.2)
