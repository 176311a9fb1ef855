-- ===== src/Patch/Decoder/Skip.antt =====
-- Skipping the hunks that are left of a chapter.
use perfscope.Base.{
  ℕ, zero, suc, ◌+◌, ◌≤◌, ◌<◌, ◌≡◌, refl, ap, ◌∙◌, ◌⊎◌, inl, inr, true, false, List, [], ◌∷◌,
  Option, none, some, Text, arith, length, length-append, print_lines, Bool-cases,
}
use perfscope.Base.Result.{Result, ok, err, ◌>>=◌}
use perfscope.Patch.Hunk.{new_hunk}
use perfscope.Patch.Hunk.Lines.{is_reducible}
use perfscope.Patch.Hunk.Reduce.{all_control}
use perfscope.Patch.Stream.{StreamError, Decoder, next_line, unget_line}
use perfscope.Patch.Stream.Lines.{At, Got-At, unget_line-At, next_line-Gives, next_line-end}
use perfscope.Patch.Stream.Shorter.{IsReadError, Onward, Steps, next_line-Steps, unget_line_lem}
use perfscope.Patch.Decoder.{opens_section, skip_loop, skip_rest_of_hunks}
use perfscope.Patch.Decoder.Printed.{HunkText, hunk_header, print_hunks, unreduced, AreHunkTexts}
use perfscope.Patch.Decoder.Hunks.{IsBoundary}

control-opens_section : (s : Text) → all_control s ≡ true → opens_section s ≡ false
unfolding opens_section
control-opens_section [] h = refl
control-opens_section (c ∷ s) h = ground (arith, h)

seq-opens_section : (t : HunkText) → is_reducible (unreduced t) ≡ true → opens_section t.seq ≡ false
unfolding new_hunk
seq-opens_section t r = control-opens_section t.seq (ground (arith, r))

header-opens_section : (t : HunkText) → opens_section (hunk_header t) ≡ false
unfolding opens_section
header-opens_section t = refl

length-print_lines : (ls : List Text) → length ls ≤ length (print_lines ls)
length-print_lines [] = omega arith
length-print_lines (l ∷ ls) =
    omega (arith, length-append l (b'\n' ∷ print_lines ls), length-print_lines ls)

At-length : (d : Decoder) (ls : List Text) → At d ls → length ls < length d.rest + 2
At-length d ls (inl (f, e)) = rw e (omega (arith, length-print_lines ls))
At-length d ls (inr (behind, f, e, r, n)) = rw (e, r) (omega (arith, length-print_lines behind))

-- The round behind a call of next_line.
abbrev skip_line : ℕ → Option Text × Decoder → Result StreamError Decoder
skip_line fuel (none, d) = ok d
skip_line fuel (some line, d) = elim (opens_section line) [
  | true ↦ ok (unget_line d)
  | false ↦ skip_loop fuel d
]

skip_loop-step :
    (fuel : ℕ) (d : Decoder) → skip_loop (suc fuel) d ≡ (next_line d >>= λ r. skip_line fuel r)
unfolding skip_loop
skip_loop-step fuel d = go (next_line d)
  where
    go :
        (r : Result StreamError (Option Text × Decoder))
        → (r >>= λ q. elim q.0 [
          | none ↦ ok q.1
          | some line ↦ elim (opens_section line) [
            | true ↦ ok (unget_line q.1)
            | false ↦ skip_loop fuel q.1
          ]
        ])
          ≡ (r >>= λ q. skip_line fuel q)
    go (err e) = refl
    go (ok (none, d')) = refl
    go (ok (some l, d')) = refl

skip_loop-skips :
    (fuel : ℕ) (d : Decoder) (ts : List HunkText) (ls : List Text)
    → AreHunkTexts ts
    → IsBoundary ls
    → At d (print_hunks ts ls)
    → length (print_hunks ts ls) < fuel
    → (d' : Decoder) × (skip_loop fuel d ≡ ok d') × At d' ls
skip_loop-skips zero d ts ls w b at f = absurd (omega arith)
skip_loop-skips (suc zero) d (t ∷ ts) ls w b at f = absurd (omega arith)
skip_loop-skips (suc fuel) d [] [] w b at f =
    let (d', run, left, _) = next_line-end d at in (d', rw (skip_loop-step fuel d, run), left)
skip_loop-skips (suc fuel) d [] (l ∷ ls) w b at f =
    let (d', run, got) = next_line-Gives d l ls b.1 at in
    (unget_line d', rw (skip_loop-step fuel d, run, skip_line, b.0), unget_line-At d' l ls got)
skip_loop-skips (suc (suc fuel)) d (t ∷ ts) ls w b at f =
    let rest = print_hunks ts ls in
    let (d1, run1, got1) = next_line-Gives d (hunk_header t) (t.seq ∷ rest) w.0.header at in
    let (d2, run2, got2) =
      next_line-Gives d1 t.seq rest w.0.seq (Got-At d1 (hunk_header t) (t.seq ∷ rest) got1) in
    let (d', run, left) =
      skip_loop-skips fuel d2 ts ls w.1 b (Got-At d2 t.seq rest got2) (omega arith) in
    let opens_header = header-opens_section t in
    (
      d',
      rw
          (
            skip_loop-step (suc fuel) d,
            run1,
            skip_line,
            opens_header,
            skip_loop-step fuel d1,
            run2,
            skip_line,
            seq-opens_section t w.0.reducible,
          )
          run,
      left,
    )

-- From anywhere in the printed hunks of a chapter, skip_rest_of_hunks ends with the decoder at the
-- header of the next section, or at the end of the file.
pub skip_rest_of_hunks-skips :
    (d : Decoder) (ts : List HunkText) (ls : List Text)
    → AreHunkTexts ts
    → IsBoundary ls
    → At d (print_hunks ts ls)
    → (d' : Decoder) × (skip_rest_of_hunks d ≡ ok d') × At d' ls
unfolding skip_rest_of_hunks
skip_rest_of_hunks-skips d ts ls w b at =
    skip_loop-skips (length d.rest + 2) d ts ls w b at (At-length d (print_hunks ts ls) at)

-- Behind the loop the header of the next section has been put back, or next_line has given a null pointer
-- for an empty line or the end of the file; or fgetline has failed.
abbrev pub Stopped : Result StreamError Decoder → Type 0
Stopped (ok d) =
    ((d.rewind ≡ true) × (opens_section d.buf ≡ true)) ⊎ ((d.rewind ≡ false) × (d.readchars ≡ 0))
Stopped (err e) = IsReadError e

step-Stopped :
    (fuel : ℕ) (d : Decoder) (r : Result StreamError (Option Text × Decoder))
    → Steps d r
    → ((d' : Decoder) (l : Text) → Onward d d' l → Stopped (skip_loop fuel d'))
    → Stopped (r >>= λ q. skip_line fuel q)
step-Stopped fuel d (err e) w again = w
step-Stopped fuel d (ok (none, d')) w again = inr w
step-Stopped fuel d (ok (some l, d')) w again = elim (Bool-cases (opens_section l)) [
  | inl o ↦
      let (back, same) = unget_line_lem d' in
      rw (skip_line, o) (inl (back, ap opens_section (same ∙ w.holds) ∙ o))
  | inr o ↦ rw (skip_line, o) (again d' l w)
]

skip_loop-Stopped :
    (fuel : ℕ) (d : Decoder) → d.rewind ≡ false → length d.rest < fuel → Stopped (skip_loop fuel d)
skip_loop-Stopped zero d f h = absurd (omega arith)
skip_loop-Stopped (suc fuel) d f h = rw (skip_loop-step fuel d) (
    step-Stopped fuel d (next_line d) (next_line-Steps d)
      (λ d' l w. skip_loop-Stopped fuel d' w.fresh (ground (arith, w.shorter f))))

counted : (fuel n : ℕ) → n + 1 ≡ fuel → n + 2 ≡ suc fuel
counted fuel n e = omega arith

-- On any file and from any state of the decoder skip_rest_of_hunks ends. It stops at a line that opens a
-- section, and then the flag for a line that is put back is set and the buffer holds this line; or at a
-- line of no characters or the end of the file, with the flag not set; or with an error of fgetline,
-- for a line that does not fit the buffer or a file that ends inside a line.
pub skip_rest_of_hunks-Stopped : (d : Decoder) → Stopped (skip_rest_of_hunks d)
unfolding skip_rest_of_hunks
skip_rest_of_hunks-Stopped d = go (length d.rest + 1) (omega arith)
  where
    go : (fuel : ℕ) → length d.rest + 1 ≡ fuel → Stopped (skip_loop (length d.rest + 2) d)
    go fuel e =
        rw (counted fuel (length d.rest) e, skip_loop-step fuel d)
          (step-Stopped fuel d (next_line d) (next_line-Steps d)
            (λ d' l w. skip_loop-Stopped fuel d' w.fresh (ground (arith, w.no_longer, e))))
