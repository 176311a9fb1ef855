-- ===== src/Patch/Decoder/Hunks.antt =====
-- Reading the hunks of a printed chapter.
use perfscope.Base.{
  ℕ, zero, suc, ◌<◌, ◌≡◌, refl, sym, ap, ◌∙◌, true, false, List, [], ◌∷◌, ◌++◌, append-nil, Option,
  none, some, Text, arith, length, ltb, ◌==◌, u32_mod,
}
use perfscope.Base.Result.{Result, ok}
use perfscope.Patch.Number.{decimal, ends_number, parse_int-decimal}
use perfscope.Patch.Hunk.{Hunk, new_hunk, reduce}
use perfscope.Patch.Hunk.Lines.{reduce_decides}
use perfscope.Patch.Stream.{StreamError, Decoder, unget_line}
use perfscope.Patch.Stream.Lines.{
  FitsBuffer, At, Got-At, unget_line-At, next_line-Gives, next_line-end,
}
use perfscope.Patch.Decoder.{
  opens_section, positive_int, hunk_lines, hunk_body, next_hunk, read_hunks,
}
use perfscope.Patch.Decoder.Printed.{
  HunkText, hunk_header, print_hunks, unreduced, IsLineNumber, IsHunkText, AreHunkTexts, ReadHunks,
}

positive_int-number :
    (ds rest : Text)
    → IsLineNumber ds
    → ends_number rest ≡ true
    → positive_int (ds ++ rest) ≡ ok (decimal 0 ds, rest)
unfolding positive_int
positive_int-number ds rest w e =
    let fits : ltb (decimal 0 ds) u32_mod ≡ true = ground (arith, w.bounded) in
    let nonzero : (decimal 0 ds == 0) ≡ false = ground (arith, w.positive) in
    rw (positive_int, parse_int-decimal ds rest w.digits e, fits, nonzero)

hunk_lines-numbers :
    (old new : Text)
    → IsLineNumber old
    → IsLineNumber new
    → hunk_lines (old ++ b',' ∷ new) ≡ ok (decimal 0 old, decimal 0 new)
unfolding hunk_lines
hunk_lines-numbers old new v w =
    let second : positive_int new ≡ ok (decimal 0 new, []) =
      ap positive_int (sym (append-nil new)) ∙ positive_int-number new [] w refl in
    rw (hunk_lines, positive_int-number old (b',' ∷ new) v refl, second)

-- What a call gives, with the lines that are left.
abbrev pub Leaves {ℓ} :
    {A : Type ℓ} → Result StreamError (Option A × Decoder) → Option A → List Text → Type ℓ
Leaves call a ls = (d : Decoder) × (call ≡ ok (a, d)) × At d ls

hunk_body-reads :
    (n : ℕ × ℕ) (d : Decoder) (seq : Text) (ls : List Text) (h : Hunk)
    → FitsBuffer seq
    → At d (seq ∷ ls)
    → reduce (new_hunk n.0 n.1 seq) ≡ ok h
    → Leaves (hunk_body n d) (some h) ls
unfolding hunk_body
hunk_body-reads n d seq ls h w at e =
    let (d', run, got) = next_line-Gives d seq ls w at in
    (d', rw (hunk_body, run, e), Got-At d' seq ls got)

-- The next hunk of a chapter is the reduction of the one that was printed.
pub next_hunk-reads :
    (d : Decoder) (t : HunkText) (ls : List Text)
    → IsHunkText t
    → At d (hunk_header t ∷ t.seq ∷ ls)
    → (h : Hunk) × (reduce (unreduced t) ≡ ok h) × Leaves (next_hunk d) (some h) ls
unfolding next_hunk opens_section
next_hunk-reads d t ls w at =
    let (h, reduced) = (reduce_decides (unreduced t)).0 w.reducible in
    let (d1, run, got) = next_line-Gives d (hunk_header t) (t.seq ∷ ls) w.header at in
    let (d2, body, left) =
      hunk_body-reads (decimal 0 t.old, decimal 0 t.new) d1 t.seq ls h w.seq
        (Got-At d1 (hunk_header t) (t.seq ∷ ls) got) reduced in
    (h, reduced, (d2, rw (next_hunk, run, hunk_lines-numbers t.old t.new w.old w.new) body, left))

-- The header of the next section is put back.
pub next_hunk-stops :
    (d : Decoder) (l : Text) (ls : List Text)
    → FitsBuffer l
    → opens_section l ≡ true
    → At d (l ∷ ls)
    → Leaves (next_hunk d) none (l ∷ ls)
unfolding next_hunk
next_hunk-stops d l ls w o at =
    let (d', run, got) = next_line-Gives d l ls w at in
    (unget_line d', rw (next_hunk, run, o), unget_line-At d' l ls got)

pub next_hunk-end : (d : Decoder) → At d [] → Leaves (next_hunk d) none []
unfolding next_hunk
next_hunk-end d at = let (d', run, left, _) = next_line-end d at in (d', rw (next_hunk, run), left)

-- Nothing follows, or a section does.
abbrev pub IsBoundary : List Text → Type 0
IsBoundary [] = Unit {0}
IsBoundary (l ∷ _) = (opens_section l ≡ true) × FitsBuffer l

pub next_hunk-boundary :
    (d : Decoder) (ls : List Text) → IsBoundary ls → At d ls → Leaves (next_hunk d) none ls
next_hunk-boundary d [] b at = next_hunk-end d at
next_hunk-boundary d (l ∷ ls) b at = next_hunk-stops d l ls b.1 b.0 at

pub read_hunks-ReadHunks :
    (fuel : ℕ) (d : Decoder) (ts : List HunkText) (ls : List Text)
    → AreHunkTexts ts
    → IsBoundary ls
    → At d (print_hunks ts ls)
    → length (print_hunks ts ls) < fuel
    → (hs : List Hunk) × (d' : Decoder) × (read_hunks fuel d ≡ ok (hs, d'))
      × ReadHunks ts hs
      × At d' ls
unfolding read_hunks
read_hunks-ReadHunks zero d ts ls w b at f = absurd (omega arith)
read_hunks-ReadHunks (suc fuel) d [] ls w b at f =
    let (d', run, left) = next_hunk-boundary d ls b at in ([], d', rw (read_hunks, run), tt, left)
read_hunks-ReadHunks (suc fuel) d (t ∷ ts) ls w b at f =
    let (h, reduced, call) = next_hunk-reads d t (print_hunks ts ls) w.0 at in
    let (d1, run, left) = call in
    let (hs, d2, rest, read, end) = read_hunks-ReadHunks fuel d1 ts ls w.1 b left (omega arith) in
    (h ∷ hs, d2, rw (read_hunks, run, rest), (reduced, read), end)
