-- ===== src/Analyzer/Profile/File.antt =====
-- The lines of a profile file: fgetline gives back what was written, as long as a line fits.
use perfscope.Base.{
  IsOneLine, print_lines, ℕ, zero, suc, ◌≤◌, ◌<◌, ◌≡◌, refl, ap, ◌∙◌, List, [], ◌∷◌, ◌++◌, some,
  arith, Text, length, length-append,
}
use perfscope.Analyzer.Profile.{
  SpeFuncType, Profile, empty_profile, binary_search, read_line, lines_from, parse_profile,
  parse_file,
}
use perfscope.Analyzer.Profile.Parse.{
  Segment, AreSegments, print_profile, listed, parse_profile-listed,
}

abbrev pub Fit : List Text → Type 0
Fit [] = Unit {0}
Fit (l ∷ ls) = (IsOneLine l × (length l < 255)) × Fit ls

read_line-line :
    (n : ℕ) (l rest : Text)
    → IsOneLine l
    → length l < n
    → read_line n (l ++ b'\n' ∷ rest) ≡ (l, rest)
unfolding read_line
read_line-line zero l rest w h = absurd (omega arith)
read_line-line (suc n) [] rest w h = refl
read_line-line (suc n) (c ∷ l) rest w h =
    rw (read_line, w.0, read_line-line n l rest w.1 (omega arith))

lines_from-print_lines :
    (fuel : ℕ) (ls : List Text)
    → Fit ls
    → length (print_lines ls) ≤ fuel
    → lines_from fuel (print_lines ls) ≡ ls
unfolding lines_from
lines_from-print_lines zero [] w h = refl
lines_from-print_lines (suc fuel) [] w h = refl
lines_from-print_lines zero (l ∷ ls) w h =
    absurd (omega (arith, length-append l (b'\n' ∷ print_lines ls)))
lines_from-print_lines (suc fuel) ([] ∷ ls) w h =
    ap (λ rest. [] ∷ rest) (lines_from-print_lines fuel ls w.1 (omega arith))
lines_from-print_lines (suc fuel) ((c ∷ l) ∷ ls) w h = rw (
  lines_from,
  read_line-line 255 (c ∷ l) (print_lines ls) w.0.0 w.0.1,
  lines_from-print_lines fuel ls w.1 (omega (arith, length-append l (b'\n' ∷ print_lines ls))),
)

-- A profile file made of segments as they are printed, each line ended and shorter than the buffer,
-- is accepted whenever each type is spelled as one of the types and no line in a segment is the
-- mark; the binary search in the vector of a type then finds exactly the names that stand in a
-- segment of that type, in whatever order, an empty line being no name.
pub parse_file-listed :
    (ss : List Segment)
    → AreSegments ss
    → Fit (print_profile ss)
    → (q : Profile) × (parse_file empty_profile (print_lines (print_profile ss)) ≡ some q)
      × ((t : SpeFuncType) (v : Text) → binary_search (q t) v ≡ listed ss t v)
unfolding parse_file
parse_file-listed ss a f =
    let file = print_lines (print_profile ss) in
    let (q, run, w) = parse_profile-listed ss a in
    let lines = lines_from-print_lines (length file) (print_profile ss) f (omega arith) in
    (q, ap (parse_profile empty_profile) lines ∙ run, w)
