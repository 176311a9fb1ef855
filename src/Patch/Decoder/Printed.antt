-- ===== src/Patch/Decoder/Printed.antt =====
-- A patch file as lib/parser/PatchCompiler/parser.cc prints it: two lines for a patch, two for each
-- chapter and two for each hunk.
use perfscope.Base.{◌<◌, ◌≡◌, true, List, [], ◌∷◌, ◌++◌, Text, u32_mod}
use perfscope.Base.Result.{ok}
use perfscope.Patch.Number.{decimal, AreDigits}
use perfscope.Patch.Hunk.{Hunk, new_hunk, reduce}
use perfscope.Patch.Hunk.Lines.{is_reducible}
use perfscope.Patch.Stream.{pheader, fheader, hheader}
use perfscope.Patch.Stream.Lines.{FitsBuffer}

pub record HunkText : Type 0 where
  pub old : Text
  pub new : Text
  pub seq : Text

pub record ChapterText : Type 0 where
  pub name : Text
  pub hunks : List HunkText

pub record PatchText : Type 0 where
  pub name : Text
  pub chapters : List ChapterText

abbrev pub hunk_header : HunkText → Text
hunk_header t = hheader ++ t.old ++ b',' ∷ t.new

-- Each printer puts its lines in front of others.
abbrev pub print_hunks : List HunkText → List Text → List Text
print_hunks [] ls = ls
print_hunks (t ∷ ts) ls = hunk_header t ∷ t.seq ∷ print_hunks ts ls

abbrev pub print_chapters : List ChapterText → List Text → List Text
print_chapters [] ls = ls
print_chapters (c ∷ cs) ls = fheader ∷ c.name ∷ print_hunks c.hunks (print_chapters cs ls)

abbrev pub print_patches : List PatchText → List Text
print_patches [] = []
print_patches (p ∷ ps) = pheader ∷ p.name ∷ print_chapters p.chapters (print_patches ps)

-- What a hunk holds before it is reduced.
abbrev pub unreduced : HunkText → Hunk
unreduced t = new_hunk (decimal 0 t.old) (decimal 0 t.new) t.seq

-- A number of 32 bits that is not 0.
pub record IsLineNumber (s : Text) : Type 0 where
  pub digits : AreDigits s
  pub positive : 0 < decimal 0 s
  pub bounded : decimal 0 s < u32_mod

pub record IsHunkText (t : HunkText) : Type 0 where
  pub old : IsLineNumber t.old
  pub new : IsLineNumber t.new
  pub reducible : is_reducible (unreduced t) ≡ true
  pub header : FitsBuffer (hunk_header t)
  pub seq : FitsBuffer t.seq

abbrev pub AreHunkTexts : List HunkText → Type 0
AreHunkTexts [] = Unit {0}
AreHunkTexts (t ∷ ts) = IsHunkText t × AreHunkTexts ts

abbrev pub AreChapterTexts : List ChapterText → Type 0
AreChapterTexts [] = Unit {0}
AreChapterTexts (c ∷ cs) = FitsBuffer c.name × AreHunkTexts c.hunks × AreChapterTexts cs

abbrev pub ArePatchTexts : List PatchText → Type 0
ArePatchTexts [] = Unit {0}
ArePatchTexts (p ∷ ps) = FitsBuffer p.name × AreChapterTexts p.chapters × ArePatchTexts ps

-- A hunk that was read is the reduction of what was printed.
abbrev pub ReadHunks : List HunkText → List Hunk → Type 0
ReadHunks [] [] = Unit {0}
ReadHunks [] (_ ∷ _) = ⊥
ReadHunks (_ ∷ _) [] = ⊥
ReadHunks (t ∷ ts) (h ∷ hs) = (reduce (unreduced t) ≡ ok h) × ReadHunks ts hs
