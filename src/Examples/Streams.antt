-- ===== src/Examples/Streams.antt =====
-- A file of two patches, read whole and in part.
use perfscope.Base.{arith, ◌≡◌, refl, List, [], ◌∷◌, codes, Text, print_lines}
use perfscope.Base.Result.{ok}
use perfscope.Patch.Hunk.{Hunk, new_hunk}
use perfscope.Patch.Stream.{Decoder, init, fheader}
use perfscope.Patch.Stream.Lines.{At, FitsBuffer, init-At}
use perfscope.Patch.Decoder.{opens_section, Chapter, read_patches, skip_rest_of_hunks}
use perfscope.Patch.Decoder.Printed.{
  HunkText, ChapterText, PatchText, IsHunkText, AreHunkTexts, ArePatchTexts, print_hunks,
  print_patches,
}
use perfscope.Patch.Decoder.Patches.{ReadPatches, read_patches-print_patches}
use perfscope.Patch.Decoder.Skip.{Stopped, skip_rest_of_hunks-skips, skip_rest_of_hunks-Stopped}

abbrev replaced : HunkText
replaced = record { old = codes "12"; new = codes "15"; seq = codes "~-+~" }

abbrev added : HunkText
added = record { old = codes "100"; new = codes "101"; seq = codes "~++" }

abbrev source : ChapterText
source = record { name = codes "gcc/main.c"; hunks = replaced ∷ added ∷ [] }

abbrev header : ChapterText
header = record { name = codes "gcc/main.h"; hunks = [] }

abbrev pub first_patch : PatchText
first_patch = record { name = codes "1.diff"; chapters = source ∷ header ∷ [] }

abbrev pub file : List PatchText
file = first_patch ∷ record { name = codes "2.diff"; chapters = [] } ∷ []

replaced-IsHunkText : IsHunkText replaced
unfolding new_hunk
replaced-IsHunkText = record {
  old = record { digits = (refl, (refl, tt)); positive = omega arith; bounded = omega arith };
  new = record { digits = (refl, (refl, tt)); positive = omega arith; bounded = omega arith };
  reducible = refl;
  header = record { nonempty = omega arith; one_line = ground arith; short = omega arith };
  seq = record { nonempty = omega arith; one_line = ground arith; short = omega arith };
}

added-IsHunkText : IsHunkText added
unfolding new_hunk
added-IsHunkText = record {
  old = record { digits = ground arith; positive = omega arith; bounded = omega arith };
  new = record { digits = ground arith; positive = omega arith; bounded = omega arith };
  reducible = refl;
  header = record { nonempty = omega arith; one_line = ground arith; short = omega arith };
  seq = record { nonempty = omega arith; one_line = ground arith; short = omega arith };
}

hunks-AreHunkTexts : AreHunkTexts (replaced ∷ added ∷ [])
hunks-AreHunkTexts = (replaced-IsHunkText, (added-IsHunkText, tt))

name-FitsBuffer :
    FitsBuffer (codes "gcc/main.c")
    × FitsBuffer (codes "gcc/main.h")
    × FitsBuffer (codes "1.diff")
    × FitsBuffer (codes "2.diff")
name-FitsBuffer = (
  record { nonempty = omega arith; one_line = ground arith; short = omega arith },
  record { nonempty = omega arith; one_line = ground arith; short = omega arith },
  record { nonempty = omega arith; one_line = ground arith; short = omega arith },
  record { nonempty = omega arith; one_line = ground arith; short = omega arith },
)

pub file-ArePatchTexts : ArePatchTexts file
file-ArePatchTexts = (
  name-FitsBuffer.2,
  (name-FitsBuffer.0, hunks-AreHunkTexts, (name-FitsBuffer.1, tt, tt)),
  (name-FitsBuffer.3, tt, tt),
)

read_patches-print_patches_example :
    (ps : List (Text × List (Chapter × List Hunk))) × (d' : Decoder) × (read_patches 20
        (init 0 (print_lines (print_patches file)))
      ≡ ok (ps, d'))
    × ReadPatches file ps
read_patches-print_patches_example =
    read_patches-print_patches 0 20 file file-ArePatchTexts (omega arith)

-- The hunks of the source file, with another chapter behind them.
abbrev skipped : List Text
skipped = print_hunks (replaced ∷ added ∷ []) (fheader ∷ codes "gcc/main.h" ∷ [])

skip_rest_of_hunks-skips_example :
    (d' : Decoder) × (skip_rest_of_hunks (init 0 (print_lines skipped)) ≡ ok d')
    × At d' (fheader ∷ codes "gcc/main.h" ∷ [])
unfolding opens_section
skip_rest_of_hunks-skips_example =
    skip_rest_of_hunks-skips (init 0 (print_lines skipped)) (replaced ∷ added ∷ [])
      (fheader ∷ codes "gcc/main.h" ∷ []) hunks-AreHunkTexts
      (refl, record { nonempty = omega arith; one_line = ground arith; short = omega arith })
      (init-At 0 skipped)

skip_rest_of_hunks-Stopped_example : Stopped (skip_rest_of_hunks (init 0 (codes "####1,x")))
skip_rest_of_hunks-Stopped_example = skip_rest_of_hunks-Stopped (init 0 (codes "####1,x"))
