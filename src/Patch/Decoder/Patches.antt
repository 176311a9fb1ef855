-- ===== src/Patch/Decoder/Patches.antt =====
-- Reading a printed file whole.
use perfscope.Base.{
  ℕ, zero, suc, ◌≤◌, ◌<◌, ◌≡◌, refl, ap, ◌==◌, true, false, List, [], ◌∷◌, none, some, Text, arith,
  length, print_lines,
}
use perfscope.Base.Int.{negsuc}
use perfscope.Base.Result.{ok}
use perfscope.Commons.Text.{stripname}
use perfscope.Patch.Hunk.{Hunk}
use perfscope.Patch.Stream.{Decoder, init, unget_line, pheader, fheader, starts_with}
use perfscope.Patch.Stream.Lines.{
  FitsBuffer, At, Got, init-At, Got-At, unget_line-At, next_line-Gives, next_line-end,
}
use perfscope.Patch.Decoder.{
  Chapter, opens_section, next_chapter, next_patch, read_chapters, read_patches,
}
use perfscope.Patch.Decoder.Printed.{
  HunkText, ChapterText, PatchText, print_hunks, print_chapters, print_patches, AreChapterTexts,
  ArePatchTexts, ReadHunks,
}
use perfscope.Patch.Decoder.Hunks.{Leaves, IsBoundary, read_hunks-ReadHunks}

pheader-FitsBuffer : FitsBuffer pheader
pheader-FitsBuffer = record {
  nonempty = omega arith;
  one_line = (refl, (refl, (refl, (refl, tt))));
  short = omega arith;
}

fheader-FitsBuffer : FitsBuffer fheader
fheader-FitsBuffer = record {
  nonempty = omega arith;
  one_line = (refl, (refl, (refl, (refl, tt))));
  short = omega arith;
}

-- A chapter that was read has the name that was printed, and its last component.
abbrev pub ReadChapters : List ChapterText → List (Chapter × List Hunk) → Type 0
ReadChapters [] [] = Unit {0}
ReadChapters [] (_ ∷ _) = ⊥
ReadChapters (_ ∷ _) [] = ⊥
ReadChapters (t ∷ ts) ((c, hs) ∷ cs) =
    (c.fullname ≡ t.name)
    × (c.filename ≡ stripname t.name (negsuc 0))
    × ReadHunks t.hunks hs
    × ReadChapters ts cs

abbrev pub ReadPatches : List PatchText → List (Text × List (Chapter × List Hunk)) → Type 0
ReadPatches [] [] = Unit {0}
ReadPatches [] (_ ∷ _) = ⊥
ReadPatches (_ ∷ _) [] = ⊥
ReadPatches (t ∷ ts) ((name, cs) ∷ ps) =
    (name ≡ t.name) × ReadChapters t.chapters cs × ReadPatches ts ps

-- Nothing follows, or a patch does.
abbrev pub IsEnd : List Text → Type 0
IsEnd [] = Unit {0}
IsEnd (l ∷ _) = (starts_with pheader l ≡ true) × FitsBuffer l

pub IsEnd-print_patches : (ps : List PatchText) → IsEnd (print_patches ps)
IsEnd-print_patches [] = tt
IsEnd-print_patches (p ∷ ps) = (refl, pheader-FitsBuffer)

pub IsBoundary-print_chapters :
    (cs : List ChapterText) (ls : List Text) → IsEnd ls → IsBoundary (print_chapters cs ls)
unfolding opens_section
IsBoundary-print_chapters [] [] e = tt
IsBoundary-print_chapters [] (l ∷ ls) e = (rw e.0, e.1)
IsBoundary-print_chapters (c ∷ cs) ls e = (refl, fheader-FitsBuffer)

pub length-print_hunks :
    (ts : List HunkText) (ls : List Text) → length ls ≤ length (print_hunks ts ls)
length-print_hunks [] ls = omega arith
length-print_hunks (t ∷ ts) ls = omega (arith, length-print_hunks ts ls)

pub length-print_chapters :
    (cs : List ChapterText) (ls : List Text) → length ls ≤ length (print_chapters cs ls)
length-print_chapters [] ls = omega arith
length-print_chapters (c ∷ cs) ls =
    omega (arith, length-print_chapters cs ls, length-print_hunks c.hunks (print_chapters cs ls))

pub next_chapter-reads :
    (d : Decoder) (name : Text) (ls : List Text)
    → FitsBuffer name
    → At d (fheader ∷ name ∷ ls)
    → Leaves
        (next_chapter d)
        (some (record { fullname = name; filename = stripname name (negsuc 0) }))
        ls
unfolding next_chapter
next_chapter-reads d name ls w at =
    let (d1, run1, got1) = next_line-Gives d fheader (name ∷ ls) fheader-FitsBuffer at in
    let (d2, run2, got2) = next_line-Gives d1 name ls w (Got-At d1 fheader (name ∷ ls) got1) in
    (d2, rw (next_chapter, run1, run2), Got-At d2 name ls got2)

pub next_chapter-stops :
    (d : Decoder) (ls : List Text) → IsEnd ls → At d ls → Leaves (next_chapter d) none ls
unfolding next_chapter
next_chapter-stops d [] e at =
    let (d', run, left, _) = next_line-end d at in (d', rw (next_chapter, run), left)
next_chapter-stops d (l ∷ ls) e at =
    let (d', run, got) = next_line-Gives d l ls e.1 at in
    (unget_line d', rw (next_chapter, run, e.0), unget_line-At d' l ls got)

read_chapters-ReadChapters :
    (fuel : ℕ) (d : Decoder) (ts : List ChapterText) (ls : List Text)
    → AreChapterTexts ts
    → IsEnd ls
    → At d (print_chapters ts ls)
    → length (print_chapters ts ls) < fuel
    → (cs : List (Chapter × List Hunk)) × (d' : Decoder) × (read_chapters fuel d ≡ ok (cs, d'))
      × ReadChapters ts cs
      × At d' ls
unfolding read_chapters
read_chapters-ReadChapters zero d ts ls w e at f = absurd (omega arith)
read_chapters-ReadChapters (suc fuel) d [] ls w e at f =
    let (d', run, left) = next_chapter-stops d ls e at in
    ([], d', rw (read_chapters, run), tt, left)
read_chapters-ReadChapters (suc fuel) d (t ∷ ts) ls w e at f =
    let rest = print_chapters ts ls in
    let (d1, head, left1) = next_chapter-reads d t.name (print_hunks t.hunks rest) w.0 at in
    let (hs, d2, body, hunks, left2) =
      read_hunks-ReadHunks fuel d1 t.hunks rest w.1 (IsBoundary-print_chapters ts ls e) left1
        (omega arith) in
    let (cs, d3, tail, chapters, left3) =
      read_chapters-ReadChapters fuel d2 ts ls w.2 e left2
        (omega (arith, length-print_hunks t.hunks rest)) in
    (
      (_, hs) ∷ cs,
      d3,
      rw (read_chapters, head, body, tail) refl,
      (refl, refl, hunks, chapters),
      left3,
    )

-- The count of a line that the decoder has given is not 0.
Got-readchars :
    (d : Decoder) (l : Text) (ls : List Text)
    → FitsBuffer l
    → Got d l ls
    → (d.readchars == 0) ≡ false
Got-readchars d l ls w g = ground (arith, w.nonempty, g.counted)

pub next_patch-reads :
    (d : Decoder) (name : Text) (ls : List Text)
    → FitsBuffer name
    → At d (pheader ∷ name ∷ ls)
    → Leaves (next_patch d) (some name) ls
unfolding next_patch
next_patch-reads d name ls w at =
    let (d1, run1, got1) = next_line-Gives d pheader (name ∷ ls) pheader-FitsBuffer at in
    let (d2, run2, got2) = next_line-Gives d1 name ls w (Got-At d1 pheader (name ∷ ls) got1) in
    let counted1 = Got-readchars d1 pheader (name ∷ ls) pheader-FitsBuffer got1 in
    let counted2 = Got-readchars d2 name ls w got2 in
    (
      d2,
      rw (next_patch, run1, counted1, got1.held, run2, counted2)
          (ap (λ b. ok (some b, d2)) got2.held),
      Got-At d2 name ls got2,
    )

pub next_patch-end : (d : Decoder) → At d [] → Leaves (next_patch d) none []
unfolding next_patch
next_patch-end d at =
    let (d', run, left, z) = next_line-end d at in
    let zero_read : (d'.readchars == 0) ≡ true = ground (arith, z) in
    (d', rw (next_patch, run, zero_read), left)

read_patches-ReadPatches :
    (fuel : ℕ) (d : Decoder) (ts : List PatchText)
    → ArePatchTexts ts
    → At d (print_patches ts)
    → length (print_patches ts) < fuel
    → (ps : List (Text × List (Chapter × List Hunk))) × (d' : Decoder) × (read_patches fuel d
        ≡ ok (ps, d'))
      × ReadPatches ts ps
unfolding read_patches
read_patches-ReadPatches zero d ts w at f = absurd (omega arith)
read_patches-ReadPatches (suc fuel) d [] w at f =
    let (d', run, left) = next_patch-end d at in ([], d', rw (read_patches, run), tt)
read_patches-ReadPatches (suc fuel) d (t ∷ ts) w at f =
    let rest = print_patches ts in
    let (d1, head, left1) = next_patch-reads d t.name (print_chapters t.chapters rest) w.0 at in
    let (cs, d2, body, chapters, left2) =
      read_chapters-ReadChapters fuel d1 t.chapters rest w.1 (IsEnd-print_patches ts) left1
        (omega arith) in
    let (ps, d3, tail, patches) =
      read_patches-ReadPatches fuel d2 ts w.2 left2
        (omega (arith, length-print_chapters t.chapters rest)) in
    ((_, cs) ∷ ps, d3, rw (read_patches, head, body, tail) refl, (refl, chapters, patches))

-- A printed file whose names and control sequences are not empty and fit in the buffer, whose line
-- numbers are decimals from 1 to 2^32 - 1, and whose control sequences can be reduced is read
-- back whole, with fuel for its lines: the patches with their names and chapters in order, the
-- chapters with their full names and the last components of these, and each hunk as the
-- reduction of the one that was printed.
pub read_patches-print_patches :
    (lineno fuel : ℕ) (ts : List PatchText)
    → ArePatchTexts ts
    → length (print_patches ts) < fuel
    → (ps : List (Text × List (Chapter × List Hunk))) × (d' : Decoder) × (read_patches fuel
          (init lineno (print_lines (print_patches ts)))
        ≡ ok (ps, d'))
      × ReadPatches ts ps
read_patches-print_patches lineno fuel ts w f =
    let file = print_patches ts in
    read_patches-ReadPatches fuel (init lineno (print_lines file)) ts w (init-At lineno file) f
