-- ===== src/Tools/Run/Chapters.antt =====
-- The analysis of the printed hunks and chapters, which reads and analyzes by turns, against that of
-- lists that have been read whole.
use perfscope.Base.{
  ℕ, zero, suc, ◌<◌, ◌≡◌, refl, ◌∙◌, inl, inr, List, [], ◌∷◌, none, some, Text, arith, length,
  Option-cases,
}
use perfscope.Base.Int.{ℤ, negsuc}
use perfscope.Base.Result.{Result, ok, err, ◌>>=◌}
use perfscope.Commons.Text.{stripname}
use perfscope.Patch.Hunk.{Hunk}
use perfscope.Patch.Stream.{Decoder}
use perfscope.Patch.Stream.Lines.{At}
use perfscope.Patch.Decoder.{Chapter}
use perfscope.Patch.Decoder.Printed.{
  HunkText, ChapterText, print_hunks, print_chapters, AreHunkTexts, AreChapterTexts, ReadHunks,
}
use perfscope.Patch.Decoder.Hunks.{
  IsBoundary, next_hunk-reads, next_hunk-boundary, read_hunks-ReadHunks,
}
use perfscope.Patch.Decoder.Patches.{
  ReadChapters, IsEnd, IsBoundary-print_chapters, length-print_hunks, next_chapter-reads,
  next_chapter-stops,
}
use perfscope.Patch.Decoder.Skip.{skip_rest_of_hunks-skips}
use perfscope.Tools.Analyze.{Analysis, analyze_hunk}
use perfscope.Tools.Run.{
  Module, Run, RunError, Target, on_analysis, start_analysis, analyze_hunks, evaluate,
  chapter_target, analyze_chapter, analyze_chapters,
}

-- The hunks of a chapter in turn.
pub listed_hunks : ℕ → Target → Analysis → List Hunk → Result RunError Analysis
listed_hunks rounds t a [] = ok a
listed_hunks rounds t a (h ∷ hs) =
    on_analysis (analyze_hunk rounds t.matcher t.in_module.insts a h) >>= λ b.
    listed_hunks rounds t b hs

-- A chapter without a module changes nothing.
pub listed_chapter : ℕ → ℤ → List Module → Run → Chapter → List Hunk → Result RunError Run
unfolding listed_hunks
listed_chapter rounds p_strips ms s c hs = elim (chapter_target p_strips ms c) [
  | none ↦ ok s
  | some t ↦
      listed_hunks rounds t (start_analysis t s.insignificant) hs >>= λ a. ok (evaluate t s a)
]

pub listed_chapters : ℕ → ℤ → List Module → Run → List (Chapter × List Hunk) → Result RunError Run
unfolding listed_chapter
listed_chapters rounds p_strips ms s [] = ok s
listed_chapters rounds p_strips ms s ((c, hs) ∷ cs) =
    listed_chapter rounds p_strips ms s c hs >>= λ s'. listed_chapters rounds p_strips ms s' cs

-- A step, with what is left of the file behind it.
abbrev pub beside : {A : Type 0} → Decoder → Result RunError A → Result RunError (A × Decoder)
beside d e = e >>= λ a. ok (a, d)

-- Two steps with the same start, the second of which leaves the file out.
pub bind-beside :
    {A B : Type 0} (e : Result RunError A) (d : Decoder) (f : A → Result RunError (B × Decoder))
    (g : A → Result RunError B)
    → ((a : A) → f a ≡ beside d (g a))
    → (e >>= f) ≡ beside d (e >>= g)
bind-beside (ok a) d f g w = w a
bind-beside (err x) d f g w = refl

-- Two steps behind a step that moves on in the file.
pub beside-bind :
    {A B : Type 0} (e : Result RunError A) (d : Decoder) (f : A × Decoder → Result RunError B)
    → (beside d e >>= f) ≡ (e >>= λ a. f (a, d))
beside-bind (ok a) d f = refl
beside-bind (err x) d f = refl

analyze_hunks-listed :
    (fuel rounds : ℕ) (t : Target) (d : Decoder) (ts : List HunkText) (ls : List Text)
    → AreHunkTexts ts
    → IsBoundary ls
    → At d (print_hunks ts ls)
    → length (print_hunks ts ls) < fuel
    → (hs : List Hunk) × (d' : Decoder) × ReadHunks ts hs
      × At d' ls
      × ((a : Analysis) → analyze_hunks fuel rounds t a d ≡ beside d' (listed_hunks rounds t a hs))
unfolding analyze_hunks listed_hunks
analyze_hunks-listed zero rounds t d ts ls w b at f = absurd (omega arith)
analyze_hunks-listed (suc fuel) rounds t d [] ls w b at f =
    let (d', run, left) = next_hunk-boundary d ls b at in
    ([], d', tt, left, λ a. rw (analyze_hunks, run) refl)
analyze_hunks-listed (suc fuel) rounds t d (x ∷ ts) ls w b at f =
    let (h, reduced, call) = next_hunk-reads d x (print_hunks ts ls) w.0 at in
    let (d1, run, left) = call in
    let (hs, d', read, end, same) =
      analyze_hunks-listed fuel rounds t d1 ts ls w.1 b left (omega arith) in
    (
      h ∷ hs,
      d',
      (reduced, read),
      end,
      λ a.
          rw (analyze_hunks, run)
            (bind-beside (on_analysis (analyze_hunk rounds t.matcher t.in_module.insts a h)) d'
              (λ b'. analyze_hunks fuel rounds t b' d1) (λ b'. listed_hunks rounds t b' hs) same),
    )

analyze_chapter-listed :
    (fuel rounds : ℕ) (p_strips : ℤ) (ms : List Module) (c : Chapter) (d : Decoder)
    (ts : List HunkText) (ls : List Text)
    → AreHunkTexts ts
    → IsBoundary ls
    → At d (print_hunks ts ls)
    → length (print_hunks ts ls) < fuel
    → (hs : List Hunk) × (d' : Decoder) × ReadHunks ts hs
      × At d' ls
      × ((s : Run)
          → analyze_chapter fuel rounds p_strips ms s c d
            ≡ beside d' (listed_chapter rounds p_strips ms s c hs))
unfolding analyze_chapter listed_chapter
analyze_chapter-listed fuel rounds p_strips ms c d ts ls w b at f =
    elim (Option-cases (chapter_target p_strips ms c)) [
      | inl e ↦
          let (hs, _, _, read, _) = read_hunks-ReadHunks fuel d ts ls w b at f in
          let (d', run, left) = skip_rest_of_hunks-skips d ts ls w b at in
          (hs, d', read, left, λ s. rw (analyze_chapter, listed_chapter, e, run) refl)
      | inr (t, e) ↦
          let (hs, d', read, left, same) = analyze_hunks-listed fuel rounds t d ts ls w b at f in
          (
            hs,
            d',
            read,
            left,
            λ s.
                let a = start_analysis t s.insignificant in
                rw (analyze_chapter, listed_chapter, e, same a)
                  (go t d' s (listed_hunks rounds t a hs)),
          )
    ]
  where
    go :
        (t : Target) (d' : Decoder) (s : Run) (e : Result RunError Analysis)
        → (beside d' e >>= λ r. ok (evaluate t s r.0, r.1))
          ≡ beside d' (e >>= λ a. ok (evaluate t s a))
    go t d' s (ok a) = refl
    go t d' s (err x) = refl

pub analyze_chapters-listed :
    (fuel rounds : ℕ) (p_strips : ℤ) (ms : List Module) (d : Decoder) (ts : List ChapterText)
    (ls : List Text)
    → AreChapterTexts ts
    → IsEnd ls
    → At d (print_chapters ts ls)
    → length (print_chapters ts ls) < fuel
    → (cs : List (Chapter × List Hunk)) × (d' : Decoder) × ReadChapters ts cs
      × At d' ls
      × ((s : Run)
          → analyze_chapters fuel rounds p_strips ms s d
            ≡ beside d' (listed_chapters rounds p_strips ms s cs))
unfolding analyze_chapters listed_chapters
analyze_chapters-listed zero rounds p_strips ms d ts ls w e at f = absurd (omega arith)
analyze_chapters-listed (suc fuel) rounds p_strips ms d [] ls w e at f =
    let (d', run, left) = next_chapter-stops d ls e at in
    ([], d', tt, left, λ s. rw (analyze_chapters, run) refl)
analyze_chapters-listed (suc fuel) rounds p_strips ms d (t ∷ ts) ls w e at f =
    let rest = print_chapters ts ls in
    let c : Chapter = record { fullname = t.name; filename = stripname t.name (negsuc 0) } in
    let (d1, head, left1) = next_chapter-reads d t.name (print_hunks t.hunks rest) w.0 at in
    let (hs, d2, hunks, left2, body) =
      analyze_chapter-listed fuel rounds p_strips ms c d1 t.hunks rest w.1
        (IsBoundary-print_chapters ts ls e) left1 (omega arith) in
    let (cs, d3, chapters, left3, tail) =
      analyze_chapters-listed fuel rounds p_strips ms d2 ts ls w.2 e left2
        (omega (arith, length-print_hunks t.hunks rest)) in
    (
      (c, hs) ∷ cs,
      d3,
      (refl, refl, hunks, chapters),
      left3,
      λ s.
          let chapter = listed_chapter rounds p_strips ms s c hs in
          rw (analyze_chapters, head, body s)
            (beside-bind chapter d2 (λ q. analyze_chapters fuel rounds p_strips ms q.0 q.1)
              ∙ bind-beside chapter d3 (λ s'. analyze_chapters fuel rounds p_strips ms s' d2)
                  (λ s'. listed_chapters rounds p_strips ms s' cs) tail),
    )
