-- ===== src/Tools/Run/Listed.antt =====
-- The analysis of a printed file, which reads and analyzes by turns, against that of a list of
-- patches that has been read whole.
use perfscope.Base.{
  ℕ, zero, suc, ◌<◌, ◌≡◌, refl, ◌∙◌, inl, inr, List, [], ◌∷◌, Text, arith, length, print_lines,
  Bool, true, false, Bool-cases,
}
use perfscope.Base.Int.{ℤ}
use perfscope.Base.Result.{Result, ok, err, ◌>>=◌}
use perfscope.Patch.Hunk.{Hunk}
use perfscope.Patch.Stream.{Decoder, init}
use perfscope.Patch.Stream.Lines.{At, init-At}
use perfscope.Patch.Decoder.{Chapter}
use perfscope.Patch.Decoder.Printed.{PatchText, print_chapters, print_patches, ArePatchTexts}
use perfscope.Patch.Decoder.Patches.{
  ReadPatches, IsEnd-print_patches, length-print_chapters, next_patch-reads, next_patch-end,
}
use perfscope.Tools.Run.Chapters.{listed_chapters, beside-bind, analyze_chapters-listed}
use perfscope.Tools.Run.{Module, Run, RunError, double_delete, analyze_patches, run_analysis}

-- The chapters of the one patch of a file. A second patch ends in the deletion of the first one once more.
pub listed_patches :
    ℕ → ℤ → List Module → Run → List (Text × List (Chapter × List Hunk)) → Result RunError Run
listed_patches rounds p_strips ms s [] = ok s
listed_patches rounds p_strips ms s ((name, cs) ∷ []) = listed_chapters rounds p_strips ms s cs
listed_patches rounds p_strips ms s ((name, cs) ∷ _ ∷ _) =
    listed_chapters rounds p_strips ms s cs >>= λ s'. err double_delete

-- The patches that are left, behind a patch or at first.
abbrev patches_from :
    ℕ
    → ℤ
    → List Module
    → Bool
    → Run
    → List (Text × List (Chapter × List Hunk))
    → Result RunError Run
patches_from rounds p_strips ms deleted s [] = ok s
patches_from rounds p_strips ms true s (_ ∷ _) = err double_delete
patches_from rounds p_strips ms false s ((name, cs) ∷ ps) =
    listed_chapters rounds p_strips ms s cs >>= λ s'. patches_from rounds p_strips ms true s' ps

-- Steps with the same start and the same steps behind.
bind-same :
    {A B : Type 0} (e : Result RunError A) (f g : A → Result RunError B)
    → ((a : A) → f a ≡ g a)
    → (e >>= f) ≡ (e >>= g)
bind-same (ok a) f g w = w a
bind-same (err x) f g w = refl

patches_from-listed :
    (rounds : ℕ) (p_strips : ℤ) (ms : List Module) (s : Run)
    (ps : List (Text × List (Chapter × List Hunk)))
    → patches_from rounds p_strips ms false s ps ≡ listed_patches rounds p_strips ms s ps
unfolding listed_patches
patches_from-listed rounds p_strips ms s [] = refl
patches_from-listed rounds p_strips ms s ((name, cs) ∷ []) =
    go (listed_chapters rounds p_strips ms s cs)
  where
    go : (e : Result RunError Run) → (e >>= λ s'. ok s') ≡ e
    go (ok s') = refl
    go (err x) = refl
patches_from-listed rounds p_strips ms s ((name, cs) ∷ p ∷ ps) = refl

analyze_patches-listed :
    (fuel rounds : ℕ) (p_strips : ℤ) (ms : List Module) (d : Decoder) (ts : List PatchText)
    → ArePatchTexts ts
    → At d (print_patches ts)
    → length (print_patches ts) < fuel
    → (ps : List (Text × List (Chapter × List Hunk))) × ReadPatches ts ps
      × ((deleted : Bool) (s : Run)
          → analyze_patches fuel rounds p_strips ms deleted s d
            ≡ patches_from rounds p_strips ms deleted s ps)
unfolding analyze_patches
analyze_patches-listed zero rounds p_strips ms d ts w at f = absurd (omega arith)
analyze_patches-listed (suc fuel) rounds p_strips ms d [] w at f =
    let (d', run, left) = next_patch-end d at in
    ([], tt, λ deleted s. rw (analyze_patches, run) refl)
analyze_patches-listed (suc fuel) rounds p_strips ms d (t ∷ ts) w at f =
    let rest = print_patches ts in
    let (d1, head, left1) = next_patch-reads d t.name (print_chapters t.chapters rest) w.0 at in
    let (cs, d2, chapters, left2, body) =
      analyze_chapters-listed fuel rounds p_strips ms d1 t.chapters rest w.1
        (IsEnd-print_patches ts) left1 (omega arith) in
    let (ps, patches, tail) =
      analyze_patches-listed fuel rounds p_strips ms d2 ts w.2 left2
        (omega (arith, length-print_chapters t.chapters rest)) in
    (
      (t.name, cs) ∷ ps,
      (refl, chapters, patches),
      λ deleted s. elim (Bool-cases deleted) [
        | inl e ↦ rw (analyze_patches, head, e) refl
        | inr e ↦
            let listed = listed_chapters rounds p_strips ms s cs in
            rw (analyze_patches, head, e, body s)
              (beside-bind listed d2 (λ q. analyze_patches fuel rounds p_strips ms true q.0 q.1)
                ∙ bind-same listed (λ s'. analyze_patches fuel rounds p_strips ms true s' d2)
                    (λ s'. patches_from rounds p_strips ms true s' ps) (tail true))
      ],
    )

-- On a printed file as that which is read back whole, with fuel for its lines, the analysis that
-- reads one patch, chapter and hunk at a time, and skips the hunks of a chapter for which it finds no
-- module, does the same as the analysis of the patches that were read back. With no patch it does
-- nothing. With one patch it calls the evaluator on the same instructions of the same modules in the
-- same order, or stops with the same error. With more it analyzes the first patch likewise and then
-- deletes that patch twice, unless the first patch has stopped it.
pub run_analysis-listed :
    (fuel rounds : ℕ) (p_strips : ℤ) (ms : List Module) (lineno : ℕ) (ts : List PatchText)
    → ArePatchTexts ts
    → length (print_patches ts) < fuel
    → (ps : List (Text × List (Chapter × List Hunk))) × ReadPatches ts ps
      × (run_analysis fuel rounds p_strips ms lineno (print_lines (print_patches ts))
          ≡ listed_patches rounds p_strips ms
              (record { insignificant = true; evaluations = [] })
              ps)
unfolding run_analysis
run_analysis-listed fuel rounds p_strips ms lineno ts w f =
    let file = print_patches ts in
    let first : Run = record { insignificant = true; evaluations = [] } in
    let (ps, read, same) =
      analyze_patches-listed fuel rounds p_strips ms (init lineno (print_lines file)) ts w
        (init-At lineno file) f in
    (ps, read, same false first ∙ patches_from-listed rounds p_strips ms first ps)
