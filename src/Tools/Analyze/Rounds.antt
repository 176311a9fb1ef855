-- ===== src/Tools/Analyze/Rounds.antt =====
-- What a hunk adds to the instructions of the functions, where all last lines are known.
use perfscope.Base.{
  ℕ, suc, ◌≤◌, ◌≡◌, ◌⊎◌, refl, sym, ap, ◌∙◌, inl, inr, Bool, true, false, ◌||◌, List, [], ◌∷◌, ◌++◌,
  append_assoc, append-nil, Option, none, some, arith, All, Bool-cases, ltb, ◌==◌, if◌then◌else◌,
}
use perfscope.Base.Result.{Result, ok, err, ◌>>=◌}
use perfscope.Commons.Scope.{Scope}
use perfscope.Patch.Hunk.{Mod, Hunk}
use perfscope.Mapper.Matcher.{Subprogram, Matcher, Position, Match}
use perfscope.Mapper.Matcher.Known.{IsKnown, match_function-Matches}
use perfscope.Mapper.Instructions.{Instruction, get_inst_line}
use perfscope.Mapper.Instructions.Range.{in_range}
use perfscope.Mapper.Instructions.Safe.{match_instructions-in_range}
use perfscope.Tools.Analyze.{
  AnalyzeError, InstMap, push_back, Analysis, is_del, skip_mods, clip, Gathered, run_mods,
  same_function, Round, break, go_on, run_function, on_match, round, hunk_loop, analyze_hunk,
}

-- The instruction lies in the lines of the function, and in those of a modification that is no
-- deletion.
abbrev pub InMods : List Mod → Instruction → Type 0
InMods [] i = ⊥
InMods (h ∷ hs) i = ((is_del h ≡ false) × (in_range h.rep_scope i ≡ true)) ⊎ InMods hs i

pub record IsModified (s : Subprogram) (mods : List Mod) (i : Instruction) : Type 0 where
  pub from_first : s.linenumber ≤ get_inst_line i
  pub to_last : get_inst_line i ≤ s.lastline
  pub modified : InMods mods i

clip-IsModified :
    (s : Subprogram) (h : Mod) (hs : List Mod) (is : List Instruction)
    → is_del h ≡ false
    → All (λ i. in_range (clip s h.rep_scope) i ≡ true) is
    → All (IsModified s (h ∷ hs)) is
clip-IsModified s h hs [] d w = tt
clip-IsModified s h hs (i ∷ is) d w = (
  record {
    from_first = ground (arith, w.0);
    to_last = ground (arith, w.0);
    modified = inl (d, ground (arith, w.0));
  },
  clip-IsModified s h hs is d w.1,
)

IsModified-later :
    (s : Subprogram) (h : Mod) (hs : List Mod) (is : List Instruction)
    → All (IsModified s hs) is
    → All (IsModified s (h ∷ hs)) is
IsModified-later s h hs [] w = tt
IsModified-later s h hs (i ∷ is) w = (
  record { from_first = w.0.from_first; to_last = w.0.to_last; modified = inr w.0.modified },
  IsModified-later s h hs is w.1,
)

All-append :
    (P : Instruction → Type 0) (is js : List Instruction) → All P is → All P js → All P (is ++ js)
All-append P [] js v w = w
All-append P (i ∷ is) js v w = (v.0, All-append P is js v.1 w)

-- The map has gained instructions of one function only.
abbrev pub Pushed : InstMap → ℕ → List Instruction → InstMap → Type 0
Pushed m f is m' = (g : ℕ) → m' g ≡ push_back m f is g

Pushed-nothing : (m : InstMap) (f : ℕ) → Pushed m f [] m
Pushed-nothing m f g = elim (Bool-cases (g == f)) [
  | inl e ↦ rw e (sym (append-nil (m g)))
  | inr e ↦ rw e refl
]

Pushed-twice :
    (m : InstMap) (f : ℕ) (is js : List Instruction) (m' : InstMap)
    → Pushed (push_back m f is) f js m'
    → Pushed m f (is ++ js) m'
Pushed-twice m f is js m' w g = elim (Bool-cases (g == f)) [
  | inl e ↦ w g ∙ rw e (append_assoc (m g) is js)
  | inr e ↦ w g ∙ rw e refl
]

run_mods-Pushed :
    (s : Subprogram) (f : ℕ) (fi : List Instruction) (m : InstMap) (mods : List Mod)
    → (g : Gathered) × (is : List Instruction) × (run_mods s f fi m mods ≡ ok g)
      × Pushed m f is g.instmap
      × All (IsModified s mods) is
unfolding run_mods
run_mods-Pushed s f fi m [] =
    (record { fi = fi; instmap = m; mods = [] }, [], refl, Pushed-nothing m f, tt)
run_mods-Pushed s f fi m (h ∷ hs) = elim (Bool-cases (ltb s.lastline h.rep_scope.begin)) [
  | inl e ↦
      (record { fi = fi; instmap = m; mods = h ∷ hs }, [], rw (run_mods, e), Pushed-nothing m f, tt)
  | inr e ↦ elim (Bool-cases (is_del h)) [
    | inl d ↦
        let (g, is, run, gained, all) = run_mods-Pushed s f fi m hs in
        (g, is, rw (run_mods, e, d) run, gained, IsModified-later s h hs is all)
    | inr d ↦
        let (r, taken, inside) = match_instructions-in_range fi (clip s h.rep_scope) in
        let (g, is, run, gained, all) = run_mods-Pushed s f r.1 (push_back m f r.0) hs in
        (
          g,
          r.0 ++ is,
          rw (run_mods, e, d, taken) run,
          Pushed-twice m f r.0 is g.instmap gained,
          All-append (IsModified s (h ∷ hs)) r.0 is (clip-IsModified s h hs r.0 d inside)
              (IsModified-later s h hs is all),
        )
  ]
]

InMods-skip :
    (s : Subprogram) (mods : List Mod) (i : Instruction)
    → InMods (skip_mods s mods) i
    → InMods mods i
unfolding skip_mods
InMods-skip s [] i w = w
InMods-skip s (h ∷ hs) i w = elim (Bool-cases (is_del h || ltb h.rep_scope.end s.linenumber)) [
  | inl e ↦ inr (InMods-skip s hs i (rw e at w))
  | inr e ↦ rw e at w
]

IsModified-skip :
    (s : Subprogram) (mods : List Mod) (is : List Instruction)
    → All (IsModified s (skip_mods s mods)) is
    → All (IsModified s mods) is
IsModified-skip s mods [] w = tt
IsModified-skip s mods (i ∷ is) w = (
  record {
    from_first = w.0.from_first;
    to_last = w.0.to_last;
    modified = InMods-skip s mods i w.0.modified;
  },
  IsModified-skip s mods is w.1,
)

-- The instructions of one function at most have grown, by instructions that the hunk modifies.
pub record Analyzed (a : Analysis) (mods : List Mod) (a' : Analysis) : Type 0 where
  pub known : All IsKnown a'.position.rest
  pub gained :
      (a'.instmap ≡ a.instmap)
      ⊎ ((s : Subprogram) × (after : List Subprogram) × (f : ℕ) × (is : List Instruction)
          × (a'.position.rest ≡ s ∷ after)
          × (s.function ≡ some f)
          × Pushed a.instmap f is a'.instmap
          × All (IsModified s mods) is)

abbrev Ended : Analysis → List Mod → Result AnalyzeError Round → Type 0
Ended a mods (err _) = ⊥
Ended a mods (ok (break b)) = Analyzed a mods b
Ended a mods (ok (go_on b scope multiple mods')) = Analyzed a mods b × (multiple ≡ false)

run_function-Ended :
    (insts : ℕ → List Instruction) (a : Analysis) (r : Match) (f : ℕ) (s : Subprogram)
    (after : List Subprogram) (mods : List Mod)
    → a.position.rest ≡ s ∷ after
    → s.function ≡ some f
    → All IsKnown a.position.rest
    → r.multiple ≡ false
    → (kept : List Mod) → skip_mods s mods ≡ kept
    → Ended a mods (run_function insts a r f s kept)
unfolding run_function
run_function-Ended insts a r f s after mods p own w single [] e = record {
  known = w;
  gained = inl refl;
}
run_function-Ended insts a r f s after mods p own w single (h ∷ hs) e =
    let (g, is, run, gained, all) =
      run_mods-Pushed s f (if same_function a.prevfunc f then a.fi else insts f) a.instmap
        (h ∷ hs) in
    rw (run_function, run)
      (
        record {
          known = w;
          gained = inr (s, after, f, is, p, own, gained, IsModified-skip s mods is (rw e all));
        },
        single,
      )

on_match-Ended :
    (insts : ℕ → List Instruction) (a : Analysis) (r : Match) (found : Option ℕ)
    (rest : List Subprogram) (mods : List Mod)
    → a.position.rest ≡ rest
    → All IsKnown a.position.rest
    → (found ≡ none) ⊎ (r.multiple ≡ false)
    → ((f : ℕ)
        → found ≡ some f
        → (s : Subprogram) × (after : List Subprogram) × (rest ≡ s ∷ after) × (s.function ≡ some f))
    → Ended a mods (on_match insts a r found rest mods)
unfolding on_match
on_match-Ended insts a r none rest mods p w single at = record { known = w; gained = inl refl }
on_match-Ended insts a r (some f) [] mods p w single at = record { known = w; gained = inl refl }
on_match-Ended insts a r (some f) (s ∷ after) mods p w (inl e) at = absurd (cc e)
on_match-Ended insts a r (some f) (s ∷ after) mods p w (inr e) at =
    let (t, behind, same, function) = at f refl in
    let head : s ≡ t = cc same in
    run_function-Ended insts a r f s after mods p (ap (λ u. u.function) head ∙ function) w e
      (skip_mods s mods) refl

Ended-moved :
    (a : Analysis) (p : Position) (mods : List Mod) (e : Result AnalyzeError Round)
    → Ended (record a { position = p }) mods e
    → Ended a mods e
Ended-moved a p mods (err _) w = w
Ended-moved a p mods (ok (break b)) w = record { known = w.known; gained = w.gained }
Ended-moved a p mods (ok (go_on b scope multiple mods')) w =
    (record { known = w.0.known; gained = w.0.gained }, w.1)

round-Ended :
    (m : Matcher) (insts : ℕ → List Instruction) (a : Analysis) (scope : Scope) (multiple : Bool)
    (mods : List Mod)
    → All IsKnown a.position.rest
    → Ended a mods (round m insts a scope multiple mods)
unfolding round
round-Ended m insts a scope multiple mods w =
    let (r, run, matched) = match_function-Matches m a.position scope multiple w in
    rw (round, run)
      (Ended-moved a r.position mods
        (on_match insts (record a { position = r.position }) r r.result r.position.rest mods)
        (on_match-Ended insts (record a { position = r.position }) r r.result r.position.rest mods
          refl matched.known matched.single matched.at_iterator))

abbrev pub Finishes : Analysis → List Mod → Result AnalyzeError Analysis → Type 0
Finishes a mods run = (a' : Analysis) × (run ≡ ok a') × Analyzed a mods a'

-- The round of the loop behind a round of the body.
abbrev follow :
    ℕ → Matcher → (ℕ → List Instruction) → Result AnalyzeError Round → Result AnalyzeError Analysis
follow fuel m insts (err e) = err e
follow fuel m insts (ok (break b)) = ok b
follow fuel m insts (ok (go_on b scope multiple mods)) =
    hunk_loop fuel m insts b scope multiple mods

follow-Finishes :
    (fuel : ℕ) (m : Matcher) (insts : ℕ → List Instruction) (a : Analysis) (mods : List Mod)
    (e : Result AnalyzeError Round)
    → Ended a mods e
    → Finishes a mods (follow fuel m insts e)
unfolding hunk_loop
follow-Finishes fuel m insts a mods (err _) w = absurd w
follow-Finishes fuel m insts a mods (ok (break b)) w = (b, refl, w)
follow-Finishes fuel m insts a mods (ok (go_on b scope multiple mods')) w =
    (b, rw (hunk_loop, w.1) refl, w.0)

hunk_loop-follow :
    (fuel : ℕ) (m : Matcher) (insts : ℕ → List Instruction) (a : Analysis) (scope : Scope)
    (mods : List Mod)
    → hunk_loop (suc fuel) m insts a scope true mods
      ≡ follow fuel m insts (round m insts a scope true mods)
unfolding hunk_loop
hunk_loop-follow fuel m insts a scope mods = go (round m insts a scope true mods)
  where
    go :
        (e : Result AnalyzeError Round)
        → (e >>= λ r. elim r [
          | break b ↦ ok b
          | go_on b scope' multiple mods' ↦ hunk_loop fuel m insts b scope' multiple mods'
        ])
          ≡ follow fuel m insts e
    go (err e) = refl
    go (ok (break b)) = refl
    go (ok (go_on b scope' multiple mods')) = refl

-- Where the last lines of all subprograms from the iterator on are known, the analysis of a hunk ends
-- in the first round of its loop, without a failed assertion: it adds instructions to one function
-- at most, namely that of the subprogram at the iterator, although the hunk may reach into more. Every instruction
-- that it adds has a known line that lies in the function and in a modification of the hunk that is
-- no deletion.
pub analyze_hunk-Analyzed :
    (fuel : ℕ) (m : Matcher) (insts : ℕ → List Instruction) (a : Analysis) (hunk : Hunk)
    → All IsKnown a.position.rest
    → Finishes a hunk.mods (analyze_hunk (suc fuel) m insts a hunk)
unfolding analyze_hunk
analyze_hunk-Analyzed fuel m insts a hunk w =
    rw (hunk_loop-follow fuel m insts a hunk.rep_enclosing_scope hunk.mods) (
      follow-Finishes fuel m insts a hunk.mods
        (round m insts a hunk.rep_enclosing_scope true hunk.mods)
        (round-Ended m insts a hunk.rep_enclosing_scope true hunk.mods w))
