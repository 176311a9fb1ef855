-- ===== src/Tools/Analyze.antt =====
-- analyze of tools/PerfScope/PerfScope.cpp on the hunks of a chapter: which instructions of which
-- function each modification is given.
pub mod Rounds
pub mod Endless
use perfscope.Base.{
  ℕ, zero, suc, ◌+◌, Bool, true, false, not, ◌&&◌, ◌||◌, List, [], ◌∷◌, ◌++◌, Option, none, some,
  ltb, leb, ◌==◌, if◌then◌else◌,
}
use perfscope.Base.Result.{Result, ok, err, ◌>>=◌}
use perfscope.Commons.Scope.{Scope}
use perfscope.Patch.Hunk.{ModType, add, del, rep, Mod, Hunk}
use perfscope.Mapper.Matcher.{Subprogram, Matcher, Position, Match, match_function}
use perfscope.Mapper.Instructions.{Instruction, match_instructions}

-- `assert_failed` is that of matchFunction; `out_of_fuel` is a loop that does not end.
pub data AnalyzeError : Type 0 where
  assert_failed out_of_fuel : AnalyzeError

-- std::map from a function to the vector of its instructions; a function without an entry has the
-- empty vector.
abbrev pub InstMap : Type 0
InstMap = ℕ → List Instruction

abbrev pub push_back : InstMap → ℕ → List Instruction → InstMap
push_back m f is g = if g == f then m g ++ is else m g

-- The variables that last from one hunk of the chapter to the next.
pub record Analysis : Type 0 where
  pub position : Position
  pub prevfunc : Option ℕ
  pub fi : List Instruction
  pub instmap : InstMap
  pub insignificant : Bool

abbrev pub is_del : Mod → Bool
is_del h = elim h.type [ del ↦ true | _ ↦ false ]

-- Deletions, and modifications in front of the function.
unfoldable pub skip_mods : Subprogram → List Mod → List Mod
skip_mods s [] = []
skip_mods s (h ∷ hs) =
    let rest = skip_mods s hs in
    if is_del h || ltb h.rep_scope.end s.linenumber then rest else h ∷ hs

-- The lines of the modification that lie in the function.
abbrev pub clip : Subprogram → Scope → Scope
clip s scope = record {
  begin = if ltb scope.begin s.linenumber then s.linenumber else scope.begin;
  end = if ltb s.lastline scope.end then s.lastline else scope.end;
}

-- The iterator over the instructions, the map and the modifications that are left.
pub record Gathered : Type 0 where
  pub fi : List Instruction
  pub instmap : InstMap
  pub mods : List Mod

-- The modifications that begin in the function; the test inside the loop is that of its head.
pub run_mods : Subprogram → ℕ → List Instruction → InstMap → List Mod → Result AnalyzeError Gathered
run_mods s f fi m [] = ok (record { fi = fi; instmap = m; mods = [] })
run_mods s f fi m (h ∷ hs) =
    let skip = run_mods s f fi m hs in
    if ltb s.lastline h.rep_scope.begin
    then ok (record { fi = fi; instmap = m; mods = h ∷ hs })
    else if is_del h
    then skip
    else elim (match_instructions fi (clip s h.rep_scope)) [
      | none ↦ err out_of_fuel
      | some r ↦ run_mods s f r.1 (push_back m f r.0) hs
    ]

abbrev pub same_function : Option ℕ → ℕ → Bool
same_function none f = false
same_function (some g) f = g == f

-- How a round of the loop over the functions of a hunk ends.
pub data Round : Type 0 where
  break : Analysis → Round
  go_on : Analysis → Scope → Bool → List Mod → Round

-- What a round does with a function that matchFunction has given.
pub run_function :
    (ℕ → List Instruction)
    → Analysis
    → Match
    → ℕ
    → Subprogram
    → List Mod
    → Result AnalyzeError Round
unfolding run_mods
run_function insts a r f s [] = ok (break a)
run_function insts a r f s (h ∷ hs) =
    run_mods s f (if same_function a.prevfunc f then a.fi else insts f) a.instmap (h ∷ hs) >>= λ g.
    ok (
      go_on (record a { prevfunc = some f; fi = g.fi; instmap = g.instmap; insignificant = false })
        r.scope r.multiple g.mods)

-- Behind matchFunction, by its result and the entries from the iterator on. `insts` are the
-- instructions of a function.
pub on_match :
    (ℕ → List Instruction)
    → Analysis
    → Match
    → Option ℕ
    → List Subprogram
    → List Mod
    → Result AnalyzeError Round
unfolding run_function skip_mods
on_match insts a r none rest mods = ok (break a)
on_match insts a r (some f) [] mods = ok (break a)
on_match insts a r (some f) (s ∷ _) mods = run_function insts a r f s (skip_mods s mods)

pub round :
    Matcher
    → (ℕ → List Instruction)
    → Analysis
    → Scope
    → Bool
    → List Mod
    → Result AnalyzeError Round
unfolding on_match match_function
round m insts a scope multiple mods = elim (match_function m a.position scope multiple) [
  | none ↦ err assert_failed
  | some r ↦ on_match insts (record a { position = r.position }) r r.result r.position.rest mods
]

-- The loop over the functions, which goes on while `multiple` holds.
pub hunk_loop :
    ℕ
    → Matcher
    → (ℕ → List Instruction)
    → Analysis
    → Scope
    → Bool
    → List Mod
    → Result AnalyzeError Analysis
unfolding round
hunk_loop fuel m insts a scope false mods = ok a
hunk_loop zero m insts a scope true mods = err out_of_fuel
hunk_loop (suc fuel) m insts a scope true mods = round m insts a scope true mods >>= λ r. elim r [
  | break b ↦ ok b
  | go_on b scope' multiple mods' ↦ hunk_loop fuel m insts b scope' multiple mods'
]

unfoldable pub analyze_hunk :
    ℕ → Matcher → (ℕ → List Instruction) → Analysis → Hunk → Result AnalyzeError Analysis
unfolding hunk_loop
analyze_hunk fuel m insts a h = hunk_loop fuel m insts a h.rep_enclosing_scope true h.mods
