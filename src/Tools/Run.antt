-- ===== src/Tools/Run.antt =====
-- The whole of analyze of tools/PerfScope/PerfScope.cpp: the loops over the patches, the chapters, the
-- modules and the hunks. The modules have been loaded.
pub mod Chapters
pub mod Listed
use perfscope.Base.{
  ℕ, zero, suc, ◌+◌, Bool, true, false, List, [], ◌∷◌, ◌++◌, Option, none, some, Text, codes,
  text_eq, if◌then◌else◌,
}
use perfscope.Base.Int.{ℤ}
use perfscope.Base.Result.{Result, ok, err, ◌>>=◌}
use perfscope.Commons.Text.{src2obj}
use perfscope.Patch.Stream.{StreamError, out_of_fuel, Decoder, init}
use perfscope.Patch.Decoder.{Chapter, next_hunk, skip_rest_of_hunks, next_chapter, next_patch}
use perfscope.Mapper.Instructions.{Instruction}
use perfscope.Mapper.Matcher.{CompileUnit, Matcher, Position}
use perfscope.Mapper.Target.{process_compile_units, reset_target}
use perfscope.Tools.Analyze.{AnalyzeError, InstMap, Analysis, analyze_hunk}

-- A module with its compile units, the instructions of its functions, and the strips of its names.
pub record Module : Type 0 where
  pub units : List CompileUnit
  pub insts : ℕ → List Instruction
  pub strips : ℤ

-- The module and the instructions that runevaluator is called with.
pub record Evaluation : Type 0 where
  pub in_module : Module
  pub instmap : InstMap

-- What lasts from one chapter to the next: the flag, and the calls of runevaluator.
pub record Run : Type 0 where
  pub insignificant : Bool
  pub evaluations : List Evaluation

-- `double_delete` frees a patch that has been freed.
pub data RunError : Type 0 where
  stream : StreamError → RunError
  analysis : AnalyzeError → RunError
  double_delete : RunError

abbrev pub on_stream {ℓ} : {A : Type ℓ} → Result StreamError A → Result RunError A
on_stream (ok a) = ok a
on_stream (err e) = err (stream e)

abbrev pub on_analysis {ℓ} : {A : Type ℓ} → Result AnalyzeError A → Result RunError A
on_analysis (ok a) = ok a
on_analysis (err e) = err (analysis e)

-- fixnastyname
abbrev pub fix_nasty_name : Text → Text
fix_nasty_name name =
    if text_eq name (codes "src/backend/port/sysv_shmem.c")
    then codes "src/backend/port/pg_shmem.c"
    else name

-- The constructor of Matcher; patchname is not set.
unfoldable pub new_matcher : Module → ℤ → Matcher
unfolding process_compile_units
new_matcher m p_strips = process_compile_units m.units (record {
  initialized = false;
  processed = true;
  filename = [];
  patchname = [];
  sps = [];
  cus = [];
  patchstrips = p_strips;
  debugstrips = m.strips;
})

pub record Target : Type 0 where
  pub in_module : Module
  pub matcher : Matcher
  pub position : Position

-- The first module in which the iterator of the chapter is not the end.
pub find_target : ℤ → List Module → Text → Option Target
unfolding new_matcher reset_target
find_target p_strips [] name = none
find_target p_strips (m ∷ ms) name =
    let next = find_target p_strips ms name in
    let (position, matcher) = reset_target m.units (new_matcher m p_strips) (fix_nasty_name name) in
    elim position.rest [
      | [] ↦ next
      | _ ∷ _ ↦ some (record { in_module = m; matcher = matcher; position = position })
    ]

abbrev pub start_analysis : Target → Bool → Analysis
start_analysis t insignificant = record {
  position = t.position;
  prevfunc = none;
  fi = [];
  instmap = λ f. [];
  insignificant = insignificant;
}

-- The loop over the hunks of a chapter. `rounds` is the fuel for one hunk.
pub analyze_hunks : ℕ → ℕ → Target → Analysis → Decoder → Result RunError (Analysis × Decoder)
unfolding next_hunk analyze_hunk
analyze_hunks zero rounds t a d = err (stream out_of_fuel)
analyze_hunks (suc fuel) rounds t a d = on_stream (next_hunk d) >>= λ r. elim r.0 [
  | none ↦ ok (a, r.1)
  | some h ↦ on_analysis (analyze_hunk rounds t.matcher t.in_module.insts a h) >>= λ b.
      analyze_hunks fuel rounds t b r.1
]

-- The evaluation of the instructions that the hunks have gathered.
abbrev pub evaluate : Target → Run → Analysis → Run
evaluate t s a = record {
  insignificant = a.insignificant;
  evaluations = s.evaluations ++ record { in_module = t.in_module; instmap = a.instmap } ∷ [];
}

-- The module to analyze a chapter in; a file that is no source has none.
unfoldable pub chapter_target : ℤ → List Module → Chapter → Option Target
unfolding src2obj find_target
chapter_target p_strips ms c = elim (src2obj c.fullname) [
  | none ↦ none
  | some _ ↦ find_target p_strips ms c.fullname
]

pub analyze_chapter :
    ℕ → ℕ → ℤ → List Module → Run → Chapter → Decoder → Result RunError (Run × Decoder)
unfolding chapter_target skip_rest_of_hunks analyze_hunks
analyze_chapter fuel rounds p_strips ms s c d = elim (chapter_target p_strips ms c) [
  | none ↦ on_stream (skip_rest_of_hunks d) >>= λ d'. ok (s, d')
  | some t ↦ analyze_hunks fuel rounds t (start_analysis t s.insignificant) d >>= λ r.
      ok (evaluate t s r.0, r.1)
]

pub analyze_chapters : ℕ → ℕ → ℤ → List Module → Run → Decoder → Result RunError (Run × Decoder)
unfolding next_chapter analyze_chapter
analyze_chapters zero rounds p_strips ms s d = err (stream out_of_fuel)
analyze_chapters (suc fuel) rounds p_strips ms s d = on_stream (next_chapter d) >>= λ r. elim r.0 [
  | none ↦ ok (s, r.1)
  | some c ↦ analyze_chapter fuel rounds p_strips ms s c r.1 >>= λ q.
      analyze_chapters fuel rounds p_strips ms q.0 q.1
]

-- The loop deletes the patch behind its chapters, but the decoder keeps its pointer to it, and next_patch
-- deletes what the decoder points to before it makes the next patch. `deleted` is whether that patch
-- is deleted already; at first the pointer is null.
pub analyze_patches : ℕ → ℕ → ℤ → List Module → Bool → Run → Decoder → Result RunError Run
unfolding next_patch analyze_chapters
analyze_patches zero rounds p_strips ms deleted s d = err (stream out_of_fuel)
analyze_patches (suc fuel) rounds p_strips ms deleted s d = on_stream (next_patch d) >>= λ r.
    elim r.0 [
      | none ↦ ok s
      | some name ↦
          if deleted
          then err double_delete
          else (analyze_chapters fuel rounds p_strips ms s r.1 >>= λ q.
              analyze_patches fuel rounds p_strips ms true q.0 q.1)
    ]

-- `lineno` is what the decoder's count of lines happens to hold at first.
unfoldable pub run_analysis : ℕ → ℕ → ℤ → List Module → ℕ → Text → Result RunError Run
unfolding analyze_patches
run_analysis fuel rounds p_strips ms lineno file =
    analyze_patches fuel rounds p_strips ms false
      (record { insignificant = true; evaluations = [] }) (init lineno file)
