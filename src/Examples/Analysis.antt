-- ===== src/Examples/Analysis.antt =====
-- A hunk over a file of one function, with a known last line and without one.
use perfscope.Base.{arith, ◌≡◌, refl, true, ℕ, List, [], ◌∷◌, none, some, codes}
use perfscope.Base.Int.{pos}
use perfscope.Base.Result.{err}
use perfscope.Patch.Hunk.{rep, Mod, Hunk}
use perfscope.Mapper.Instructions.{Instruction}
use perfscope.Mapper.Matcher.{Subprogram, Matcher}
use perfscope.Tools.Analyze.{Analysis, skip_mods, analyze_hunk, out_of_fuel}
use perfscope.Tools.Analyze.Rounds.{Finishes, analyze_hunk-Analyzed}
use perfscope.Tools.Analyze.Endless.{IsUnended, analyze_hunk-endless}

abbrev matcher : Matcher
matcher = record {
  initialized = true;
  processed = true;
  filename = [];
  patchname = [];
  sps = [];
  cus = [];
  patchstrips = pos 0;
  debugstrips = pos 0;
}

abbrev until : ℕ → Subprogram
until l = record {
  directory = codes "/src";
  filename = codes "gcc/main.c";
  name = codes "f";
  linenumber = 10;
  lastline = l;
  function = some 1;
}

abbrev edit : Mod
edit = record {
  type = rep;
  scope = record { begin = 8; end = 12 };
  rep_scope = record { begin = 8; end = 12 };
}

abbrev hunk : Hunk
hunk = record {
  start_line = 8;
  rep_start_line = 8;
  ctrlseq = [];
  enclosing_scope = record { begin = 8; end = 12 };
  rep_enclosing_scope = record { begin = 8; end = 12 };
  mods = edit ∷ [];
}

abbrev instruction : ℕ → Instruction
instruction l = record { address = l; loc = some l }

abbrev insts : ℕ → List Instruction
insts f = instruction 10 ∷ instruction 12 ∷ instruction 13 ∷ []

abbrev before : Subprogram → Analysis
before s = record {
  position = record { passed = []; rest = s ∷ [] };
  prevfunc = none;
  fi = [];
  instmap = λ f. [];
  insignificant = true;
}

analyze_hunk-Analyzed_example :
    Finishes (before (until 20)) hunk.mods (analyze_hunk 1 matcher insts (before (until 20)) hunk)
analyze_hunk-Analyzed_example =
    analyze_hunk-Analyzed 0 matcher insts (before (until 20)) hunk (omega arith, tt)

unended : IsUnended matcher (until 0) 1
unended = record { ready = refl; within = refl; unended = refl; named = refl }

skipped : skip_mods (until 0) hunk.mods ≡ edit ∷ []
unfolding skip_mods
skipped = refl

analyze_hunk-endless_example :
    analyze_hunk 100 matcher insts (before (until 0)) hunk ≡ err out_of_fuel
analyze_hunk-endless_example =
    analyze_hunk-endless 100 matcher insts (until 0) 1 (before (until 0)) [] hunk edit [] unended
      (omega arith) refl skipped (omega arith)

-- The instructions of lines 10 and 12 are found.
abbrev gained : List Instruction
gained = instruction 10 ∷ instruction 12 ∷ []
