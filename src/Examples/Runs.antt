-- ===== src/Examples/Runs.antt =====
-- The analysis of a file over a module of one function.
use perfscope.Base.{arith, ◌≡◌, true, ℕ, List, [], ◌∷◌, some, codes, Text, print_lines}
use perfscope.Base.Int.{pos}
use perfscope.Patch.Hunk.{Hunk}
use perfscope.Patch.Decoder.{Chapter}
use perfscope.Patch.Decoder.Printed.{PatchText, print_patches}
use perfscope.Patch.Decoder.Patches.{ReadPatches}
use perfscope.Mapper.Instructions.{Instruction}
use perfscope.Mapper.Matcher.{CompileUnit}
use perfscope.Tools.Run.{Module, run_analysis}
use perfscope.Tools.Run.Listed.{listed_patches, run_analysis-listed}
use perfscope.Examples.Streams.{first_patch, file-ArePatchTexts}

abbrev instruction : ℕ → Instruction
instruction l = record { address = l; loc = some l }

abbrev unit : CompileUnit
unit = record {
  directory = codes "/src";
  filename = codes "gcc/main.c";
  is_current = true;
  subprograms =
      record {
        subprogram = record {
          directory = codes "/src";
          filename = codes "gcc/main.c";
          name = codes "f";
          linenumber = 10;
          lastline = 0;
          function = some 1;
        };
        body = some ((instruction 10 ∷ instruction 16 ∷ instruction 30 ∷ []) ∷ []);
      }
      ∷ [];
}

abbrev bitcode : Module
bitcode = record {
  units = unit ∷ [];
  insts = λ f. instruction 10 ∷ instruction 16 ∷ instruction 30 ∷ [];
  strips = pos 2;
}

abbrev one_patch : List PatchText
one_patch = first_patch ∷ []

run_analysis-listed_example :
    (ps : List (Text × List (Chapter × List Hunk))) × ReadPatches one_patch ps
    × (run_analysis 20 10 (pos 0) (bitcode ∷ []) 0 (print_lines (print_patches one_patch))
        ≡ listed_patches 10
            (pos 0)
            (bitcode ∷ [])
            (record { insignificant = true; evaluations = [] })
            ps)
run_analysis-listed_example =
    run_analysis-listed 20 10 (pos 0) (bitcode ∷ []) 0 one_patch
      (file-ArePatchTexts.0, file-ArePatchTexts.1, tt) (omega arith)
