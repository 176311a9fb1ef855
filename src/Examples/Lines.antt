-- ===== src/Examples/Lines.antt =====
-- Instructions, loops and subprograms of a small file.
use perfscope.Base.{arith, ◌≡◌, refl, true, false, List, [], ◌∷◌, some, none, ◌+◌, ℕ, Text, codes}
use perfscope.Base.Int.{pos}
use perfscope.Commons.Scope.{Scope}
use perfscope.Commons.Canon.{pathneq}
use perfscope.Mapper.Instructions.{Instruction, match_instructions}
use perfscope.Mapper.Instructions.Range.{select, beyond, match_instructions-select}
use perfscope.Mapper.Scopes.{get_last_line, get_block_scope, Loop, Nest, match_loop}
use perfscope.Mapper.Scopes.Loops.{AllScoped, last_inner, match_loop-last_inner}
use perfscope.Mapper.Matcher.{Subprogram, CompileUnit, Matcher}
use perfscope.Mapper.Matcher.Overlaps.{Ascending}
use perfscope.Mapper.Target.{cmp_disp_copy, sort_by, reset_target}
use perfscope.Mapper.Target.Order.{sort_by-Ascending}

abbrev line : ℕ → Instruction
line l = record { address = 1000 + l; loc = some l }

abbrev unknown : Instruction
unknown = record { address = 1; loc = none }

abbrev body : List Instruction
body = line 10 ∷ line 12 ∷ unknown ∷ line 12 ∷ line 14 ∷ line 17 ∷ []

abbrev changed : Scope
changed = record { begin = 11; end = 15 }

match_instructions-select_example :
    match_instructions body changed ≡ some (select changed body, beyond changed body)
match_instructions-select_example =
    match_instructions-select body changed (omega arith) (omega arith)

abbrev outer : Loop
outer = record {
  address = 1;
  header = line 20 ∷ line 21 ∷ [];
  blocks = (line 20 ∷ line 21 ∷ []) ∷ (line 25 ∷ line 30 ∷ []) ∷ (line 22 ∷ line 23 ∷ []) ∷ [];
}

abbrev inner : Loop
inner = record { address = 2; header = line 22 ∷ []; blocks = (line 22 ∷ line 23 ∷ []) ∷ [] }

abbrev unlined : Loop
unlined = record { address = 3; header = unknown ∷ []; blocks = [] }

abbrev nests : List Nest
nests = record { outer = outer; inner = inner ∷ [] } ∷ []

abbrev late : Scope
late = record { begin = 24; end = 26 }

nests-AllScoped : AllScoped nests
unfolding get_block_scope
nests-AllScoped = (refl, (refl, tt), tt)

match_loop-last_inner_example : match_loop nests late ≡ last_inner late nests
match_loop-last_inner_example = match_loop-last_inner nests late nests-AllScoped

abbrev function_at : ℕ → Subprogram
function_at l = record {
  directory = codes "/src";
  filename = codes "gcc/main.c";
  name = codes "f";
  linenumber = l;
  lastline = 0;
  function = some l;
}

sort_by-Ascending_example :
    Ascending (sort_by cmp_disp_copy (function_at 30 ∷ function_at 10 ∷ function_at 20 ∷ []))
sort_by-Ascending_example =
    sort_by-Ascending (codes "/src") (codes "gcc/main.c")
      (function_at 30 ∷ function_at 10 ∷ function_at 20 ∷ [])
      ((refl, refl, omega arith), ((refl, refl, omega arith), ((refl, refl, omega arith), tt)))

abbrev unit : CompileUnit
unit = record {
  directory = codes "/src";
  filename = codes "gcc/main.c";
  is_current = true;
  subprograms =
      record { subprogram = function_at 30; body = none }
      ∷ record { subprogram = function_at 10; body = some ((line 10 ∷ line 28 ∷ []) ∷ []) }
      ∷ [];
}

abbrev idle : Matcher
idle = record {
  initialized = false;
  processed = true;
  filename = [];
  patchname = [];
  sps = [];
  cus = unit ∷ [];
  patchstrips = pos 1;
  debugstrips = pos 2;
}

abbrev target : Text
target = codes "a/gcc/./main.c"

-- The functions are sorted, and the first one is that of line 10.
reset_target-sorted :
    (reset_target (unit ∷ []) idle target).0.rest
    ≡ record (function_at 10) { lastline = 28 } ∷ function_at 30 ∷ []
unfolding reset_target cmp_disp_copy pathneq get_last_line
reset_target-sorted = refl
