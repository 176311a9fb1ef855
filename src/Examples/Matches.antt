-- ===== src/Examples/Matches.antt =====
-- Two functions of one file, and a hunk that reaches into both.
use perfscope.Base.{arith, ◌≡◌, refl, true, false, [], ◌∷◌, some, codes}
use perfscope.Base.Int.{pos}
use perfscope.Commons.Canon.{pathneq}
use perfscope.Commons.Scope.{Scope}
use perfscope.Mapper.Matcher.{Subprogram, Matcher, Position, match_function}
use perfscope.Mapper.Matcher.Overlaps.{Decides, match_function-Decides}

abbrev matcher : Matcher
matcher = record {
  initialized = true;
  processed = true;
  filename = codes "a/gcc/main.c";
  patchname = codes "gcc/main.c";
  sps = [];
  cus = [];
  patchstrips = pos 1;
  debugstrips = pos 2;
}

abbrev first : Subprogram
first = record {
  directory = codes "/src";
  filename = codes "gcc/main.c";
  name = codes "f";
  linenumber = 10;
  lastline = 0;
  function = some 1;
}

abbrev second : Subprogram
second = record {
  directory = codes "/src";
  filename = codes "gcc/main.c";
  name = codes "f";
  linenumber = 30;
  lastline = 45;
  function = some 2;
}

abbrev start : Position
start = record { passed = []; rest = first ∷ second ∷ [] }

abbrev hunk : Scope
hunk = record { begin = 25; end = 32 }

match_function-Decides_example : Decides hunk [] (match_function matcher start hunk true)
match_function-Decides_example =
    match_function-Decides matcher start hunk true (omega arith, omega arith, tt) (omega arith)

-- The first function ends with line 29, where the rest of the hunk begins.
match_function-first :
    match_function matcher start hunk true
    ≡ some (record {
      result = some 1;
      position = record { passed = []; rest = record first { lastline = 29 } ∷ second ∷ [] };
      scope = record { begin = 30; end = 32 };
      multiple = false;
    })
unfolding match_function pathneq
match_function-first = refl
