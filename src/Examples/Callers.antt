-- ===== src/Examples/Callers.antt =====
-- Three functions that call each other in a ring, and one that calls in a loop.
use perfscope.Base.{arith, ◌≡◌, refl, false, List, [], ◌∷◌, some, none, ℕ, ◌==◌, if◌then◌else◌}
use perfscope.Base.Int.{pos}
use perfscope.Analyzer.Risk.{regular, hot}
use perfscope.Analyzer.Callers.{CallSite, CallGraph, calc_caller_hotness}
use perfscope.Analyzer.Callers.Ends.{IsClosed, Answers, calc_caller_hotness_decides}

-- Function `f` is called by the next one of 1, 2 and 3; 3 is called in a loop of 1.
abbrev sites : ℕ → List CallSite
sites f =
    if f == 1
    then record { caller = 2; block = some 20 } ∷ []
    else if f == 2
    then record { caller = 3; block = none } ∷ []
    else if f == 3
    then record { caller = 1; block = some 10 } ∷ []
    else []

abbrev ring : CallGraph
ring = record {
  name_hotness = λ f. regular;
  call_sites = sites;
  is_declaration = λ f. false;
  has_loop_for = λ f b. b == 10;
}

ring-IsClosed : IsClosed ring (1 ∷ 2 ∷ 3 ∷ [])
ring-IsClosed f m = ground arith

calc_caller_hotness_decides_example : Answers (calc_caller_hotness 6 ring (some 2) (pos 4) [])
calc_caller_hotness_decides_example =
    calc_caller_hotness_decides 6 ring (1 ∷ 2 ∷ 3 ∷ []) 2 4 [] ring-IsClosed refl (omega arith)
      (omega arith)

-- From 2 over 3 to the loop of 1, which two levels do not reach.
calc_caller_hotness-ring :
    (calc_caller_hotness 6 ring (some 2) (pos 4) [] ≡ some (hot, 1 ∷ []))
    × (calc_caller_hotness 6 ring (some 2) (pos 2) [] ≡ some (regular, []))
unfolding calc_caller_hotness
calc_caller_hotness-ring = (refl, refl)
