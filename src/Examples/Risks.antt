-- ===== src/Examples/Risks.antt =====
-- A function with a nest of two loops, a call of a frequent function and a branch.
use perfscope.Base.{◌≡◌, refl, false, [], ◌∷◌, some, none, codes, ℕ, ◌==◌, if◌then◌else◌}
use perfscope.Analyzer.Profile.{empty_profile, push_back, expcall}
use perfscope.Analyzer.Risk.{
  cold, Kind, call, branch, other, Llvm, calc_inst_hotness, assess, RiskStat,
}
use perfscope.Analyzer.Risk.Ratings.{
  Consistent, nest_hotness, rating, calc_inst_hotness-outermost, assess-rating,
}

-- Instruction 1 calls function 7, instruction 2 branches to a block with 1 and one with 3.
abbrev kinds : ℕ → Kind
kinds i =
    if i == 1
    then call (some 7)
    else if i == 2
    then branch false ((1 ∷ []) ∷ (3 ∷ []) ∷ [])
    else other

-- Instruction 1 lies in loop 20, whose trip count is unknown, inside loop 21 of four rounds.
abbrev function : Llvm
function = record {
  is_intrinsic_inst = λ i. i == 9;
  kind = kinds;
  is_intrinsic = λ f. false;
  name = λ f. codes "compress";
  no_loops = false;
  loops_for = λ i. if i == 1 then 20 ∷ 21 ∷ [] else [];
  trip_counts = λ l. if l == 20 then some 0 ∷ none ∷ [] else some 4 ∷ [];
  cost = some (λ i. i);
  profile = some (push_back empty_profile expcall (codes "compress"));
}

calc_inst_hotness-outermost_example :
    ((calc_inst_hotness function ((21, 4) ∷ []) 1).0 ≡ nest_hotness function (20 ∷ 21 ∷ []))
    × Consistent function (calc_inst_hotness function ((21, 4) ∷ []) 1).1
calc_inst_hotness-outermost_example =
    calc_inst_hotness-outermost function ((21, 4) ∷ []) 1 (refl, tt)

assess-rating_example :
    ((assess function ((21, 4) ∷ []) cold 1).0 ≡ rating function cold 1)
    × Consistent function (assess function ((21, 4) ∷ []) cold 1).1
assess-rating_example = assess-rating function ((21, 4) ∷ []) cold 1 (refl, tt)

abbrev no_stat : RiskStat
no_stat r = 0
