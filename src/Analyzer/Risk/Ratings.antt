-- ===== src/Analyzer/Risk/Ratings.antt =====
-- The rating of an instruction without the table of loop depths, and the proof that the table does
-- not change it.
use perfscope.Base.{
  ℕ, ◌≡◌, refl, ap, ◌∙◌, inl, inr, Bool, true, false, ◌&&◌, ◌||◌, List, [], ◌∷◌, Option, none, some,
  arith, ltb, ◌==◌, if◌then◌else◌, Bool-cases, Option-cases,
}
use perfscope.Analyzer.Risk.{
  RiskLevel, no_risk, Hotness, cold, regular, hot, risk_matrix, loop_count_tight, Llvm,
  LoopDepthMap, find_depth, max_count, get_loop_depth, loop_hotness, hotness_loop,
  calc_inst_hotness, assess_exp, is_hot, assess,
}

-- No exiting block of the loop has a known trip count.
abbrev pub all_unknown : List (Option ℕ) → Bool
all_unknown [] = true
all_unknown (none ∷ cs) = all_unknown cs
all_unknown (some c ∷ cs) = c == 0 && all_unknown cs

-- Some exiting block has a trip count over the threshold.
abbrev pub any_over : List (Option ℕ) → Bool
any_over [] = false
any_over (none ∷ cs) = any_over cs
any_over (some c ∷ cs) = ltb loop_count_tight c || any_over cs

-- A loop whose trip count is unknown or over the threshold.
abbrev pub is_tight : List (Option ℕ) → Bool
is_tight cs = all_unknown cs || any_over cs

abbrev pub outermost : List ℕ → Option ℕ
outermost [] = none
outermost (l ∷ []) = some l
outermost (l ∷ k ∷ ls) = outermost (k ∷ ls)

-- What the outermost loop says of the instructions in it.
abbrev pub nest_hotness : Llvm → List ℕ → Hotness
nest_hotness llvm ls = elim (outermost ls) [
  | none ↦ cold
  | some l ↦ if is_tight (llvm.trip_counts l) then hot else regular
]

abbrev pub rating : Llvm → Hotness → ℕ → RiskLevel
rating llvm func_hotness i =
    if llvm.is_intrinsic_inst i
    then no_risk
    else risk_matrix
        (if is_hot func_hotness
          then hot
          else if llvm.no_loops
          then regular
          else nest_hotness llvm (llvm.loops_for i))
        (assess_exp llvm i)

-- Every entry of the table is what the loop's exiting blocks give.
abbrev pub Consistent : Llvm → LoopDepthMap → Type 0
Consistent llvm [] = Unit {0}
Consistent llvm ((l, n) ∷ m) = (n ≡ max_count (llvm.trip_counts l) 0) × Consistent llvm m

max_count-over :
    (cs : List (Option ℕ)) (n : ℕ)
    → ltb loop_count_tight (max_count cs n) ≡ (ltb loop_count_tight n || any_over cs)
max_count-over [] n = ground arith
max_count-over (none ∷ cs) n = max_count-over cs n
max_count-over (some c ∷ cs) n = max_count-over cs (if ltb n c then c else n) ∙ ground arith

max_count-unknown :
    (cs : List (Option ℕ)) (n : ℕ) → (max_count cs n == 0) ≡ (n == 0 && all_unknown cs)
max_count-unknown [] n = ground arith
max_count-unknown (none ∷ cs) n = max_count-unknown cs n
max_count-unknown (some c ∷ cs) n = max_count-unknown cs (if ltb n c then c else n) ∙ ground arith

loop_hotness-tight :
    (cs : List (Option ℕ)) → loop_hotness (max_count cs 0) ≡ (if is_tight cs then hot else regular)
loop_hotness-tight cs = rw (max_count-over cs 0, max_count-unknown cs 0)

find_depth-Consistent :
    (llvm : Llvm) (m : LoopDepthMap) (l n : ℕ)
    → Consistent llvm m
    → find_depth m l ≡ some n
    → n ≡ max_count (llvm.trip_counts l) 0
find_depth-Consistent llvm [] l n w e = absurd (cc e)
find_depth-Consistent llvm ((k, d) ∷ m) l n w e = elim (Bool-cases (k == l)) [
  | inl t ↦ ground (arith, w)
  | inr f ↦ find_depth-Consistent llvm m l n w.1 (rw f at e)
]

get_loop_depth_lem :
    (llvm : Llvm) (m : LoopDepthMap) (l : ℕ)
    → Consistent llvm m
    → ((get_loop_depth llvm m l).0 ≡ max_count (llvm.trip_counts l) 0)
      × Consistent llvm (get_loop_depth llvm m l).1
unfolding get_loop_depth
get_loop_depth_lem llvm m l w = elim (Option-cases (find_depth m l)) [
  | inl e ↦ rw (get_loop_depth, e) (refl, (refl, w))
  | inr (n, e) ↦ rw (get_loop_depth, e) (find_depth-Consistent llvm m l n w e, w)
]

hotness_loop_lem :
    (llvm : Llvm) (m : LoopDepthMap) (l : ℕ) (ls : List ℕ) (h : Hotness)
    → Consistent llvm m
    → ((hotness_loop llvm m (l ∷ ls) h).0 ≡ nest_hotness llvm (l ∷ ls))
      × Consistent llvm (hotness_loop llvm m (l ∷ ls) h).1
unfolding hotness_loop
hotness_loop_lem llvm m l [] h w =
    let (depth, w') = get_loop_depth_lem llvm m l w in
    (ap loop_hotness depth ∙ loop_hotness-tight (llvm.trip_counts l), w')
hotness_loop_lem llvm m l (k ∷ ls) h w =
    let (depth, w') = get_loop_depth_lem llvm m l w in
    hotness_loop_lem llvm (get_loop_depth llvm m l).1 k ls
      (loop_hotness (get_loop_depth llvm m l).0) w'

-- While the table of loop depths is consistent, the hotness of an instruction is cold outside every
-- loop, and else that of the outermost loop around it alone, whatever the inner loops are: hot if
-- no exiting block of that loop has a known trip count or one has more than ten, regular if not.
-- The table stays consistent.
pub calc_inst_hotness-outermost :
    (llvm : Llvm) (m : LoopDepthMap) (i : ℕ)
    → Consistent llvm m
    → ((calc_inst_hotness llvm m i).0 ≡ nest_hotness llvm (llvm.loops_for i))
      × Consistent llvm (calc_inst_hotness llvm m i).1
unfolding calc_inst_hotness hotness_loop
calc_inst_hotness-outermost llvm m i w = go (llvm.loops_for i)
  where
    go :
        (ls : List ℕ)
        → ((hotness_loop llvm m ls cold).0 ≡ nest_hotness llvm ls)
          × Consistent llvm (hotness_loop llvm m ls cold).1
    go [] = (refl, w)
    go (l ∷ ls) = hotness_loop_lem llvm m l ls cold w

-- While the table of loop depths is consistent, the risk of an instruction does not depend on it:
-- an intrinsic has no risk, and any other instruction has the entry of the matrix for its
-- expensiveness and for hot in a hot function, regular in a function without loops, and the hotness
-- of the outermost loop else. The table stays consistent.
pub assess-rating :
    (llvm : Llvm) (m : LoopDepthMap) (func_hotness : Hotness) (i : ℕ)
    → Consistent llvm m
    → ((assess llvm m func_hotness i).0 ≡ rating llvm func_hotness i)
      × Consistent llvm (assess llvm m func_hotness i).1
unfolding assess
assess-rating llvm m fh i w =
    let (h, w') = calc_inst_hotness-outermost llvm m i w in
    elim (Bool-cases (llvm.is_intrinsic_inst i)) [
      | inl e ↦ rw e (refl, w)
      | inr e ↦ elim (Bool-cases (is_hot fh)) [
        | inl f ↦ rw (e, f) (refl, w)
        | inr f ↦ elim (Bool-cases llvm.no_loops) [
          | inl g ↦ rw (e, f, g) (refl, w)
          | inr g ↦ rw (e, f, g) (ap (λ k. risk_matrix k (assess_exp llvm i)) h, w')
        ]
      ]
    ]
