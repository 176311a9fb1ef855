-- ===== src/Analyzer/Risk.antt =====
-- The risk evaluator, lib/analyzer/RiskEvaluator/Evaluator.cpp: the rating of an instruction and the
-- statistics of a function. Instructions, functions and loops are pointers of LLVM, and what LLVM
-- and the cost model answer about them is the record `Llvm`.
pub mod Ratings
pub mod Stats
use perfscope.Base.{
  ℕ, zero, suc, ◌+◌, ◌-◌, Bool, true, false, not, ◌&&◌, ◌||◌, List, [], ◌∷◌, Option, none, some,
  Text, ltb, leb, ◌==◌, if◌then◌else◌, length, inc, u32_mod,
}
use perfscope.Analyzer.Profile.{
  SpeFuncType, invalidtype, syscall, lockcall, expcall, freqcall, type_eq, Profile, binary_search,
}

pub data RiskLevel : Type 0 where
  no_risk low_risk moderate_risk high_risk extreme_risk : RiskLevel

pub data Hotness : Type 0 where
  cold regular hot : Hotness

pub data Expensiveness : Type 0 where
  minor normal expensive : Expensiveness

-- The number of the enum.
abbrev pub rank : RiskLevel → ℕ
rank no_risk = 0
rank low_risk = 1
rank moderate_risk = 2
rank high_risk = 3
rank extreme_risk = 4

abbrev pub risk_matrix : Hotness → Expensiveness → RiskLevel
risk_matrix cold minor = low_risk
risk_matrix cold normal = low_risk
risk_matrix cold expensive = moderate_risk
risk_matrix regular minor = low_risk
risk_matrix regular normal = moderate_risk
risk_matrix regular expensive = high_risk
risk_matrix hot minor = moderate_risk
risk_matrix hot normal = high_risk
risk_matrix hot expensive = extreme_risk

-- LOOPCOUNTTIGHT and INSTEXP
abbrev pub loop_count_tight : ℕ
loop_count_tight = 10

abbrev pub inst_exp : ℕ
inst_exp = 10

-- The classes that the evaluator casts an instruction to: a call of a function, if the called value
-- is one, and a branch with the instructions of each successor.
pub data Kind : Type 0 where
  call : Option ℕ → Kind
  branch : Bool → List (List ℕ) → Kind
  other : Kind

pub record Llvm : Type 0 where
  pub is_intrinsic_inst : ℕ → Bool
  pub kind : ℕ → Kind
  pub is_intrinsic : ℕ → Bool
  -- The demangled name of a function.
  pub name : ℕ → Text
  -- LoopInfo::empty, and the loop of an instruction's block with its parents outwards.
  pub no_loops : Bool
  pub loops_for : ℕ → List ℕ
  -- The exiting blocks of a loop, and ScalarEvolution::getSmallConstantTripCount; none is a null.
  pub trip_counts : ℕ → List (Option ℕ)
  -- The cost model, where there is one.
  pub cost : Option (ℕ → ℕ)
  pub profile : Option Profile

-- The entries of the profile in the order of std::map.
abbrev pub profile_types : List SpeFuncType
profile_types = invalidtype ∷ syscall ∷ lockcall ∷ expcall ∷ freqcall ∷ []

pub find_in : (SpeFuncType → Bool) → Profile → List SpeFuncType → Text → Bool
find_in wanted p [] name = false
find_in wanted p (t ∷ ts) name =
    let rest = find_in wanted p ts name in
    if wanted t then (if binary_search (p t) name then true else rest) else rest

unfoldable pub calc_name_hotness : Option Profile → Text → Hotness
unfolding find_in
calc_name_hotness none name = regular
calc_name_hotness (some p) name =
    if find_in (λ t. type_eq t freqcall) p profile_types name then hot else regular

unfoldable pub calc_name_exp : Option Profile → Text → Expensiveness
unfolding find_in
calc_name_exp none name = normal
calc_name_exp (some p) name =
    if find_in (λ t. type_eq t syscall || type_eq t lockcall || type_eq t expcall) p profile_types
      name
    then expensive
    else normal

-- A null function is cold, and minor.
unfoldable pub calc_func_hotness : Llvm → Option ℕ → Hotness
unfolding calc_name_hotness
calc_func_hotness llvm none = cold
calc_func_hotness llvm (some f) = calc_name_hotness llvm.profile (llvm.name f)

unfoldable pub calc_func_exp : Llvm → Option ℕ → Expensiveness
unfolding calc_name_exp
calc_func_exp llvm none = minor
calc_func_exp llvm (some f) = calc_name_exp llvm.profile (llvm.name f)

abbrev pub exp_of_cost : ℕ → Expensiveness
exp_of_cost c =
    if c == 0 || c == u32_mod - 1 then minor else if ltb inst_exp c then expensive else normal

unfoldable pub calc_inst_exp : Llvm → ℕ → Expensiveness
unfolding calc_func_exp
calc_inst_exp llvm i = elim (llvm.kind i) [
  | call none ↦ minor
  | call (some f) ↦ if llvm.is_intrinsic f then minor else calc_func_exp llvm (some f)
  | branch _ _ ↦ elim llvm.cost [ none ↦ minor | some cost ↦ exp_of_cost (cost i) ]
  | other ↦ elim llvm.cost [ none ↦ minor | some cost ↦ exp_of_cost (cost i) ]
]

abbrev pub is_expensive : Expensiveness → Bool
is_expensive expensive = true
is_expensive _ = false

pub count_expensive : Llvm → List ℕ → ℕ → ℕ
unfolding calc_inst_exp
count_expensive llvm [] exps = exps
count_expensive llvm (i ∷ is) exps =
    count_expensive llvm is (if is_expensive (calc_inst_exp llvm i) then inc exps else exps)

pub count_successors : Llvm → List (List ℕ) → ℕ → ℕ
unfolding count_expensive
count_successors llvm [] exps = exps
count_successors llvm (b ∷ bs) exps = count_successors llvm bs (count_expensive llvm b exps)

unfoldable pub is_perf_sensitive : Llvm → Bool → List (List ℕ) → Bool
unfolding count_successors
is_perf_sensitive llvm unconditional succs =
    if unconditional
    then false
    else (let exps = count_successors llvm succs 0 in not (exps == 0) && not (exps == length succs))

-- LoopDepthMap, the last insertion first.
abbrev pub LoopDepthMap : Type 0
LoopDepthMap = List (ℕ × ℕ)

abbrev pub find_depth : LoopDepthMap → ℕ → Option ℕ
find_depth [] l = none
find_depth ((k, n) ∷ m) l = if k == l then some n else find_depth m l

abbrev pub max_count : List (Option ℕ) → ℕ → ℕ
max_count [] count = count
max_count (none ∷ cs) count = max_count cs count
max_count (some c ∷ cs) count = max_count cs (if ltb count c then c else count)

pub get_loop_depth : Llvm → LoopDepthMap → ℕ → ℕ × LoopDepthMap
get_loop_depth llvm m l = elim (find_depth m l) [
  | some n ↦ (n, m)
  | none ↦ (max_count (llvm.trip_counts l) 0, (l, max_count (llvm.trip_counts l) 0) ∷ m)
]

abbrev pub loop_hotness : ℕ → Hotness
loop_hotness cnt = if cnt == 0 || ltb loop_count_tight cnt then hot else regular

-- The loop from the innermost loop outwards.
pub hotness_loop : Llvm → LoopDepthMap → List ℕ → Hotness → Hotness × LoopDepthMap
unfolding get_loop_depth
hotness_loop llvm m [] h = (h, m)
hotness_loop llvm m (l ∷ ls) h =
    let (cnt, m') = get_loop_depth llvm m l in hotness_loop llvm m' ls (loop_hotness cnt)

pub calc_inst_hotness : Llvm → LoopDepthMap → ℕ → Hotness × LoopDepthMap
unfolding hotness_loop
calc_inst_hotness llvm m i = hotness_loop llvm m (llvm.loops_for i) cold

-- The expensiveness that `assess` rates by: a sensitive branch is expensive.
pub assess_exp : Llvm → ℕ → Expensiveness
unfolding calc_inst_exp is_perf_sensitive
assess_exp llvm i =
    let exp = calc_inst_exp llvm i in
    if is_expensive exp then exp else elim (llvm.kind i) [
      | call _ ↦ exp
      | branch unconditional succs ↦
          if is_perf_sensitive llvm unconditional succs then expensive else exp
      | other ↦ exp
    ]

abbrev pub is_hot : Hotness → Bool
is_hot hot = true
is_hot _ = false

unfoldable pub assess : Llvm → LoopDepthMap → Hotness → ℕ → RiskLevel × LoopDepthMap
unfolding assess_exp calc_inst_hotness
assess llvm m func_hotness i =
    if llvm.is_intrinsic_inst i
    then (no_risk, m)
    else if is_hot func_hotness
    then (risk_matrix hot (assess_exp llvm i), m)
    else if llvm.no_loops
    then (risk_matrix regular (assess_exp llvm i), m)
    else (let (h, m') = calc_inst_hotness llvm m i in (risk_matrix h (assess_exp llvm i), m'))

-- if (r > max) max = r;
abbrev pub raise : RiskLevel → RiskLevel → RiskLevel
raise max r = if ltb (rank max) (rank r) then r else max

-- The instructions that the slicer still gives, until next returns a null.
pub assess_slice : Llvm → LoopDepthMap → Hotness → List ℕ → RiskLevel → RiskLevel × LoopDepthMap
unfolding assess
assess_slice llvm m func_hot [] max = (max, m)
assess_slice llvm m func_hot (i ∷ is) max =
    let (r, m') = assess llvm m func_hot i in assess_slice llvm m' func_hot is (raise max r)

abbrev pub RiskStat : Type 0
RiskStat = RiskLevel → ℕ

abbrev pub bump : RiskStat → RiskLevel → RiskStat
bump stat r q = if rank q == rank r then inc (stat q) else stat q

pub record Evaluator : Type 0 where
  pub loop_depth_map : LoopDepthMap
  -- What the slicer has left.
  pub slice : List ℕ
  pub func_risk_stat : RiskStat
  pub all_risk_stat : RiskStat

-- One round of the loop over the instructions. Above level 1 the slicer is drained.
pub run_step : Llvm → ℕ → Hotness → Evaluator → ℕ → Evaluator
unfolding assess_slice assess
run_step llvm level func_hot e i =
    let (r, m) = assess llvm e.loop_depth_map func_hot i in
    let (max, m') = assess_slice llvm m func_hot e.slice r in
    let sliced = ltb 1 level in
    let top = if sliced then max else r in
    record {
      loop_depth_map = if sliced then m' else m;
      slice = if sliced then [] else e.slice;
      func_risk_stat = bump e.func_risk_stat top;
      all_risk_stat = bump e.all_risk_stat top;
    }

pub run_loop : Llvm → ℕ → Hotness → Evaluator → List ℕ → Evaluator
unfolding run_step
run_loop llvm level func_hot e [] = e
run_loop llvm level func_hot e (i ∷ is) =
    run_loop llvm level func_hot (run_step llvm level func_hot e i) is

-- runOnFunction on a function of the target: its instructions, the hotness of its callers, and the
-- slice that the slicer computes from the instructions.
unfoldable pub run_on_function :
    Llvm → ℕ → Hotness → (List ℕ → List ℕ) → RiskStat → List ℕ → Evaluator
unfolding run_loop run_step
run_on_function llvm level func_hot compute_slice all_risk_stat insts =
    run_loop llvm level func_hot
      (record {
        loop_depth_map = [];
        slice = if ltb 1 level then compute_slice insts else [];
        func_risk_stat = λ r. 0;
        all_risk_stat = all_risk_stat;
      })
      insts
