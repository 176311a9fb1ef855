-- ===== src/Examples/Graphs.antt =====
-- A loop with a branch inside, and a return behind it.
use perfscope.Base.{
  ◌+◌, ◌≤◌, arith, Bool-cases, if◌then◌else◌, In, subst, ◌≡◌, refl, inl, inr, false, ℕ, ◌-◌, zero,
  suc, List, [], ◌∷◌, none, some, ◌==◌,
}
use perfscope.Analyzer.Cost.{
  Inst, call, base_model, get_instruction_cost, get_basic_block_cost, get_loop_cost,
}
use perfscope.Analyzer.Cost.Sums.{get_loop_cost-total}
use perfscope.Analyzer.Longest.{get_function_cost}
use perfscope.Analyzer.Dag.{
  gray, BbNode, exit, block, Cfg, BbDag, empty_dag, paint, add_edge, leave, init_dag,
}
use perfscope.Analyzer.Longest.Ends.{IsEntered, FitsCounts}
use perfscope.Analyzer.Longest.Routes.{Route, start, follow}
use perfscope.Analyzer.Longest.Dearest.{FitsRoutes, IsDearest, get_function_cost-IsDearest}
use perfscope.Analyzer.Dag.Counts.{Counted, init_dag-Counted}
use perfscope.Analyzer.Dag.Ends.{IsClosed, IsAcyclic, init_dag-IsAcyclic}

abbrev branches : ℕ → List ℕ
branches (suc zero) = 2 ∷ 3 ∷ []
branches (suc (suc zero)) = 4 ∷ []
branches (suc (suc (suc zero))) = 4 ∷ []
branches (suc (suc (suc (suc zero)))) = 1 ∷ 5 ∷ []
branches zero = []
branches (suc (suc (suc (suc (suc n))))) = []

abbrev looping : Cfg
looping = record {
  entry = 1;
  others = 2 ∷ 3 ∷ 4 ∷ 5 ∷ [];
  successors = branches;
  is_final = λ b. b == 5;
}

looping-IsClosed : IsClosed looping
looping-IsClosed (suc zero) i = (inr (inl refl), (inr (inr (inl refl)), tt))
looping-IsClosed (suc (suc zero)) i = (inr (inr (inr (inl refl))), tt)
looping-IsClosed (suc (suc (suc zero))) i = (inr (inr (inr (inl refl))), tt)
looping-IsClosed (suc (suc (suc (suc zero)))) i = (inl refl, (inr (inr (inr (inr (inl refl)))), tt))
looping-IsClosed zero i = tt
looping-IsClosed (suc (suc (suc (suc (suc n))))) i = tt

init_dag-IsAcyclic_example : (d : BbDag) × (init_dag looping ≡ some d) × IsAcyclic d
init_dag-IsAcyclic_example = init_dag-IsAcyclic looping looping-IsClosed

-- A call whose cost is that number.
abbrev costing : ℕ → Inst
costing n = record {
  is_intrinsic_inst = false;
  opcode = call;
  ty = 0;
  condition_ty = 0;
  operand_ty = 0;
  value_ty = 0;
  alignment = 0;
  address_space = 0;
  index = none;
  num_args = n - 1;
}

-- The blocks 1, 3, 4 and 5 are on the dearest path.
looping-cost : get_function_cost base_model (λ b. costing b ∷ []) (some looping) ≡ some 13
unfolding get_function_cost
looping-cost = refl

get_loop_cost-total_example :
    get_loop_cost base_model ((costing 2 ∷ costing 3 ∷ []) ∷ (costing 5 ∷ []) ∷ []) ≡ 10
unfolding get_instruction_cost
get_loop_cost-total_example =
    get_loop_cost-total base_model ((costing 2 ∷ costing 3 ∷ []) ∷ (costing 5 ∷ []) ∷ [])

init_dag-Counted_example : (d : BbDag) × (init_dag looping ≡ some d) × Counted looping d
init_dag-Counted_example = init_dag-Counted looping looping-IsClosed

-- A block in front of one that returns.
abbrev straight : Cfg
straight = record {
  entry = 1;
  others = 2 ∷ [];
  successors = λ b. if b == 1 then 2 ∷ [] else [];
  is_final = λ b. b == 2;
}

straight-IsClosed : IsClosed straight
straight-IsClosed b i = elim (Bool-cases (b == 1)) [
  | inl e ↦ rw e (inr (inl refl), tt)
  | inr e ↦ rw e tt
]

straight-IsEntered : IsEntered straight
straight-IsEntered b i = elim (Bool-cases (b == 1)) [
  | inl e ↦
      let j : In {A = ℕ} 1 (2 ∷ []) = rw e at i in
      elim j [ inl s ↦ let t : ◌≡◌ {A = ℕ} 1 2 = s in absurd (omega (arith, t)) | inr x ↦ absurd x ]
  | inr e ↦ let j : In {A = ℕ} 1 [] = rw e at i in absurd j
]

abbrev straight_dag : BbDag
straight_dag =
    leave straight 1
      (leave straight 2 (paint 2 gray (add_edge 1 (block 2) (paint 1 gray empty_dag))))

straight-built : init_dag straight ≡ some straight_dag
unfolding init_dag
straight-built = refl

straight-FitsCounts : FitsCounts straight_dag
straight-FitsCounts exit = omega arith
straight-FitsCounts (block b) = elim (Bool-cases (b == 2)) [
  | inl t ↦ rw t (omega arith)
  | inr t ↦ rw t (omega arith)
]

-- Every block is a call of two arguments.
abbrev threes : ℕ → List Inst
threes b = costing 3 ∷ []

abbrev three : ℕ → ℕ
three b = get_basic_block_cost base_model (some (threes b))

three_each : (b : ℕ) → three b ≡ 3
unfolding get_basic_block_cost
three_each b = refl

abbrev bound : BbNode → ℕ
bound exit = 6
bound (block b) = if b == 1 then 0 else 3

edge_bound : (b : ℕ) (n : BbNode) → In n (straight_dag.succ b) → bound (block b) + 3 ≤ bound n
edge_bound b n i = elim (Bool-cases (b == 1)) [
  | inl t ↦
      let same : b ≡ 1 = ground (arith, t) in
      let j : In n (straight_dag.succ 1) = subst (λ k. In n (straight_dag.succ k)) same i in
      elim j [ inl e ↦ rw (e, t) (omega arith) | inr x ↦ absurd x ]
  | inr t ↦ elim (Bool-cases (b == 2)) [
    | inl u ↦
        let same : b ≡ 2 = ground (arith, u) in
        let j : In n (straight_dag.succ 2) = subst (λ k. In n (straight_dag.succ k)) same i in
        elim j [ inl e ↦ rw (e, t) (omega arith) | inr x ↦ absurd x ]
    | inr u ↦ let j : In n [] = rw (t, u) at i in absurd j
  ]
]

route_bound : {n : BbNode} {c : ℕ} → Route straight_dag three 1 n c → c ≤ bound n
route_bound start = omega arith
route_bound (follow {b} {n} r i e) = omega (arith, route_bound r, three_each b, edge_bound b n i, e)

bound_block : (b : ℕ) → bound (block b) ≤ 3
bound_block b = ground arith

straight-FitsRoutes : FitsRoutes straight straight_dag three
straight-FitsRoutes b c r = omega (arith, route_bound r, bound_block b, three_each b)

straight_fits :
    (d : BbDag) → init_dag straight ≡ some d → FitsCounts d × FitsRoutes straight d three
straight_fits d e =
    let same : straight_dag ≡ d = cc (e, straight-built) in
    subst (λ k. FitsCounts k × FitsRoutes straight k three) same
      (straight-FitsCounts, straight-FitsRoutes)

get_function_cost-IsDearest_example :
    (d : BbDag) × (cost : ℕ) × (init_dag straight ≡ some d)
    × (get_function_cost base_model threes (some straight) ≡ some cost)
    × IsDearest straight d three cost
get_function_cost-IsDearest_example =
    get_function_cost-IsDearest base_model threes straight straight-IsClosed straight-IsEntered
      straight_fits
