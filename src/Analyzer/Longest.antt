-- ===== src/Analyzer/Longest.antt =====
-- CostModel::getFunctionCost of lib/analyzer/CostModel/CostModel.cpp: the cost of the dearest path through
-- the acyclic graph of the blocks.
pub mod Counting
pub mod Ends
pub mod Complete
pub mod Routes
pub mod Dearest
use perfscope.Base.{
  ℕ, zero, suc, ◌+◌, ◌%◌, ◌&&◌, List, [], ◌∷◌, ◌++◌, Option, none, some, ltb, ◌==◌, if◌then◌else◌,
  u32_mod,
}
use perfscope.Analyzer.Cost.{Inst, CostModel, get_basic_block_cost}
use perfscope.Analyzer.Dag.{BbNode, exit, block, node_eq, Cfg, BbDag, total_edges, init_dag}

-- The fields of the nodes that the walk changes, and bfsQueue.
pub record Walk : Type 0 where
  pub cost : BbNode → ℕ
  pub in_cnt : BbNode → ℕ
  pub queue : List BbNode

abbrev pub dec_in_count : ℕ → ℕ
dec_in_count zero = 0
dec_in_count (suc n) = n

-- An edge out of `node`.
abbrev pub relax : ℕ → BbNode → Walk → Walk
relax node child w =
    let in_cnt = dec_in_count (w.in_cnt child) in
    record {
      cost = λ n.
          if node_eq n child && ltb (w.cost child) (w.cost (block node))
          then w.cost (block node)
          else w.cost n;
      in_cnt = λ n. if node_eq n child then in_cnt else w.in_cnt n;
      queue = if in_cnt == 0 then w.queue ++ child ∷ [] else w.queue;
    }

pub relax_all : ℕ → List BbNode → Walk → Walk
relax_all node [] w = w
relax_all node (c ∷ cs) w = relax_all node cs (relax node c w)

-- The cost of the block is added when all edges into it have been followed.
abbrev pub settle_cost : ℕ → ℕ → Walk → Walk
settle_cost node c w = record w {
  cost = λ n. if node_eq n (block node) then (w.cost n + c) % u32_mod else w.cost n;
}

-- The front of the queue. `costs` are those of the blocks.
pub pop_node : (ℕ → ℕ) → BbDag → BbNode → Walk → Walk
unfolding relax_all
pop_node costs d exit w = w
pop_node costs d (block b) w = relax_all b (d.succ b) (settle_cost b (costs b) w)

-- `none` would be a loop that does not end.
pub walk_loop : ℕ → (ℕ → ℕ) → BbDag → Walk → Option Walk
unfolding pop_node
walk_loop zero costs d w = none
walk_loop (suc fuel) costs d w = elim w.queue [
  | [] ↦ some w
  | n ∷ queue ↦ walk_loop fuel costs d (pop_node costs d n (record w { queue = queue }))
]

abbrev pub start_walk : Cfg → BbDag → Walk
start_walk f d = record { cost = λ n. 0; in_cnt = d.in_cnt; queue = block f.entry ∷ [] }

-- A function without blocks costs nothing. The search in depth and the walk are given fuel for the
-- blocks and the edges.
unfoldable pub get_function_cost : CostModel → (ℕ → List Inst) → Option Cfg → Option ℕ
unfolding init_dag walk_loop total_edges get_basic_block_cost
get_function_cost m insts none = some 0
get_function_cost m insts (some f) = elim (init_dag f) [
  | none ↦ none
  | some d ↦
      elim (walk_loop (total_edges f (f.entry ∷ f.others) + 3)
        (λ b. get_basic_block_cost m (some (insts b))) d (start_walk f d)) [
          | none ↦ none
          | some w ↦ some (w.cost exit)
        ]
]
