-- ===== src/Analyzer/Dag.antt =====
-- BBDAG of lib/analyzer/CostModel/CFGDAG.cpp: an acyclic graph of the blocks of a function, by a search
-- in depth that leads the edges back to the exit. Blocks are numbers; the exit stands for no block.
pub mod Visits
pub mod Ranks
pub mod Entered
pub mod Ends
pub mod Rule
pub mod Counts
pub mod Linked
use perfscope.Base.{
  ℕ, zero, suc, ◌+◌, Bool, true, false, List, [], ◌∷◌, ◌++◌, Option, none, some, length, ◌==◌,
  if◌then◌else◌, inc,
}

pub data BbNodeColor : Type 0 where
  white gray black : BbNodeColor

pub data BbNode : Type 0 where
  exit : BbNode
  block : ℕ → BbNode

abbrev pub node_eq : BbNode → BbNode → Bool
node_eq exit exit = true
node_eq exit (block _) = false
node_eq (block _) exit = false
node_eq (block a) (block b) = a == b

-- What LLVM answers of a function: its blocks, the entry first, the successors of a block, and
-- whether it ends in a return, an unreachable or a resume.
pub record Cfg : Type 0 where
  pub entry : ℕ
  pub others : List ℕ
  pub successors : ℕ → List ℕ
  pub is_final : ℕ → Bool

-- The fields of the nodes that the graph sets. The exit has no edge out of it.
pub record BbDag : Type 0 where
  pub color : ℕ → BbNodeColor
  pub succ : ℕ → List BbNode
  pub pred : BbNode → List ℕ
  pub in_cnt : BbNode → ℕ

abbrev pub empty_dag : BbDag
empty_dag = record { color = λ b. white; succ = λ b. []; pred = λ n. []; in_cnt = λ n. 0 }

abbrev pub paint : ℕ → BbNodeColor → BbDag → BbDag
paint b c d = record d { color = λ k. if k == b then c else d.color k }

abbrev pub add_edge : ℕ → BbNode → BbDag → BbDag
add_edge from to d = record d {
  succ = λ b. if b == from then d.succ b ++ to ∷ [] else d.succ b;
  pred = λ n. if node_eq n to then d.pred n ++ from ∷ [] else d.pred n;
  in_cnt = λ n. if node_eq n to then inc (d.in_cnt n) else d.in_cnt n;
}

-- A successor, by its color: a gray one closes a cycle, and the edge goes to the exit instead; a
-- white one is pushed.
abbrev pub visit : BbNodeColor → ℕ → ℕ → BbDag → List ℕ → BbDag × List ℕ
visit gray node child d stack = (add_edge node exit d, stack)
visit white node child d stack = (add_edge node (block child) d, child ∷ stack)
visit black node child d stack = (add_edge node (block child) d, stack)

pub visit_all : ℕ → List ℕ → BbDag → List ℕ → BbDag × List ℕ
visit_all node [] d stack = (d, stack)
visit_all node (c ∷ cs) d stack =
    let r = visit (d.color c) node c d stack in visit_all node cs r.0 r.1

-- The top of the stack is popped.
abbrev pub leave : Cfg → ℕ → BbDag → BbDag
leave f node d =
    let d' = paint node black d in if f.is_final node then add_edge node exit d' else d'

-- `none` would be a loop that does not end.
pub dfs_loop : ℕ → Cfg → BbDag → List ℕ → Option BbDag
unfolding visit_all
dfs_loop zero f d stack = none
dfs_loop (suc fuel) f d [] = some d
dfs_loop (suc fuel) f d (node ∷ stack) = elim (d.color node) [
  | white ↦
      let r = visit_all node (f.successors node) (paint node gray d) (node ∷ stack) in
      dfs_loop fuel f r.0 r.1
  | _ ↦ dfs_loop fuel f (leave f node d) stack
]

-- Every block is painted once and pushed once for each edge that leads to it.
unfoldable pub total_edges : Cfg → List ℕ → ℕ
total_edges f [] = 0
total_edges f (b ∷ bs) = suc (length (f.successors b)) + total_edges f bs

unfoldable pub init_dag : Cfg → Option BbDag
unfolding dfs_loop total_edges
init_dag f = dfs_loop (total_edges f (f.entry ∷ f.others) + 2) f empty_dag (f.entry ∷ [])
