-- ===== src/Dependence/Dfs.antt =====
-- DFSIter of include/graph/DFSIter.h: an iterator in depth over the nodes that depend on a node. Nodes
-- are numbers, and a neighbor may be null.
pub mod First
pub mod Order
use perfscope.Base.{
  ℕ, Bool, true, false, List, [], ◌∷◌, Option, none, some, contains, if◌then◌else◌,
}

-- The lists that in_begin and out_begin start at.
pub record Neighbors : Type 0 where
  pub in_neighbors : ℕ → List (Option ℕ)
  pub out_neighbors : ℕ → List (Option ℕ)

abbrev pub neighbors_of : Neighbors → Bool → ℕ → List (Option ℕ)
neighbors_of graph in_visit n = if in_visit then graph.in_neighbors n else graph.out_neighbors n

-- An entry of the stack: the node, the flag that goes with it, and what its iterator has left.
pub record Entry : Type 0 where
  pub node : ℕ
  pub started : Bool
  pub left : List (Option ℕ)

-- Of the two stacks, the one of the direction that the iterator goes in; the other stays empty.
pub record DfsIter : Type 0 where
  pub graph : Neighbors
  pub in_visit : Bool
  pub worklist : List Entry
  pub visited : List ℕ

-- The iterator that was made without a graph. It has nothing to walk over.
abbrev pub dfs_end : DfsIter
dfs_end = record {
  graph = record { in_neighbors = λ n. []; out_neighbors = λ n. [] };
  in_visit = false;
  worklist = [];
  visited = [];
}

abbrev pub dfs_begin : Neighbors → Option ℕ → Bool → DfsIter
dfs_begin graph none in_visit = record {
  graph = graph;
  in_visit = in_visit;
  worklist = [];
  visited = [];
}
dfs_begin graph (some n) in_visit = record {
  graph = graph;
  in_visit = in_visit;
  worklist = record { node = n; started = false; left = neighbors_of graph in_visit n } ∷ [];
  visited = [];
}

-- The loop up to a neighbor that is not visited; the iterator stays on it.
pub first_unvisited : List ℕ → List (Option ℕ) → Option (ℕ × List (Option ℕ))
first_unvisited visited [] = none
first_unvisited visited (none ∷ ns) = first_unvisited visited ns
first_unvisited visited (some n ∷ ns) =
    let rest = first_unvisited visited ns in
    if contains visited n then rest else some (n, some n ∷ ns)

-- The iterator of an entry is set when the entry is on top for the first time.
abbrev pub position : (ℕ → List (Option ℕ)) → Entry → List (Option ℕ)
position next e = if e.started then e.left else next e.node

-- The rounds of in_next and out_next: a neighbor is pushed, or the top is popped.
pub next_entry : (ℕ → List (Option ℕ)) → List Entry → List ℕ → List Entry × List ℕ
unfolding first_unvisited
next_entry next [] visited = ([], visited)
next_entry next (e ∷ es) visited = elim (first_unvisited visited (position next e)) [
  | none ↦ next_entry next es visited
  | some found ↦ (
    record { node = found.0; started = false; left = next (found.0) }
        ∷ record e { started = true; left = found.1 }
        ∷ es,
    found.0 ∷ visited,
  )
]

-- operator++
unfoldable pub dfs_next : DfsIter → DfsIter
unfolding next_entry
dfs_next it =
    let r = next_entry (neighbors_of it.graph it.in_visit) it.worklist it.visited in
    record it { worklist = r.0; visited = r.1 }

-- operator*
abbrev pub dfs_node : DfsIter → Option ℕ
dfs_node it = elim it.worklist [ [] ↦ none | e ∷ _ ↦ some e.node ]
