-- ===== src/Dependence/Iter.antt =====
-- DepIterator of lib/dependence/DepIter.cpp, and Slicer of lib/slicer/Slicer.cpp. An instruction and its
-- node in the graph of the memory dependences have one number.
pub mod Steps
pub mod Slices
use perfscope.Base.{
  ℕ, zero, suc, Bool, true, false, not, ◌&&◌, ◌||◌, List, [], ◌∷◌, Option, none, some,
  if◌then◌else◌,
}
use perfscope.Dependence.Dfs.{Neighbors, DfsIter, dfs_end, dfs_begin, dfs_next, dfs_node}

-- The bits of the request.
pub record DepType : Type 0 where
  pub ssa_dep : Bool
  pub mem_dep : Bool
  pub ctrl_dep : Bool

pub record MemDepGraph : Type 0 where
  -- The graph has a node for the instruction.
  pub has_node : ℕ → Bool
  pub neighbors : Neighbors

-- Null graphs were not built. Those of the SSA dependences are the operands and the uses; the last
-- field is what LLVM answers of an instruction.
pub record DepGraph : Type 0 where
  pub mem_graph : Option MemDepGraph
  pub ssa_graph : Option Neighbors
  pub may_read_or_write_memory : ℕ → Bool

abbrev pub is_some {ℓ} : {A : Type ℓ} → Option A → Bool
is_some none = false
is_some (some a) = true

-- m_state is the first five fields.
pub record DepIterator : Type 0 where
  pub ready : Bool
  pub start : Bool
  pub ssa_done : Bool
  pub mem_done : Bool
  pub all_done : Bool
  pub graph : DepGraph
  pub inst : ℕ
  pub request : DepType
  pub forward : Bool
  pub depinst : Option ℕ
  pub mem_iter : DfsIter
  pub ssa_iter : DfsIter

abbrev pub validate : DepGraph → Option ℕ → DepType → Bool
validate graph none request = false
validate graph (some inst) request =
    not (request.mem_dep && not (is_some graph.mem_graph))
    && not (request.ssa_dep && not (is_some graph.ssa_graph))

-- MemDepGraph::get
abbrev pub get_node : MemDepGraph → ℕ → Option ℕ
get_node g i = if g.has_node i then some i else none

-- MemDepIter::begin and SSADepIter::begin; `validate` has excluded a null graph.
abbrev pub begin_mem : DepIterator → DfsIter
begin_mem it = elim it.graph.mem_graph [
  | none ↦ dfs_end
  | some g ↦ dfs_begin g.neighbors (get_node g it.inst) (not it.forward)
]

abbrev pub begin_ssa : DepIterator → DfsIter
begin_ssa it = elim it.graph.ssa_graph [
  | none ↦ dfs_end
  | some g ↦ dfs_begin g (some it.inst) (not it.forward)
]

-- A node is an instruction, so that the loop passes none by.
abbrev pub take_ssa : DepIterator → DfsIter → DepIterator × Bool
take_ssa it iter = elim (dfs_node iter) [
  | none ↦ (record it { ready = false; depinst = none; ssa_iter = iter; ssa_done = true }, false)
  | some n ↦ (record it { ready = false; depinst = some n; ssa_iter = iter; start = true }, true)
]

pub set_ssa_dep_iter : DepIterator → DepIterator × Bool
unfolding dfs_next
set_ssa_dep_iter it =
    if not it.request.ssa_dep || it.ssa_done
    then (record it { depinst = none; ssa_done = true }, false)
    else take_ssa it (if it.ready then begin_ssa it else dfs_next it.ssa_iter)

abbrev pub take_mem : DepIterator → DfsIter → DepIterator × Bool
take_mem it iter = elim (dfs_node iter) [
  | none ↦ (record it { ready = false; depinst = none; mem_iter = iter; mem_done = true }, false)
  | some n ↦ (record it { ready = false; depinst = some n; mem_iter = iter; start = true }, true)
]

pub set_mem_dep_iter : DepIterator → DepIterator × Bool
unfolding dfs_next
set_mem_dep_iter it =
    if not it.request.mem_dep || it.mem_done || not (it.graph.may_read_or_write_memory it.inst)
    then (record it { depinst = none; mem_done = true }, false)
    else take_mem it (if it.ready then begin_mem it else dfs_next it.mem_iter)

abbrev pub new_iterator : DepGraph → ℕ → DepType → Bool → DepIterator
new_iterator graph inst request forward = record {
  ready = true;
  start = false;
  ssa_done = false;
  mem_done = false;
  all_done = false;
  graph = graph;
  inst = inst;
  request = request;
  forward = forward;
  depinst = none;
  mem_iter = dfs_end;
  ssa_iter = dfs_end;
}

-- The rest of the constructor: the second setter runs where the first has found nothing.
pub begin_rest : DepIterator × Bool → DepIterator
unfolding set_ssa_dep_iter
begin_rest (it, true) = it
begin_rest (it, false) =
    let r = if it.request.ssa_dep then set_ssa_dep_iter it else (it, false) in
    record (r.0) { all_done = not (r.1) }

-- The constructor. `none` is the failed assertion.
unfoldable pub dep_iterator : DepGraph → Option ℕ → DepType → Bool → Option DepIterator
unfolding begin_rest set_mem_dep_iter
dep_iterator graph none request forward = none
dep_iterator graph (some inst) request forward =
    let it = new_iterator graph inst request forward in
    if validate graph (some inst) request
    then some (begin_rest (if request.mem_dep then set_mem_dep_iter it else (it, false)))
    else none

-- The rest of `next`, where the memory dependences have given nothing.
pub next_ssa : DepIterator × Bool → DepIterator × Bool
unfolding set_ssa_dep_iter
next_ssa (it, true) = (it, true)
next_ssa (it, false) =
    if it.request.ssa_dep && not it.ssa_done then set_ssa_dep_iter it else (it, false)

pub next : DepIterator → DepIterator × Bool
unfolding set_mem_dep_iter next_ssa
next it =
    next_ssa (if it.request.mem_dep && not it.mem_done then set_mem_dep_iter it else (it, false))

abbrev pub get_inst : DepIterator → Option ℕ
get_inst it = if it.all_done then none else it.depinst

-- The number of the line is not read.
pub record Criterion : Type 0 where
  pub line : ℕ
  pub inst : Option ℕ
  pub forward : Bool
  pub request : DepType

abbrev pub slicer : DepGraph → Criterion → Option DepIterator
slicer graph c = dep_iterator graph c.inst c.request c.forward

pub slicer_next : DepIterator → DepIterator × Option ℕ
unfolding next
slicer_next it = if it.all_done then (it, none) else (let it' = (next it).0 in (it', get_inst it'))

-- One round of the loop of print: what next gives is written in front of the rest.
abbrev pub write : Option ℕ → Option (List ℕ) → Option (List ℕ)
write none rest = some []
write (some i) none = none
write (some i) (some is) = some (i ∷ is)

-- The instructions that print writes; `none` would be a loop that does not end.
pub print : ℕ → DepIterator → Option (List ℕ)
unfolding slicer_next
print zero it = none
print (suc fuel) it = let r = slicer_next it in write (r.1) (print fuel (r.0))

-- A slicer for the criterion, printed. `none` is a failed assertion or a lack of fuel.
unfoldable pub slice : ℕ → DepGraph → Criterion → Option (List ℕ)
unfolding dep_iterator print
slice fuel graph c = elim (slicer graph c) [ none ↦ none | some it ↦ print fuel it ]
