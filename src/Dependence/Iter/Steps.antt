-- ===== src/Dependence/Iter/Steps.antt =====
-- What a slicer writes while its iterator steps over one of the two graphs.
use perfscope.Base.{
  ℕ, zero, suc, ◌<◌, ◌≡◌, refl, subst, Bool, true, false, List, [], ◌∷◌, Option, none, some, ap,
  ◌∙◌, inl, inr, arith, Option-cases, length,
}
use perfscope.Dependence.Reach.{Gives}
use perfscope.Dependence.Dfs.{DfsIter, dfs_end, dfs_next, dfs_node}
use perfscope.Dependence.Dfs.Order.{dfs_step}
use perfscope.Dependence.Iter.{
  DepGraph, DepIterator, set_ssa_dep_iter, set_mem_dep_iter, next_ssa, next, get_inst, slicer_next,
  write, print,
}

dfs_step-none : (iter : DfsIter) → dfs_step iter ≡ none → dfs_node (dfs_next iter) ≡ none
dfs_step-none iter e = elim (Option-cases (dfs_node (dfs_next iter))) [
  | inl q ↦ q
  | inr (n, q) ↦ absurd (cc (rw (dfs_step, q) at e))
]

dfs_step-some :
    (iter iter' : DfsIter) (n : ℕ)
    → dfs_step iter ≡ some (n, iter')
    → (dfs_node (dfs_next iter) ≡ some n) × (dfs_next iter ≡ iter')
dfs_step-some iter iter' n e = elim (Option-cases (dfs_node (dfs_next iter))) [
  | inl q ↦ absurd (cc (rw (dfs_step, q) at e))
  | inr (m, q) ↦
      let pair : ◌≡◌ {A = ℕ × DfsIter} (m, dfs_next iter) (n, iter') = cc (rw (dfs_step, q) at e) in
      (q ∙ ap (λ p. some (p.0)) pair, ap (λ p. p.1) pair)
]

print-none :
    (fuel : ℕ) (it it' : DepIterator) → slicer_next it ≡ (it', none) → print (suc fuel) it ≡ some []
unfolding print
print-none fuel it it' e = ap (λ (r : DepIterator × Option ℕ). write (r.1) (print fuel (r.0))) e

print-some :
    (fuel : ℕ) (it it' : DepIterator) (i : ℕ) (is : List ℕ)
    → slicer_next it ≡ (it', some i)
    → print fuel it' ≡ some is
    → print (suc fuel) it ≡ some (i ∷ is)
unfolding print
print-some fuel it it' i is e rest =
    ap (λ (r : DepIterator × Option ℕ). write (r.1) (print fuel (r.0))) e ∙ ap (write (some i)) rest

-- An iterator that shows the steps of a search in depth prints what the search gives.
pub record Shows (at : Option ℕ → DfsIter → DepIterator) : Type 0 where
  pub ends :
      (dep : Option ℕ) (iter : DfsIter)
      → dfs_node (dfs_next iter) ≡ none
      → (it : DepIterator) × (slicer_next (at dep iter) ≡ (it, none))
  pub goes_on :
      (dep : Option ℕ) (iter : DfsIter) (n : ℕ)
      → dfs_node (dfs_next iter) ≡ some n
      → slicer_next (at dep iter) ≡ (at (some n) (dfs_next iter), some n)

pub print-Shows :
    (at : Option ℕ → DfsIter → DepIterator) (fuel : ℕ) (dep : Option ℕ) (iter : DfsIter)
    (xs : List ℕ)
    → Shows at
    → Gives dfs_step iter xs
    → length xs < fuel
    → print fuel (at dep iter) ≡ some xs
print-Shows at zero dep iter xs w g h = absurd (omega arith)
print-Shows at (suc fuel) dep iter [] w g h =
    let (it, e) = w.ends dep iter (dfs_step-none iter g) in print-none fuel (at dep iter) it e
print-Shows at (suc fuel) dep iter (x ∷ xs) w (iter', e, g) h =
    let (node, same) = dfs_step-some iter iter' x e in
    print-some fuel (at dep iter) (at (some x) iter') x xs
      (subst (λ k. slicer_next (at dep iter) ≡ (at (some x) k, some x)) same
        (w.goes_on dep iter x node))
      (print-Shows at fuel (some x) iter' xs w g (omega arith))

-- What next of the slicer answers.
abbrev found_inst : DepIterator × Bool → DepIterator × Option ℕ
found_inst r = (r.0, get_inst (r.0))

-- What next of the slicer makes of what the memory dependences have given.
answer : DepIterator × Bool → DepIterator × Option ℕ
unfolding next_ssa
answer r = found_inst (next_ssa r)

module _ (graph : DepGraph) (inst : ℕ) (ctrl forward : Bool) where
  -- A request of memory dependences; they are on their way.
  abbrev pub on_memory : Bool → Option ℕ → DfsIter → DepIterator
  on_memory ssa dep iter = record {
    ready = false;
    start = true;
    ssa_done = false;
    mem_done = false;
    all_done = false;
    graph = graph;
    inst = inst;
    request = record { ssa_dep = ssa; mem_dep = true; ctrl_dep = ctrl };
    forward = forward;
    depinst = dep;
    mem_iter = iter;
    ssa_iter = dfs_end;
  }

  abbrev memory_over : Bool → DfsIter → DepIterator
  memory_over ssa iter = record (on_memory ssa none iter) { mem_done = true }

  module _ (accesses : graph.may_read_or_write_memory inst ≡ true) where
    set_mem_none :
        (ssa : Bool) (dep : Option ℕ) (iter : DfsIter)
        → dfs_node (dfs_next iter) ≡ none
        → set_mem_dep_iter (on_memory ssa dep iter) ≡ (memory_over ssa (dfs_next iter), false)
    unfolding set_mem_dep_iter
    set_mem_none ssa dep iter q = rw (set_mem_dep_iter, accesses, q) refl

    set_mem_some :
        (ssa : Bool) (dep : Option ℕ) (iter : DfsIter) (n : ℕ)
        → dfs_node (dfs_next iter) ≡ some n
        → set_mem_dep_iter (on_memory ssa dep iter) ≡ (on_memory ssa (some n) (dfs_next iter), true)
    unfolding set_mem_dep_iter
    set_mem_some ssa dep iter n q = rw (set_mem_dep_iter, accesses, q) refl

    -- The SSA dependences are not begun, and so there are none.
    memory_none :
        (ssa : Bool) (dep : Option ℕ) (iter : DfsIter)
        → dfs_node (dfs_next iter) ≡ none
        → (it : DepIterator) × (slicer_next (on_memory ssa dep iter) ≡ (it, none))
    unfolding answer slicer_next next next_ssa set_ssa_dep_iter dfs_next
    memory_none true dep iter q = (_, ap answer (set_mem_none true dep iter q))
    memory_none false dep iter q = (_, ap answer (set_mem_none false dep iter q))

    memory_some :
        (ssa : Bool) (dep : Option ℕ) (iter : DfsIter) (n : ℕ)
        → dfs_node (dfs_next iter) ≡ some n
        → slicer_next (on_memory ssa dep iter) ≡ (on_memory ssa (some n) (dfs_next iter), some n)
    unfolding answer slicer_next next next_ssa
    memory_some ssa dep iter n q = ap answer (set_mem_some ssa dep iter n q)

    pub on_memory-Shows : (ssa : Bool) → Shows (on_memory ssa)
    on_memory-Shows ssa = record { ends = memory_none ssa; goes_on = memory_some ssa }

  -- A request of SSA dependences alone, or on an instruction that touches no memory.
  abbrev pub on_ssa : Bool → Option ℕ → DfsIter → DepIterator
  on_ssa mem dep iter = record {
    ready = false;
    start = true;
    ssa_done = false;
    mem_done = mem;
    all_done = false;
    graph = graph;
    inst = inst;
    request = record { ssa_dep = true; mem_dep = mem; ctrl_dep = ctrl };
    forward = forward;
    depinst = dep;
    mem_iter = dfs_end;
    ssa_iter = iter;
  }

  ssa_over : Bool → DfsIter → DepIterator
  ssa_over mem iter = record (on_ssa mem none iter) { ssa_done = true }

  set_ssa_none :
      (mem : Bool) (dep : Option ℕ) (iter : DfsIter)
      → dfs_node (dfs_next iter) ≡ none
      → set_ssa_dep_iter (on_ssa mem dep iter) ≡ (ssa_over mem (dfs_next iter), false)
  unfolding set_ssa_dep_iter ssa_over
  set_ssa_none mem dep iter q = rw (set_ssa_dep_iter, q) refl

  set_ssa_some :
      (mem : Bool) (dep : Option ℕ) (iter : DfsIter) (n : ℕ)
      → dfs_node (dfs_next iter) ≡ some n
      → set_ssa_dep_iter (on_ssa mem dep iter) ≡ (on_ssa mem (some n) (dfs_next iter), true)
  unfolding set_ssa_dep_iter
  set_ssa_some mem dep iter n q = rw (set_ssa_dep_iter, q) refl

  ssa_none :
      (mem : Bool) (dep : Option ℕ) (iter : DfsIter)
      → dfs_node (dfs_next iter) ≡ none
      → (it : DepIterator) × (slicer_next (on_ssa mem dep iter) ≡ (it, none))
  unfolding slicer_next next next_ssa ssa_over
  ssa_none true dep iter q = (_, ap found_inst (set_ssa_none true dep iter q))
  ssa_none false dep iter q = (_, ap found_inst (set_ssa_none false dep iter q))

  ssa_some :
      (mem : Bool) (dep : Option ℕ) (iter : DfsIter) (n : ℕ)
      → dfs_node (dfs_next iter) ≡ some n
      → slicer_next (on_ssa mem dep iter) ≡ (on_ssa mem (some n) (dfs_next iter), some n)
  unfolding slicer_next next next_ssa
  ssa_some true dep iter n q = ap found_inst (set_ssa_some true dep iter n q)
  ssa_some false dep iter n q = ap found_inst (set_ssa_some false dep iter n q)

  pub on_ssa-Shows : (mem : Bool) → Shows (on_ssa mem)
  on_ssa-Shows mem = record { ends = ssa_none mem; goes_on = ssa_some mem }
