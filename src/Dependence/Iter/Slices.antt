-- ===== src/Dependence/Iter/Slices.antt =====
-- What a slicer gives for a request.
use perfscope.Base.{
  ℕ, ◌<◌, ◌≡◌, refl, ap, ◌∙◌, Bool, true, false, not, ◌&&◌, List, Option, some, arith, length,
  contains,
}
use perfscope.Dependence.Reach.{Reached, AllReached}
use perfscope.Dependence.Dfs.{Neighbors, neighbors_of, dfs_begin}
use perfscope.Dependence.Dfs.Order.{dfs_next-AllReached}
use perfscope.Dependence.Iter.{
  MemDepGraph, DepGraph, DepType, DepIterator, Criterion, new_iterator, begin_rest, validate,
  dep_iterator, set_mem_dep_iter, set_ssa_dep_iter, print, slice,
}
use perfscope.Dependence.Iter.Steps.{on_memory, on_memory-Shows, on_ssa, on_ssa-Shows, print-Shows}

module _ (g : MemDepGraph) (ssa_graph : Option Neighbors) (may_access : ℕ → Bool) (line inst : ℕ)
    (ssa ctrl forward : Bool) (nodes : List ℕ) (fuel : ℕ) where
  abbrev mem_graph : DepGraph
  mem_graph = record {
    mem_graph = some g;
    ssa_graph = ssa_graph;
    may_read_or_write_memory = may_access;
  }

  abbrev mem_request : DepType
  mem_request = record { ssa_dep = ssa; mem_dep = true; ctrl_dep = ctrl }

  abbrev mem_next : ℕ → List (Option ℕ)
  mem_next = neighbors_of g.neighbors (not forward)

  first_memory :
      may_access inst ≡ true
      → g.has_node inst ≡ true
      → set_mem_dep_iter (new_iterator mem_graph inst mem_request forward) ≡ (
        on_memory mem_graph inst ctrl forward ssa
            (some inst)
            (dfs_begin g.neighbors (some inst) (not forward)),
        true,
      )
  unfolding set_mem_dep_iter
  first_memory accesses known = rw (set_mem_dep_iter, accesses, known) refl

  abbrev mem_criterion : Criterion
  mem_criterion = record { line = line; inst = some inst; forward = forward; request = mem_request }

  -- For a request of memory dependences, or of these and the SSA dependences, at an instruction that
  -- touches memory and has a node in the graph of the memory dependences, the slicer ends: it
  -- gives each instruction that a path of memory dependences of one edge or more leads to, in the
  -- direction of the request, once, and nothing else, so that the SSA dependences are left out.
  pub slice-memory :
      validate mem_graph (some inst) mem_request ≡ true
      → may_access inst ≡ true
      → g.has_node inst ≡ true
      → ((n : ℕ) → Reached mem_next inst n → contains nodes n ≡ true)
      → length nodes < fuel
      → (xs : List ℕ) × (slice fuel mem_graph mem_criterion ≡ some xs) × AllReached mem_next inst xs
  unfolding slice dep_iterator begin_rest
  slice-memory valid accesses known listed enough =
      let (xs, gives, is_slice, short) =
        dfs_next-AllReached g.neighbors (not forward) inst nodes listed in
      (
        xs,
        rw (slice, dep_iterator, valid)
            (ap (λ (r : DepIterator × Bool). print fuel (begin_rest r))
                (first_memory accesses known)
              ∙ print-Shows (on_memory mem_graph inst ctrl forward ssa) fuel (some inst)
                  (dfs_begin g.neighbors (some inst) (not forward)) xs
                  (on_memory-Shows mem_graph inst ctrl forward accesses ssa) gives (omega arith)),
        is_slice,
      )

module _ (mem_graph : Option MemDepGraph) (g : Neighbors) (may_access : ℕ → Bool) (line inst : ℕ)
    (mem ctrl forward : Bool) (nodes : List ℕ) (fuel : ℕ) where
  abbrev ssa_graph : DepGraph
  ssa_graph = record {
    mem_graph = mem_graph;
    ssa_graph = some g;
    may_read_or_write_memory = may_access;
  }

  abbrev ssa_request : Bool → DepType
  ssa_request m = record { ssa_dep = true; mem_dep = m; ctrl_dep = ctrl }

  abbrev ssa_next : ℕ → List (Option ℕ)
  ssa_next = neighbors_of g (not forward)

  -- The memory dependences are skipped.
  skipped :
      may_access inst ≡ false
      → set_mem_dep_iter (new_iterator ssa_graph inst (ssa_request true) forward) ≡ (
        record (new_iterator ssa_graph inst (ssa_request true) forward) { mem_done = true },
        false,
      )
  unfolding set_mem_dep_iter
  skipped quiet = rw (set_mem_dep_iter, quiet) refl

  first_ssa :
      (m : Bool)
      → validate ssa_graph (some inst) (ssa_request m) ≡ true
      → (m && may_access inst) ≡ false
      → dep_iterator ssa_graph (some inst) (ssa_request m) forward
        ≡ some (
            on_ssa ssa_graph inst ctrl forward m
              (some inst)
              (dfs_begin g (some inst) (not forward)))
  unfolding dep_iterator begin_rest set_ssa_dep_iter
  first_ssa true valid quiet =
      rw (dep_iterator, valid)
        (ap (λ (r : DepIterator × Bool). some (begin_rest r)) (skipped quiet))
  first_ssa false valid quiet = rw (dep_iterator, valid) refl

  abbrev ssa_criterion : Criterion
  ssa_criterion = record {
    line = line;
    inst = some inst;
    forward = forward;
    request = ssa_request mem;
  }

  -- For a request of SSA dependences alone, or of these and the memory dependences at an instruction
  -- that touches no memory, the slicer ends: it gives each instruction that a path of one edge or
  -- more of operands, or of uses, leads to, in the direction of the request, once, and nothing else.
  pub slice-ssa :
      validate ssa_graph (some inst) (ssa_request mem) ≡ true
      → (mem && may_access inst) ≡ false
      → ((n : ℕ) → Reached ssa_next inst n → contains nodes n ≡ true)
      → length nodes < fuel
      → (xs : List ℕ) × (slice fuel ssa_graph ssa_criterion ≡ some xs) × AllReached ssa_next inst xs
  unfolding slice
  slice-ssa valid quiet listed enough =
      let (xs, gives, is_slice, short) = dfs_next-AllReached g (not forward) inst nodes listed in
      (
        xs,
        rw (slice, first_ssa mem valid quiet)
            (print-Shows (on_ssa ssa_graph inst ctrl forward mem) fuel (some inst)
              (dfs_begin g (some inst) (not forward)) xs
              (on_ssa-Shows ssa_graph inst ctrl forward mem) gives (omega arith)),
        is_slice,
      )
