-- ===== src/Examples/Slices.antt =====
-- Slices of small graphs.
use perfscope.Base.{
  ℕ, ◌≡◌, refl, inl, inr, subst, ◌≤◌, Bool, true, false, ◌&&◌, ◌==◌, if◌then◌else◌, List, [], ◌∷◌,
  Option, none, some, arith, Bool-cases, In, length, contains,
}
use perfscope.Dependence.Reach.{Reached, first, behind, AllReached, Gives}
use perfscope.Dependence.Dfs.{Neighbors}
use perfscope.Dependence.Iter.{MemDepGraph, DepGraph, Criterion, slice}
use perfscope.Dependence.Iter.Slices.{slice-memory, slice-ssa}
use perfscope.Dependence.Pdg.{PdgSlicer, slice_init}
use perfscope.Dependence.Pdg.Slice.{pdg_step, sinks, pdg_next, slice_next-AllReached}

-- 1 leads to 2 and to a null, 2 leads back to 1 and to 3.
abbrev arrows : ℕ → List (Option ℕ)
arrows n = if n == 1 then some 2 ∷ none ∷ [] else if n == 2 then some 1 ∷ some 3 ∷ [] else []

abbrev circle : Neighbors
circle = record { in_neighbors = λ n. []; out_neighbors = arrows }

abbrev memory : MemDepGraph
memory = record { has_node = λ n. true; neighbors = circle }

abbrev both : DepGraph
both = record {
  mem_graph = some memory;
  ssa_graph = some (record { in_neighbors = λ n. []; out_neighbors = λ n. some 4 ∷ [] });
  may_read_or_write_memory = λ n. n == 1;
}

abbrev criterion : ℕ → Bool → Bool → Criterion
criterion i mem ssa = record {
  line = 0;
  inst = some i;
  forward = true;
  request = record { ssa_dep = ssa; mem_dep = mem; ctrl_dep = true };
}

-- The instruction itself stands on a circle, and so in its slice.
slice_both : slice 5 both (criterion 1 true true) ≡ some (2 ∷ 1 ∷ 3 ∷ [])
unfolding slice
slice_both = refl

-- Without memory dependences, the SSA dependence shows.
slice_ssa : slice 5 both (criterion 1 false true) ≡ some (4 ∷ [])
unfolding slice
slice_ssa = refl

-- Where every neighbor is in the list, the nodes reached are.
reached_listed :
    (next : ℕ → List (Option ℕ)) (s : ℕ) (nodes : List ℕ)
    → ((m n : ℕ) → In (some n) (next m) → contains nodes n ≡ true)
    → (n : ℕ) → Reached next s n
    → contains nodes n ≡ true
reached_listed next s nodes listed n (first i) = listed s n i
reached_listed next s nodes listed n (behind {m = m} r i) = listed m n i

-- The neighbors are in the list.
abbrev inside : List ℕ → List (Option ℕ) → Bool
inside nodes [] = true
inside nodes (none ∷ ns) = inside nodes ns
inside nodes (some k ∷ ns) = contains nodes k && inside nodes ns

inside_listed :
    (nodes : List ℕ) (ns : List (Option ℕ)) (n : ℕ)
    → inside nodes ns ≡ true
    → In (some n) ns
    → contains nodes n ≡ true
inside_listed nodes [] n h i = absurd i
inside_listed nodes (none ∷ ns) n h (inl e) = absurd (cc e)
inside_listed nodes (none ∷ ns) n h (inr i) = inside_listed nodes ns n h i
inside_listed nodes (some k ∷ ns) n h i = elim (Bool-cases (contains nodes k)) [
  | inl c ↦ elim i [
    | inl e ↦ let same : k ≡ n = cc e in subst (λ j. contains nodes j ≡ true) same c
    | inr i' ↦ inside_listed nodes ns n (rw c at h) i'
  ]
  | inr c ↦ absurd (cc (rw c at h))
]

arrows_listed : (m n : ℕ) → In (some n) (arrows m) → contains (1 ∷ 2 ∷ 3 ∷ []) n ≡ true
arrows_listed m n = inside_listed (1 ∷ 2 ∷ 3 ∷ []) (arrows m) n (elim (Bool-cases (m == 1)) [
  | inl e ↦ rw e refl
  | inr e ↦ elim (Bool-cases (m == 2)) [ inl f ↦ rw (e, f) refl | inr f ↦ rw (e, f) refl ]
])

circle_nodes : (n : ℕ) → Reached arrows 1 n → contains (1 ∷ 2 ∷ 3 ∷ []) n ≡ true
circle_nodes = reached_listed arrows 1 (1 ∷ 2 ∷ 3 ∷ []) arrows_listed

slice-memory_example :
    (xs : List ℕ) × (slice 5 both (criterion 1 true true) ≡ some xs) × AllReached arrows 1 xs
slice-memory_example =
    slice-memory memory both.ssa_graph both.may_read_or_write_memory 0 1 true true true
      (1 ∷ 2 ∷ 3 ∷ []) 5 refl refl refl circle_nodes (omega arith)

abbrev bare : MemDepGraph
bare = record memory { has_node = λ n. false }

-- The dependences of the circle, for an instruction that touches no memory.
abbrev quiet : DepGraph
quiet = record {
  mem_graph = some bare;
  ssa_graph = some circle;
  may_read_or_write_memory = λ n. false;
}

slice-ssa_example :
    (xs : List ℕ) × (slice 5 quiet (criterion 1 true true) ≡ some xs) × AllReached arrows 1 xs
slice-ssa_example =
    slice-ssa (some bare) circle (λ n. false) 0 1 true true true (1 ∷ 2 ∷ 3 ∷ []) 5 refl refl
      circle_nodes (omega arith)

-- 1 depends on 2 and 3, and 2 on itself and on 3, which has no node.
abbrev deps : ℕ → Option (List ℕ)
deps n = if n == 1 then some (2 ∷ 3 ∷ []) else if n == 2 then some (2 ∷ 3 ∷ []) else none

deps_listed : (m n : ℕ) → In (some n) (pdg_next deps m) → contains (2 ∷ 3 ∷ []) n ≡ true
deps_listed m n = inside_listed (2 ∷ 3 ∷ []) (pdg_next deps m) n (elim (Bool-cases (m == 1)) [
  | inl e ↦ rw (inside, sinks, deps, e) refl
  | inr e ↦ elim (Bool-cases (m == 2)) [
    | inl f ↦ rw (inside, sinks, deps, e, f) refl
    | inr f ↦ rw (inside, sinks, deps, e, f) refl
  ]
])

abbrev fresh_slicer : PdgSlicer
fresh_slicer = record { slice_stack = 7 ∷ []; visited_instr = 7 ∷ []; slice_inited = false }

slice_next-AllReached_example :
    (s' : PdgSlicer) × (xs : List ℕ) × (slice_init deps 1 fresh_slicer ≡ (s', true))
    × Gives (pdg_step deps) s' xs
    × AllReached (pdg_next deps) 1 xs
    × (length xs ≤ 2)
slice_next-AllReached_example =
    slice_next-AllReached deps 1 (2 ∷ 3 ∷ []) (2 ∷ 3 ∷ []) fresh_slicer refl
      (reached_listed (pdg_next deps) 1 (2 ∷ 3 ∷ []) deps_listed)
