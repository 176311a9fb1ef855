-- ===== src/Dependence/Pdg.antt =====
-- PDGSlicer of lib/slicer/PDGSlicer.cpp: a slice over the program dependence graph of a function. The graph is
-- the instructions that the node of an instruction leads to; none is a missing node.
pub mod Stack
pub mod Slice
use perfscope.Base.{
  ℕ, Bool, true, false, not, List, [], ◌∷◌, Option, none, some, contains, if◌then◌else◌,
}

pub record PdgSlicer : Type 0 where
  pub slice_stack : List ℕ
  pub visited_instr : List ℕ
  pub slice_inited : Bool

-- A dependence that is visited is passed.
abbrev pub push_sink : ℕ → PdgSlicer → PdgSlicer
push_sink i s =
    if contains s.visited_instr i
    then s
    else record s { slice_stack = i ∷ s.slice_stack; visited_instr = i ∷ s.visited_instr }

pub add_to_slice_stack : List ℕ → PdgSlicer → PdgSlicer
add_to_slice_stack [] s = s
add_to_slice_stack (i ∷ is) s = add_to_slice_stack is (push_sink i s)

unfoldable pub slice_init : (ℕ → Option (List ℕ)) → ℕ → PdgSlicer → PdgSlicer × Bool
unfolding add_to_slice_stack
slice_init out_deps inst s = elim (out_deps inst) [
  | none ↦ (s, false)
  | some is ↦ (
    record (add_to_slice_stack is (record s { slice_stack = []; visited_instr = [] })) {
      slice_inited = true;
    },
    true,
  )
]

-- The stack holds addresses of instructions, so that none of its entries is null.
unfoldable pub slice_next : (ℕ → Option (List ℕ)) → PdgSlicer → PdgSlicer × Option ℕ
unfolding add_to_slice_stack
slice_next out_deps s = if not s.slice_inited then (s, none) else elim s.slice_stack [
  | [] ↦ (record s { slice_inited = false }, none)
  | i ∷ stack ↦
      let popped = record s { slice_stack = stack } in
      (elim (out_deps i) [ none ↦ popped | some is ↦ add_to_slice_stack is popped ], some i)
]
