-- ===== src/Analyzer/Cost/Sums.antt =====
-- The cost of a loop against the sum over all its instructions.
use perfscope.Base.{
  ℕ, ◌+◌, ◌%◌, ◌<◌, ◌≡◌, inl, inr, List, [], ◌∷◌, ◌++◌, arith, ◌==◌, if◌then◌else◌, Bool-cases,
  u32_mod,
}
use perfscope.Analyzer.Cost.{
  Inst, CostModel, unknown_cost, get_instruction_cost, add_costs, get_basic_block_cost, add_blocks,
  get_loop_cost,
}

-- An instruction of unknown cost counts nothing.
abbrev pub known_cost : CostModel → Inst → ℕ
known_cost m i = if get_instruction_cost m i == unknown_cost then 0 else get_instruction_cost m i

-- The sum, without a bound.
abbrev pub total_cost : CostModel → List Inst → ℕ
total_cost m [] = 0
total_cost m (i ∷ is) = known_cost m i + total_cost m is

total_cost-append :
    (m : CostModel) (is js : List Inst)
    → total_cost m (is ++ js) ≡ total_cost m is + total_cost m js
total_cost-append m [] js = omega arith
total_cost-append m (i ∷ is) js = omega (arith, total_cost-append m is js)

-- All instructions of the blocks, block by block.
abbrev pub instructions : List (List Inst) → List Inst
instructions [] = []
instructions (b ∷ bs) = b ++ instructions bs

wrap_once : (a c t : ℕ) → ((a + c) % u32_mod + t) % u32_mod ≡ (a + (c + t)) % u32_mod
wrap_once a c t = omega arith

wrapped_small : (a c : ℕ) → (a + c) % u32_mod < u32_mod
wrapped_small a c = omega arith

add_costs-total :
    (m : CostModel) (is : List Inst) (cost : ℕ)
    → cost < u32_mod
    → add_costs m is cost ≡ (cost + total_cost m is) % u32_mod
unfolding add_costs
add_costs-total m [] cost h = omega arith
add_costs-total m (i ∷ is) cost h = elim (Bool-cases (get_instruction_cost m i == unknown_cost)) [
  | inl e ↦ rw (add_costs, e) (omega (arith, add_costs-total m is cost h))
  | inr e ↦
      let c = get_instruction_cost m i in
      rw (add_costs, e)
        (omega (
          arith,
          wrap_once cost c (total_cost m is),
          add_costs-total m is ((cost + c) % u32_mod) (wrapped_small cost c),
        ))
]

add_blocks-total :
    (m : CostModel) (bs : List (List Inst)) (cost : ℕ)
    → cost < u32_mod
    → add_blocks m bs cost ≡ (cost + total_cost m (instructions bs)) % u32_mod
unfolding add_blocks get_basic_block_cost
add_blocks-total m [] cost h = omega arith
add_blocks-total m (b ∷ bs) cost h =
    let c = add_costs m b 0 in
    omega (
      arith,
      add_costs-total m b 0 (omega arith),
      total_cost-append m b (instructions bs),
      add_blocks-total m bs ((cost + c) % u32_mod) (wrapped_small cost c),
    )

-- The cost of a loop is the sum of the costs of the instructions of all its blocks, those of unknown
-- cost left out, modulo 2^32.
pub get_loop_cost-total :
    (m : CostModel) (bs : List (List Inst))
    → get_loop_cost m bs ≡ total_cost m (instructions bs) % u32_mod
unfolding get_loop_cost
get_loop_cost-total m bs = omega (arith, add_blocks-total m bs 0 (omega arith))
