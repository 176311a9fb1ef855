-- ===== src/Analyzer/Cost.antt =====
-- CostModel of lib/analyzer/CostModel/CostModel.cpp: the cost of an instruction, of a block and of a loop.
-- The virtual functions are a record; a subclass gives another one. Types are pointers of LLVM.
pub mod Sums
use perfscope.Base.{
  ℕ, zero, suc, ◌+◌, ◌-◌, ◌*◌, ◌%◌, Bool, true, false, List, [], ◌∷◌, Option, none, some, ◌==◌,
  if◌then◌else◌, u32_mod,
}

-- The opcodes of LLVM that the switch names, and those that it does not.
pub data Opcode : Type 0 where
  ret phi br add f_add sub f_sub mul f_mul u_div s_div f_div u_rem s_rem f_rem shl l_shr a_shr :
      Opcode
  and or xor select i_cmp f_cmp alloca store load z_ext s_ext fp_to_ui fp_to_si fp_ext : Opcode
  ptr_to_int int_to_ptr si_to_fp ui_to_fp trunc fp_trunc bit_cast extract_element : Opcode
  insert_element call other : Opcode

abbrev pub tcc_free : ℕ
tcc_free = 0

abbrev pub tcc_basic : ℕ
tcc_basic = 1

-- (unsigned) -1
abbrev pub unknown_cost : ℕ
unknown_cost = u32_mod - 1

-- What LLVM answers of an instruction: `condition_ty` of a select, `operand_ty` of the first operand,
-- `value_ty` of the value that is stored, `index` of a constant lane.
pub record Inst : Type 0 where
  pub is_intrinsic_inst : Bool
  pub opcode : Opcode
  pub ty : ℕ
  pub condition_ty : ℕ
  pub operand_ty : ℕ
  pub value_ty : ℕ
  pub alignment : ℕ
  pub address_space : ℕ
  pub index : Option ℕ
  pub num_args : ℕ

pub record CostModel : Type 0 where
  pub get_cf_instr_cost : Opcode → ℕ
  pub get_arithmetic_instr_cost : Opcode → ℕ → ℕ
  pub get_cmp_sel_instr_cost : Opcode → ℕ → Option ℕ → ℕ
  pub get_memory_op_cost : Opcode → ℕ → ℕ → ℕ → ℕ
  pub get_cast_instr_cost : Opcode → ℕ → ℕ → ℕ
  pub get_vector_instr_cost : Opcode → ℕ → ℕ → ℕ

-- The functions of the base class.
abbrev pub base_model : CostModel
base_model = record {
  get_cf_instr_cost = λ op. tcc_basic;
  get_arithmetic_instr_cost = λ op ty. tcc_basic;
  get_cmp_sel_instr_cost = λ op ty condition. tcc_basic;
  get_memory_op_cost = λ op src alignment space. tcc_basic;
  get_cast_instr_cost = λ op dst src. tcc_basic;
  get_vector_instr_cost = λ op val index. tcc_basic;
}

-- A lane that is no constant is (unsigned) -1.
abbrev pub lane : Option ℕ → ℕ
lane none = u32_mod - 1
lane (some i) = i % u32_mod

abbrev pub dispatch : CostModel → Inst → Opcode → ℕ
dispatch m i ret = m.get_cf_instr_cost ret
dispatch m i phi = m.get_cf_instr_cost phi
dispatch m i br = m.get_cf_instr_cost br
dispatch m i add = m.get_arithmetic_instr_cost add i.ty
dispatch m i f_add = m.get_arithmetic_instr_cost f_add i.ty
dispatch m i sub = m.get_arithmetic_instr_cost sub i.ty
dispatch m i f_sub = m.get_arithmetic_instr_cost f_sub i.ty
dispatch m i mul = m.get_arithmetic_instr_cost mul i.ty
dispatch m i f_mul = m.get_arithmetic_instr_cost f_mul i.ty
dispatch m i u_div = m.get_arithmetic_instr_cost u_div i.ty
dispatch m i s_div = m.get_arithmetic_instr_cost s_div i.ty
dispatch m i f_div = m.get_arithmetic_instr_cost f_div i.ty
dispatch m i u_rem = m.get_arithmetic_instr_cost u_rem i.ty
dispatch m i s_rem = m.get_arithmetic_instr_cost s_rem i.ty
dispatch m i f_rem = m.get_arithmetic_instr_cost f_rem i.ty
dispatch m i shl = m.get_arithmetic_instr_cost shl i.ty
dispatch m i l_shr = m.get_arithmetic_instr_cost l_shr i.ty
dispatch m i a_shr = m.get_arithmetic_instr_cost a_shr i.ty
dispatch m i and = m.get_arithmetic_instr_cost and i.ty
dispatch m i or = m.get_arithmetic_instr_cost or i.ty
dispatch m i xor = m.get_arithmetic_instr_cost xor i.ty
dispatch m i select = m.get_cmp_sel_instr_cost select i.ty (some i.condition_ty)
dispatch m i i_cmp = m.get_cmp_sel_instr_cost i_cmp i.operand_ty none
dispatch m i f_cmp = m.get_cmp_sel_instr_cost f_cmp i.operand_ty none
dispatch m i alloca = tcc_free
dispatch m i store = m.get_memory_op_cost store i.value_ty i.alignment i.address_space
dispatch m i load = m.get_memory_op_cost load i.ty i.alignment i.address_space
dispatch m i z_ext = m.get_cast_instr_cost z_ext i.ty i.operand_ty
dispatch m i s_ext = m.get_cast_instr_cost s_ext i.ty i.operand_ty
dispatch m i fp_to_ui = m.get_cast_instr_cost fp_to_ui i.ty i.operand_ty
dispatch m i fp_to_si = m.get_cast_instr_cost fp_to_si i.ty i.operand_ty
dispatch m i fp_ext = m.get_cast_instr_cost fp_ext i.ty i.operand_ty
dispatch m i ptr_to_int = m.get_cast_instr_cost ptr_to_int i.ty i.operand_ty
dispatch m i int_to_ptr = m.get_cast_instr_cost int_to_ptr i.ty i.operand_ty
dispatch m i si_to_fp = m.get_cast_instr_cost si_to_fp i.ty i.operand_ty
dispatch m i ui_to_fp = m.get_cast_instr_cost ui_to_fp i.ty i.operand_ty
dispatch m i trunc = m.get_cast_instr_cost trunc i.ty i.operand_ty
dispatch m i fp_trunc = m.get_cast_instr_cost fp_trunc i.ty i.operand_ty
dispatch m i bit_cast = m.get_cast_instr_cost bit_cast i.ty i.operand_ty
dispatch m i extract_element = m.get_vector_instr_cost extract_element i.operand_ty (lane i.index)
dispatch m i insert_element = m.get_vector_instr_cost insert_element i.ty (lane i.index)
dispatch m i call = (tcc_basic * (i.num_args + 1)) % u32_mod
dispatch m i other = unknown_cost

unfoldable pub get_instruction_cost : CostModel → Inst → ℕ
get_instruction_cost m i = if i.is_intrinsic_inst then tcc_free else dispatch m i i.opcode

-- The loop over the instructions of a block; those of unknown cost are left out.
pub add_costs : CostModel → List Inst → ℕ → ℕ
unfolding get_instruction_cost
add_costs m [] cost = cost
add_costs m (i ∷ is) cost =
    let c = get_instruction_cost m i in
    add_costs m is (if c == unknown_cost then cost else (cost + c) % u32_mod)

-- A null block costs nothing.
unfoldable pub get_basic_block_cost : CostModel → Option (List Inst) → ℕ
unfolding add_costs
get_basic_block_cost m none = 0
get_basic_block_cost m (some is) = add_costs m is 0

-- The loop over the blocks of a loop.
pub add_blocks : CostModel → List (List Inst) → ℕ → ℕ
unfolding get_basic_block_cost
add_blocks m [] cost = cost
add_blocks m (b ∷ bs) cost = add_blocks m bs ((cost + get_basic_block_cost m (some b)) % u32_mod)

unfoldable pub get_loop_cost : CostModel → List (List Inst) → ℕ
unfolding add_blocks
get_loop_cost m blocks = add_blocks m blocks 0
