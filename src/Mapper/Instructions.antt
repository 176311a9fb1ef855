-- ===== src/Mapper/Instructions.antt =====
-- Matcher::matchInstruction of lib/mapper/Matcher.cpp, and the loop of tools/PerfScope/PerfScope.cpp
-- that calls it for the lines of a modification. The iterator is the list of the instructions from it
-- on.
pub mod Range
pub mod Safe
use perfscope.Base.{
  ℕ, zero, suc, ◌+◌, Bool, true, false, List, [], ◌∷◌, Option, none, some, ltb, leb, length, ◌==◌,
  if◌then◌else◌,
}
use perfscope.Commons.Scope.{Scope}

-- An instruction: its address, and its line if the debug location is known.
pub record Instruction : Type 0 where
  pub address : ℕ
  pub loc : Option ℕ

-- ScopeInfoFinder::getInstLine
abbrev pub get_inst_line : Instruction → ℕ
get_inst_line i = elim i.loc [ none ↦ 0 | some l ↦ l ]

-- Where the loop stops: at an instruction, with those behind it; at one behind the scope; at the end.
pub data Stop : Type 0 where
  at : Instruction → List Instruction → Stop
  passed : List Instruction → Stop
  exhausted : Stop

pub scan : Scope → List Instruction → Stop
scan scope [] = exhausted
scan scope (i ∷ is) =
    let l = get_inst_line i in
    let next = scan scope is in
    if l == 0
    then next
    else if l == scope.begin
    then at i is
    else if ltb scope.begin l
    then if leb l scope.end then at i is else passed (i ∷ is)
    else next

-- The instruction, the iterator and the scope behind a call.
pub record Step : Type 0 where
  pub inst : Option Instruction
  pub fi : List Instruction
  pub scope : Scope

abbrev pub settle : Scope → Stop → Step
settle scope (at i is) = record {
  inst = some i;
  fi = is;
  scope = record scope { begin = get_inst_line i };
}
settle scope (passed is) = record { inst = none; fi = is; scope = scope }
settle scope exhausted = record { inst = none; fi = []; scope = scope }

unfoldable pub match_instruction : List Instruction → Scope → Step
unfolding scan
match_instruction fi scope =
    if ltb scope.end scope.begin
    then record { inst = none; fi = fi; scope = scope }
    else settle scope (scan scope fi)

-- What the loop over one modification gathers: the instructions in order, and the iterator behind.
-- `none` would be a loop that does not end.
pub gather : ℕ → List Instruction → Scope → Option (List Instruction × List Instruction)
unfolding match_instruction
gather zero fi scope = none
gather (suc fuel) fi scope =
    let s = match_instruction fi scope in
    elim s.inst [
      | none ↦ some ([], s.fi)
      | some i ↦ elim (gather fuel s.fi s.scope) [ none ↦ none | some r ↦ some (i ∷ r.0, r.1) ]
    ]

-- Every round but the last takes an instruction.
unfoldable pub match_instructions :
    List Instruction → Scope → Option (List Instruction × List Instruction)
unfolding gather
match_instructions fi scope = gather (length fi + 1) fi scope
