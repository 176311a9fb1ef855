-- ===== src/Mapper/Scopes.antt =====
-- ScopeInfoFinder and Matcher::matchLoop of lib/mapper/Matcher.cpp: the lines of blocks and loops, by
-- the lines of their instructions. A block is the list of its instructions, a function the list of
-- its blocks.
pub mod Loops
use perfscope.Base.{
  ℕ, Bool, true, false, not, ◌&&◌, ◌||◌, List, [], ◌∷◌, Option, none, some, ltb, ◌==◌,
  if◌then◌else◌,
}
use perfscope.Commons.Scope.{Scope, no_scope, intersects}
use perfscope.Mapper.Instructions.{Instruction, get_inst_line}

abbrev pub Block : Type 0
Block = List Instruction

-- The back of a block that is not empty.
abbrev pub back {ℓ} : {A : Type ℓ} → A → List A → A
back a [] = a
back a (b ∷ bs) = back b bs

abbrev pub last_line : Block → ℕ
last_line [] = 0
last_line (i ∷ is) = get_inst_line (back i is)

-- No function, or one without blocks, has no last line.
unfoldable pub get_last_line : Option (List Block) → ℕ
get_last_line none = 0
get_last_line (some []) = 0
get_last_line (some (b ∷ bs)) = last_line (back b bs)

-- The result, and the scope that the caller passed by reference.
unfoldable pub get_block_scope : Scope → Block → Bool × Scope
get_block_scope scope [] = (false, scope)
get_block_scope scope (first ∷ is) =
    let b = get_inst_line first in
    let e = get_inst_line (back first is) in
    if b == 0 || e == 0 then (false, scope) else (true, record { begin = b; end = e })

pub record Loop : Type 0 where
  pub address : ℕ
  pub header : Block
  pub blocks : List Block

-- The largest last line of the blocks that have a scope.
pub max_end : List Block → ℕ → ℕ
unfolding get_block_scope
max_end [] end = end
max_end (b ∷ bs) end =
    let (found, es) = get_block_scope no_scope b in
    max_end bs (if found && ltb end es.end then es.end else end)

unfoldable pub get_loop_scope : Scope → Loop → Bool × Scope
unfolding get_block_scope max_end
get_loop_scope scope l =
    let (found, s) = get_block_scope scope l.header in
    if found then (true, record s { end = max_end l.blocks 0 }) else (false, s)

-- A loop of the top level, with the loops right inside it.
pub record Nest : Type 0 where
  pub outer : Loop
  pub inner : List Loop

-- The loop over the inner loops: the last one that intersects, and the scope in `ls`.
pub match_inner : Scope → Scope → Loop → List Loop → Loop × Scope
unfolding get_loop_scope
match_inner scope ls found [] = (found, ls)
match_inner scope ls found (l ∷ loops) =
    let (_, ls') = get_loop_scope ls l in
    match_inner scope ls' (if intersects ls' scope then l else found) loops

-- The loop over the top level, which leaves at the first nest that intersects.
pub match_nests : Scope → Scope → List Nest → Option Loop
unfolding get_loop_scope match_inner
match_nests scope ls [] = none
match_nests scope ls (n ∷ nests) =
    let (_, ls') = get_loop_scope ls n.outer in
    let rest = match_nests scope ls' nests in
    if intersects ls' scope then some (match_inner scope ls' n.outer n.inner).0 else rest

unfoldable pub match_loop : List Nest → Scope → Option Loop
unfolding match_nests
match_loop nests scope = match_nests scope no_scope nests
