-- ===== src/Mapper/Scopes/Loops.antt =====
-- What the lines of a loop say, and which loop a scope is given.
use perfscope.Base.{
  ℕ, ◌≡◌, refl, inl, inr, Bool, true, false, List, [], ◌∷◌, Option, none, some, arith, All,
  Bool-cases, if◌then◌else◌,
}
use perfscope.Commons.Scope.{Scope, no_scope, intersects}
use perfscope.Mapper.Scopes.{
  Block, get_block_scope, Loop, max_end, get_loop_scope, Nest, match_inner, match_nests, match_loop,
}

-- The block's own last line, where it has a scope, else 0.
abbrev pub block_end : Block → ℕ
block_end b = let (found, s) = get_block_scope no_scope b in if found then s.end else 0

-- The first and the last line of a block are known.
abbrev pub has_scope : Block → Bool
has_scope b = (get_block_scope no_scope b).0

-- The scope is written from the first to the last line of a block, whatever it was before.
get_block_scope-known :
    (scope : Scope) (b : Block)
    → has_scope b ≡ true
    → get_block_scope scope b ≡ (true, (get_block_scope no_scope b).1)
unfolding get_block_scope
get_block_scope-known scope [] h = absurd (cc h)
get_block_scope-known scope (i ∷ is) h = ground (arith, h)

get_block_scope-unknown :
    (scope : Scope) (b : Block) → has_scope b ≡ false → get_block_scope scope b ≡ (false, scope)
unfolding get_block_scope
get_block_scope-unknown scope [] h = refl
get_block_scope-unknown scope (i ∷ is) h = ground (arith, h)

-- The lines of a loop: from the first line of its header to the last of the lines that end a block.
abbrev pub loop_lines : Loop → Scope
loop_lines l = record {
  begin = (get_block_scope no_scope l.header).1.begin;
  end = max_end l.blocks 0;
}

pub get_loop_scope_lem :
    (scope : Scope) (l : Loop)
    → get_loop_scope scope l ≡ (if has_scope l.header then (true, loop_lines l) else (false, scope))
unfolding get_loop_scope
get_loop_scope_lem scope l = elim (Bool-cases (has_scope l.header)) [
  | inl h ↦ rw (get_block_scope-known scope l.header h, h)
  | inr h ↦ rw (get_block_scope-unknown scope l.header h, h)
]

-- Every loop of the nests has known lines.
abbrev pub AllScoped : List Nest → Type 0
AllScoped [] = Unit {0}
AllScoped (n ∷ nests) =
    (has_scope n.outer.header ≡ true)
    × All (λ l. has_scope l.header ≡ true) n.inner
    × AllScoped nests

-- The loop meets the scope.
abbrev pub meets : Scope → Loop → Bool
meets scope l = intersects (loop_lines l) scope

-- The last of the loops that meets the scope, or else `found`.
abbrev pub last_meeting : Scope → Loop → List Loop → Loop
last_meeting scope found [] = found
last_meeting scope found (l ∷ loops) = last_meeting scope (if meets scope l then l else found) loops

-- In the first nest whose outer loop meets the scope. Loops below the second level have no part in it.
abbrev pub last_inner : Scope → List Nest → Option Loop
last_inner scope [] = none
last_inner scope (n ∷ nests) =
    let rest = last_inner scope nests in
    if meets scope n.outer then some (last_meeting scope n.outer n.inner) else rest

match_inner-last :
    (scope ls : Scope) (found : Loop) (loops : List Loop)
    → All (λ l. has_scope l.header ≡ true) loops
    → (match_inner scope ls found loops).0 ≡ last_meeting scope found loops
unfolding match_inner
match_inner-last scope ls found [] w = refl
match_inner-last scope ls found (l ∷ loops) w =
    rw (match_inner, get_loop_scope_lem ls l, w.0)
      (match_inner-last scope (loop_lines l) (if meets scope l then l else found) loops w.1)

match_nests-last_inner :
    (scope ls : Scope) (nests : List Nest)
    → AllScoped nests
    → match_nests scope ls nests ≡ last_inner scope nests
unfolding match_nests
match_nests-last_inner scope ls [] w = refl
match_nests-last_inner scope ls (n ∷ nests) w =
    let rest = match_nests-last_inner scope (loop_lines n.outer) nests w.2 in
    let inner = match_inner-last scope (loop_lines n.outer) n.outer n.inner w.1 in
    rw (match_nests, get_loop_scope_lem ls n.outer, w.0, rest, inner)

-- Where the lines of all loops are known, matchLoop gives the last inner loop that intersects the
-- scope in the first nest whose outer loop does, this outer loop if no inner one does, and nothing
-- if no outer loop does. The inner loops are those directly inside the outer one: a loop that is nested
-- deeper is never given, even where it intersects the scope.
pub match_loop-last_inner :
    (nests : List Nest) (scope : Scope)
    → AllScoped nests
    → match_loop nests scope ≡ last_inner scope nests
unfolding match_loop
match_loop-last_inner nests scope w = match_nests-last_inner scope no_scope nests w

-- A loop without lines that stands alone in an outer loop which intersects the scope is given in
-- its place, since the test is made with the lines of the outer loop.
pub match_loop-unknown_inner :
    (outer inner : Loop) (nests : List Nest) (scope : Scope)
    → has_scope outer.header ≡ true
    → has_scope inner.header ≡ false
    → meets scope outer ≡ true
    → match_loop (record { outer = outer; inner = inner ∷ [] } ∷ nests) scope ≡ some inner
unfolding match_loop match_nests match_inner
match_loop-unknown_inner outer inner nests scope h k m =
    rw (get_loop_scope_lem no_scope outer, h, m, get_loop_scope_lem (loop_lines outer) inner, k, m)
