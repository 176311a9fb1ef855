-- ===== src/Mapper/Matcher.antt =====
-- Matcher::matchFunction of lib/mapper/Matcher.cpp, which walks over the subprograms of a file to
-- the first one that a scope reaches. The vector is split at the iterator: the entries before it,
-- the last first, and those from it on.
pub mod Overlaps
pub mod Known
use perfscope.Base.{
  ℕ, zero, suc, Bool, true, false, not, ◌&&◌, ◌||◌, List, [], ◌∷◌, ◌++◌, Option, none, some, Text,
  ltb, ◌==◌, if◌then◌else◌, inc, dec,
}
use perfscope.Base.Int.{ℤ}
use perfscope.Commons.Text.{starts_slash}
use perfscope.Commons.Canon.{pathneq}
use perfscope.Commons.Scope.{Scope}
use perfscope.Mapper.Scopes.{Block}

-- DISPCopy
pub record Subprogram : Type 0 where
  pub directory : Text
  pub filename : Text
  pub name : Text
  pub linenumber : ℕ
  pub lastline : ℕ
  pub function : Option ℕ

-- A compile unit, with its subprograms as the debug information lists them: the last line is not
-- known there, and a function is given with the lines of its blocks. `is_current` is the test of
-- the version.
pub record Descriptor : Type 0 where
  pub subprogram : Subprogram
  pub body : Option (List Block)

pub record CompileUnit : Type 0 where
  pub directory : Text
  pub filename : Text
  pub is_current : Bool
  pub subprograms : List Descriptor

-- MySPs and MyCUs are `sps` and `cus`.
pub record Matcher : Type 0 where
  pub initialized : Bool
  pub processed : Bool
  pub filename : Text
  pub patchname : Text
  pub sps : List Subprogram
  pub cus : List CompileUnit
  pub patchstrips : ℤ
  pub debugstrips : ℤ

pub record Position : Type 0 where
  pub passed : List Subprogram
  pub rest : List Subprogram

abbrev pub full_path : Text → Text → Text
full_path directory filename =
    if starts_slash filename then filename else directory ++ b'/' ∷ filename

abbrev pub debugname : Subprogram → Text
debugname s = full_path s.directory s.filename

-- An empty patchname is not compared.
abbrev pub in_file : Matcher → Subprogram → Bool
in_file m s = elim m.patchname [
  | [] ↦ true
  | _ ∷ _ ↦ pathneq (debugname s) m.patchname m.debugstrips
]

-- A last line that is not known ends in front of the next subprogram, or with its first line when
-- both begin there.
abbrev pub fill : Subprogram → Subprogram → Subprogram
fill s n = record s {
  lastline = if s.linenumber == n.linenumber then n.linenumber else dec n.linenumber;
}

-- The subprogram reaches the scope's begin.
abbrev pub reaches : Subprogram → Scope → Bool
reaches s scope =
    ltb scope.begin s.lastline || s.lastline == scope.begin && s.lastline == s.linenumber

-- Where the loop stops: a subprogram that reaches the scope, with the entries around it; the last
-- one of the vector without a last line; the end of the vector or of the file; a failed assertion.
pub data Search : Type 0 where
  reached : List Subprogram → Subprogram → List Subprogram → Search
  last_one : List Subprogram → Subprogram → Search
  ended : Position → Search
  assert_failed : Search

abbrev pub search_at : Scope → List Subprogram → Subprogram → List Subprogram → Search → Search
search_at scope passed s rest next = if reaches s scope then reached passed s rest else next

pub search : Matcher → Scope → List Subprogram → List Subprogram → Search
search m scope passed [] = ended (record { passed = passed; rest = [] })
search m scope passed (s ∷ []) =
    let next = search m scope (s ∷ passed) [] in
    if not (in_file m s)
    then ended (record { passed = passed; rest = s ∷ [] })
    else if s.lastline == 0
    then last_one passed s
    else search_at scope passed s [] next
search m scope passed (s ∷ n ∷ rest) =
    let t = if s.lastline == 0 then fill s n else s in
    let next = search m scope (t ∷ passed) (n ∷ rest) in
    if not (in_file m s)
    then ended (record { passed = passed; rest = s ∷ n ∷ rest })
    else if s.lastline == 0 && ltb t.lastline t.linenumber
    then assert_failed
    else search_at scope passed t (n ∷ rest) next

-- What the call gives back, its references included. A null result has no subprogram.
pub record Match : Type 0 where
  pub result : Option ℕ
  pub position : Position
  pub scope : Scope
  pub multiple : Bool

-- Case (1) of the comment in the source: the subprogram lies behind the scope.
abbrev pub is_behind : Subprogram → Scope → Bool
is_behind s scope =
    ltb scope.end s.linenumber || s.linenumber == scope.end && ltb s.linenumber s.lastline

abbrev pub rest_of_scope : Subprogram → Scope → Scope
rest_of_scope s scope =
    if ltb s.lastline scope.end then record scope { begin = inc s.lastline } else scope

-- `none` is a failed assertion.
pub conclude : Scope → Bool → Search → Option Match
conclude scope multiple assert_failed = none
conclude scope multiple (ended position) =
    some (record { result = none; position = position; scope = scope; multiple = multiple })
conclude scope multiple (last_one passed s) = some (record {
  result = s.function;
  position = record { passed = passed; rest = s ∷ [] };
  scope = scope;
  multiple = multiple;
})
conclude scope multiple (reached passed s rest) =
    if is_behind s scope
    then some (record {
      result = none;
      position = record { passed = passed; rest = s ∷ rest };
      scope = scope;
      multiple = multiple;
    })
    else some (record {
      result = s.function;
      position = record { passed = passed; rest = s ∷ rest };
      scope = rest_of_scope s scope;
      multiple = false;
    })

unfoldable pub match_function : Matcher → Position → Scope → Bool → Option Match
unfolding search conclude
match_function m position scope multiple =
    let stay : Match = record {
      result = none;
      position = position;
      scope = scope;
      multiple = multiple;
    } in
    if not m.initialized
    then some stay
    else if ltb scope.end scope.begin
    then some stay
    else conclude scope multiple (search m scope position.passed position.rest)
