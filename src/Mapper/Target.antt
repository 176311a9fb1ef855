-- ===== src/Mapper/Target.antt =====
-- How Matcher of lib/mapper/Matcher.cpp turns to a source file: initName, matchCompileUnit,
-- processSubprograms, slideSPToTarget and resetTarget, and the orders that it sorts by.
pub mod Sorting
pub mod Order
pub mod Slide
use perfscope.Base.{
  ℕ, zero, suc, ◌+◌, ◌-◌, ◌%◌, ◌^◌, Bool, true, false, not, ◌&&◌, ◌||◌, List, [], ◌∷◌, ◌++◌, Option,
  none, some, Text, text_eq, reverse, ltb, leb, length, ◌==◌, if◌then◌else◌, u32_mod,
}
use perfscope.Base.Int.{ℤ}
use perfscope.Base.Result.{Result, ok, err}
use perfscope.Analyzer.Profile.{text_ltb}
use perfscope.Commons.Canon.{own, canonpath, pathneq}
use perfscope.Commons.Text.{stripname}
use perfscope.Mapper.Scopes.{Block, get_last_line}
use perfscope.Mapper.Matcher.{
  Subprogram, Descriptor, CompileUnit, Matcher, Position, full_path, debugname,
}

-- int cmp = a - b; cmp < 0, on unsigned numbers
abbrev pub is_negative_difference : ℕ → ℕ → Bool
is_negative_difference a b = leb (2 ^ 31) ((a + u32_mod - b) % u32_mod)

unfoldable pub cmp_disp_copy : Subprogram → Subprogram → Bool
cmp_disp_copy a b =
    if not (text_eq a.directory b.directory)
    then text_ltb a.directory b.directory
    else if not (text_eq a.filename b.filename)
    then text_ltb a.filename b.filename
    else is_negative_difference a.linenumber b.linenumber

unfoldable pub cmp_dicu : CompileUnit → CompileUnit → Bool
cmp_dicu a b =
    if not (text_eq a.directory b.directory)
    then text_ltb a.directory b.directory
    else text_ltb a.filename b.filename

-- std::sort, by insertion.
module _ {ℓ} {A : Type ℓ} (before : A → A → Bool) where
  unfoldable pub insert_by : A → List A → List A
  insert_by x [] = x ∷ []
  insert_by x (y ∷ ys) = if before y x then y ∷ insert_by x ys else x ∷ y ∷ ys

  unfoldable pub sort_by : List A → List A
  unfolding insert_by
  sort_by [] = []
  sort_by (x ∷ xs) = insert_by x (sort_by xs)

-- A subprogram that the vector takes, with the last line of its function.
abbrev pub is_proper : Subprogram → Bool
is_proper s = not (length s.name == 0) && not (length s.filename == 0) && not (s.linenumber == 0)

pub copy_subprograms : List Descriptor → List Subprogram
copy_subprograms [] = []
copy_subprograms (d ∷ ds) =
    let rest = copy_subprograms ds in
    if is_proper d.subprogram
    then record d.subprogram { lastline = get_last_line d.body } ∷ rest
    else rest

-- processSubprograms on a compile unit, which appends to the vector.
unfoldable pub process_unit : List Subprogram → CompileUnit → List Subprogram
unfolding copy_subprograms
process_unit sps cu = if cu.is_current then sps ++ copy_subprograms cu.subprograms else sps

pub process_units : List Subprogram → List CompileUnit → List Subprogram
unfolding process_unit
process_units sps [] = sps
process_units sps (cu ∷ cus) = process_units (process_unit sps cu) cus

-- processSubprograms on a module, whose compile units are given.
unfoldable pub process_module : List CompileUnit → Matcher → Matcher
unfolding process_units sort_by
process_module units m = record m { sps = sort_by cmp_disp_copy (process_units [] units) }

-- processCompileUnits
pub current_units : List CompileUnit → List CompileUnit
current_units [] = []
current_units (cu ∷ cus) = let rest = current_units cus in if cu.is_current then cu ∷ rest else rest

unfoldable pub process_compile_units : List CompileUnit → Matcher → Matcher
unfolding current_units sort_by
process_compile_units units m = record m { cus = sort_by cmp_dicu (current_units units) }

-- A name that canonpath refuses, or of which nothing is left, is not taken as the target; in the
-- second case the names have changed all the same.
unfoldable pub init_name : Matcher → Text → Bool × Matcher
unfolding canonpath stripname
init_name m fname = elim (canonpath own fname) [
  | err _ ↦ (false, m)
  | ok canon ↦
      let stripped = stripname canon m.patchstrips in
      (not (length stripped == 0), record m { filename = canon; patchname = stripped })
]

-- The first compile unit of the file.
pub find_unit : Matcher → List CompileUnit → Option CompileUnit
unfolding pathneq
find_unit m [] = none
find_unit m (cu ∷ cus) =
    let rest = find_unit m cus in
    if pathneq (full_path cu.directory cu.filename) m.patchname m.debugstrips then some cu else rest

unfoldable pub match_compile_unit : Matcher → Text → Option CompileUnit × Matcher
unfolding init_name find_unit
match_compile_unit m fullname =
    let (named, m') = init_name m fullname in
    if named then (find_unit m' m'.cus, record m' { initialized = true }) else (none, m')

-- The end of the vector.
abbrev pub sp_end : List Subprogram → Position
sp_end sps = record { passed = reverse sps; rest = [] }

pub slide : Matcher → List Subprogram → List Subprogram → Position
unfolding pathneq
slide m passed [] = record { passed = passed; rest = [] }
slide m passed (s ∷ rest) =
    let next = slide m (s ∷ passed) rest in
    if pathneq (debugname s) m.patchname m.debugstrips
    then record { passed = passed; rest = s ∷ rest }
    else next

unfoldable pub slide_sp_to_target : Matcher → Position
unfolding slide
slide_sp_to_target m = if m.processed then slide m [] m.sps else sp_end m.sps

-- The subprograms of the compile unit that was found, sorted.
pub turn_to_unit : Option CompileUnit × Matcher → Position × Matcher
unfolding process_unit sort_by slide_sp_to_target
turn_to_unit (none, m) = (sp_end m.sps, m)
turn_to_unit (some cu, m) =
    let m' = record m { sps = sort_by cmp_disp_copy (process_unit [] cu); initialized = true } in
    (slide_sp_to_target m', m')

-- The compile unit of the target, if it is another file than before.
pub turn_to : Matcher → Text → Text → Position × Matcher
unfolding turn_to_unit match_compile_unit slide_sp_to_target
turn_to m oldfile target =
    if text_eq oldfile m.filename
    then (slide_sp_to_target m, record m { initialized = true })
    else turn_to_unit (match_compile_unit m target)

-- `units` are the compile units of the module. An empty target is a test of the module by itself.
unfoldable pub reset_target : List CompileUnit → Matcher → Text → Position × Matcher
unfolding process_module init_name turn_to
reset_target units m target = elim target [
  | [] ↦
      let m' = process_module units m in
      (record { passed = []; rest = m'.sps }, record m' { patchname = []; initialized = true })
  | c ∷ cs ↦
      let (named, m') = init_name m (c ∷ cs) in
      if named then turn_to m' m.filename (c ∷ cs) else (sp_end m'.sps, m')
]
