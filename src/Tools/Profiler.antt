-- ===== src/Tools/Profiler.antt =====
-- The static profiler, tools/StaticProfiler/StaticProfiler.cpp: the functions of a module by their cost and
-- by the number of their call sites, printed as a profile.
pub mod Read
pub mod Top
use perfscope.Base.{
  ℕ, zero, suc, ◌+◌, ◌-◌, ◌/◌, ◌%◌, Bool, true, false, not, ◌&&◌, List, [], ◌∷◌, ◌++◌, map, Option,
  none, some, Text, codes, text_eq, take, ◌==◌, if◌then◌else◌, length, print_lines, u32_mod,
}
use perfscope.Base.Int.{ℤ, pos, negsuc}
use perfscope.Analyzer.Profile.{segment_mark}
use perfscope.Mapper.Target.{is_negative_difference, sort_by}

-- A function of the module: its name and the demangled one, what getFunctionCost answers, and the
-- number of call sites that CallSiteFinder finds.
pub record Func : Type 0 where
  pub name : Text
  pub demangled : Text
  pub cost : ℕ
  pub call_sites : ℕ

-- FuncCost and FuncHot: a name with its cost or its hotness.
pub record Rated : Type 0 where
  pub name : Text
  pub number : ℕ

pub record Options : Type 0 where
  pub topk_cost : ℤ
  pub topk_hot : ℤ
  pub detail : Bool
  pub printall : Bool

-- F->getName().startswith("llvm.")
abbrev pub is_llvm_function : Func → Bool
is_llvm_function f = text_eq (take 5 f.name) (codes "llvm.")

-- The entry of a function that is skipped stays as it was made.
abbrev pub unset : Rated
unset = record { name = []; number = 0 }

-- A cost that is unknown counts as none.
abbrev pub rate_cost : Func → Rated
rate_cost f =
    if is_llvm_function f
    then unset
    else record { name = f.demangled; number = if f.cost == u32_mod - 1 then 0 else f.cost }

abbrev pub rate_hot : Func → Rated
rate_hot f =
    if is_llvm_function f then unset else record { name = f.demangled; number = f.call_sites }

-- compareFuncCost and compareFuncHot, the greater number first.
abbrev pub compare_rated : Rated → Rated → Bool
compare_rated a b = is_negative_difference b.number a.number

-- The digits of %u, the last one first found; an unsigned has no more than ten.
pub put_digits : ℕ → ℕ → Text → Text
put_digits zero n out = out
put_digits (suc k) n out =
    let rest = put_digits k (n / 10) ((b'0' + n % 10) ∷ out) in
    if n / 10 == 0 then (b'0' + n % 10) ∷ out else rest

abbrev pub row : Bool → Rated → Text
row detail r = if detail then r.name ++ codes ": " ++ put_digits 10 r.number [] else r.name

-- How many entries are printed of an array of `size` entries.
abbrev pub limit : Bool → ℤ → ℕ → ℕ
limit printall (negsuc n) size = size
limit printall (pos n) size = if not printall && not (n == 0) then n else size

-- `none` is a read behind the array.
pub print_rows : Bool → ℕ → List Rated → Option (List Text)
unfolding put_digits
print_rows detail zero rs = some []
print_rows detail (suc k) [] = none
print_rows detail (suc k) (r ∷ rs) = elim (print_rows detail k rs) [
  | none ↦ none
  | some ls ↦ some (row detail r ∷ ls)
]

abbrev pub ranked : (Func → Rated) → List Func → List Rated
ranked rate fs = sort_by compare_rated (map rate fs)

-- A section of the profile.
abbrev pub print_section : Text → Option (List Text) → Option (List Text)
print_section name none = none
print_section name (some rows) = some (segment_mark ∷ name ∷ segment_mark ∷ rows)

abbrev pub join : Option (List Text) → Option (List Text) → Option Text
join none _ = none
join (some _) none = none
join (some a) (some b) = some (print_lines (a ++ b))

-- Nothing is written for a module without functions.
unfoldable pub static_profile : Options → List Func → Option Text
unfolding print_rows sort_by
static_profile o [] = some []
static_profile o (f ∷ fs) =
    let size = length (f ∷ fs) in
    join
      (print_section (codes "EXPCALL")
        (print_rows o.detail (limit o.printall o.topk_cost size) (ranked rate_cost (f ∷ fs))))
      (print_section (codes "FREQCALL")
        (print_rows o.detail (limit o.printall o.topk_hot size) (ranked rate_hot (f ∷ fs))))
