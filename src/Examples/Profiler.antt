-- ===== src/Examples/Profiler.antt =====
-- A module of three functions, one of which is skipped.
use mathlib.Core.List.{Perm}
use perfscope.Base.{
  ◌≡◌, refl, inl, true, false, List, [], ◌∷◌, map, none, some, arith, Text, codes, print_lines, All,
}
use perfscope.Base.Int.{pos}
use perfscope.Analyzer.Profile.{
  SpeFuncType, Profile, empty_profile, binary_search, parse_file, segment_mark,
}
use perfscope.Analyzer.Profile.Parse.{listed}
use perfscope.Tools.Profiler.{Func, Options, rate_cost, ranked, static_profile}
use perfscope.Tools.Profiler.Read.{IsName, sections, static_profile-listed, static_profile_overrun}
use perfscope.Tools.Profiler.Top.{AreGreatest, ranked-AreGreatest}

abbrev small_func : Func
small_func = record { name = codes "f"; demangled = codes "f"; cost = 3; call_sites = 9 }

abbrev large_func : Func
large_func = record { name = codes "_Z1gv"; demangled = codes "g()"; cost = 70; call_sites = 1 }

abbrev debug_func : Func
debug_func = record {
  name = codes "llvm.dbg.value";
  demangled = codes "llvm.dbg.value";
  cost = 1;
  call_sites = 40;
}

abbrev functions : List Func
functions = small_func ∷ large_func ∷ debug_func ∷ []

abbrev two_each : Options
two_each = record { topk_cost = pos 2; topk_hot = pos 0; detail = false; printall = false }

-- The skipped function leaves an empty line.
written :
    static_profile two_each functions
    ≡ some (
        print_lines (
          segment_mark
          ∷ codes "EXPCALL"
          ∷ segment_mark
          ∷ codes "g()"
          ∷ codes "f"
          ∷ segment_mark
          ∷ codes "FREQCALL"
          ∷ segment_mark
          ∷ codes "f"
          ∷ codes "g()"
          ∷ []
          ∷ []))
unfolding static_profile
written = refl

detailed :
    static_profile
      (record two_each { detail = true; topk_hot = pos 1 })
      (large_func ∷ small_func ∷ [])
    ≡ some (
        print_lines (
          segment_mark
          ∷ codes "EXPCALL"
          ∷ segment_mark
          ∷ codes "g(): 70"
          ∷ codes "f: 3"
          ∷ segment_mark
          ∷ codes "FREQCALL"
          ∷ segment_mark
          ∷ codes "f: 9"
          ∷ []))
unfolding static_profile
detailed = refl

functions-IsName : All (λ (g : Func). IsName g.demangled) functions
functions-IsName = ground arith

static_profile-listed_example :
    (text : Text) × (q : Profile) × (static_profile two_each functions ≡ some text)
    × (parse_file empty_profile text ≡ some q)
    × ((t : SpeFuncType) (v : Text)
        → binary_search (q t) v
          ≡ listed (sections two_each small_func (large_func ∷ debug_func ∷ [])) t v)
static_profile-listed_example =
    static_profile-listed two_each small_func (large_func ∷ debug_func ∷ []) refl (omega arith)
      (omega arith) functions-IsName

-- The default of fifty.
abbrev fifty : Options
fifty = record { topk_cost = pos 50; topk_hot = pos 50; detail = false; printall = false }

static_profile_overrun_example : static_profile fifty functions ≡ none
static_profile_overrun_example =
    static_profile_overrun fifty small_func (large_func ∷ debug_func ∷ []) (inl (omega arith))

ranked-AreGreatest_example :
    Perm (ranked rate_cost functions) (map rate_cost functions)
    × AreGreatest 2 (ranked rate_cost functions)
ranked-AreGreatest_example = ranked-AreGreatest rate_cost functions 2 (ground arith)
