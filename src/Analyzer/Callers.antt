-- ===== src/Analyzer/Callers.antt =====
-- The search over the callers of a function, RiskEvaluator::calcCallerHotness of
-- lib/analyzer/RiskEvaluator/Evaluator.cpp, for an evaluator that was given a module.
pub mod Ends
use perfscope.Base.{
  ℕ, zero, suc, ◌+◌, Bool, true, false, not, ◌&&◌, ◌||◌, List, [], ◌∷◌, ◌++◌, Option, none, some,
  contains, Text, ltb, leb, ◌==◌, if◌then◌else◌, length, inc,
}
use perfscope.Base.Int.{ℤ, pos, negsuc}
use perfscope.Analyzer.Risk.{Hotness, cold, regular, hot, is_hot}

-- A caller and the block of the call instruction in it, if there is one.
pub record CallSite : Type 0 where
  pub caller : ℕ
  pub block : Option ℕ

pub record CallGraph : Type 0 where
  -- calcFuncHotness of the demangled name.
  pub name_hotness : ℕ → Hotness
  -- What CallSiteFinder gives.
  pub call_sites : ℕ → List CallSite
  pub is_declaration : ℕ → Bool
  -- LoopInfo of a function has a loop for the block.
  pub has_loop_for : ℕ → ℕ → Bool

-- The functions of which the pass manager has filled the table of blocks in loops.
abbrev pub in_loop : CallGraph → List ℕ → ℕ → ℕ → Bool
in_loop graph analyzed f block = contains analyzed f && graph.has_loop_for f block

-- func_manager->run, on a function that it has not run on.
abbrev pub analyze : List ℕ → ℕ → List ℕ
analyze analyzed f = if contains analyzed f then analyzed else f ∷ analyzed

-- The loop over the call sites stops at a call in a loop, or ends with the callers in the queue.
pub data Pushed : Type 0 where
  called_in_loop : List ℕ → Pushed
  pushed : List ℕ → List (ℕ × ℕ) → Pushed

abbrev pub looks_inside : CallGraph → CallSite → Bool
looks_inside graph site = elim site.block [
  | none ↦ false
  | some _ ↦ not (graph.is_declaration site.caller)
]

abbrev pub site_in_loop : CallGraph → List ℕ → CallSite → Bool
site_in_loop graph analyzed site = elim site.block [
  | none ↦ false
  | some block ↦ in_loop graph analyzed site.caller block
]

pub push_callers : CallGraph → List ℕ → ℕ → List ℕ → List (ℕ × ℕ) → List CallSite → Pushed
push_callers graph visited depth analyzed queue [] = pushed analyzed queue
push_callers graph visited depth analyzed queue (site ∷ sites) =
    let next = if looks_inside graph site then analyze analyzed site.caller else analyzed in
    let skip = push_callers graph visited depth analyzed queue sites in
    let push =
      push_callers graph visited depth next (queue ++ (site.caller, depth + 1) ∷ []) sites in
    if contains visited site.caller
    then skip
    else if looks_inside graph site && site_in_loop graph next site
    then called_in_loop next
    else push

-- CALLERHOT
abbrev pub caller_hot : ℕ
caller_hot = 10

-- The queue, the functions visited, the functions analyzed and the rounds so far; none is out of
-- fuel. The answer carries the functions analyzed.
pub search_loop : ℕ → CallGraph → ℕ → List (ℕ × ℕ) → List ℕ → List ℕ → ℕ → Option (Hotness × List ℕ)
unfolding push_callers
search_loop zero graph level queue visited analyzed callers = none
search_loop (suc fuel) graph level [] visited analyzed callers =
    some (if ltb caller_hot callers then hot else regular, analyzed)
search_loop (suc fuel) graph level ((f, depth) ∷ queue) visited analyzed callers =
    let drop_item = search_loop fuel graph level queue visited analyzed (inc callers) in
    let stop_here = search_loop fuel graph level queue (f ∷ visited) analyzed (inc callers) in
    if contains visited f
    then drop_item
    else if is_hot (graph.name_hotness f)
    then some (hot, analyzed)
    else if leb level depth
    then stop_here
    else elim (push_callers graph (f ∷ visited) depth analyzed queue (graph.call_sites f)) [
      | called_in_loop analyzed' ↦ some (hot, analyzed')
      | pushed analyzed' queue' ↦
          search_loop fuel graph level queue' (f ∷ visited) analyzed' (inc callers)
    ]

unfoldable pub calc_caller_hotness :
    ℕ → CallGraph → Option ℕ → ℤ → List ℕ → Option (Hotness × List ℕ)
unfolding search_loop
calc_caller_hotness fuel graph none level analyzed = some (cold, analyzed)
calc_caller_hotness fuel graph (some f) (negsuc n) analyzed = some (cold, analyzed)
calc_caller_hotness fuel graph (some f) (pos level) analyzed =
    if level == 0
    then some (cold, analyzed)
    else search_loop fuel graph level ((f, 1) ∷ []) [] analyzed 0
