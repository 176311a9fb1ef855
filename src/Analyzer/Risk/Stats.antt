-- ===== src/Analyzer/Risk/Stats.antt =====
-- The statistics of a function: what runOnFunction counts.
use perfscope.Base.{ℕ, ◌+◌, ◌%◌, ◌<◌, ◌≡◌, List, [], ◌∷◌, map, ltb, ◌==◌, if◌then◌else◌, u32_mod}
use perfscope.Analyzer.Risk.{RiskLevel, rank, Hotness, Llvm, raise, RiskStat, bump, Evaluator}
use perfscope.Analyzer.Risk.Ratings.{rating, Consistent}

-- The highest of a rating and those of a slice.
abbrev pub worst : Llvm → Hotness → List ℕ → RiskLevel → RiskLevel
worst llvm fh [] r = r
worst llvm fh (i ∷ is) r = worst llvm fh is (raise r (rating llvm fh i))

-- The slice is rated with the first instruction, and with it alone.
abbrev pub ratings : Llvm → Hotness → List ℕ → List ℕ → List RiskLevel
ratings llvm fh slice [] = []
ratings llvm fh slice (i ∷ is) = worst llvm fh slice (rating llvm fh i) ∷ map (rating llvm fh) is

abbrev pub occurrences : RiskLevel → List RiskLevel → ℕ
occurrences r [] = 0
occurrences r (q ∷ qs) = (if rank r == rank q then 1 else 0) + occurrences r qs

-- The part of the slice that the loop looks at.
abbrev pub looked_at : ℕ → List ℕ → List ℕ
looked_at level slice = if ltb 1 level then slice else []

record Stepped (llvm : Llvm) (level : ℕ) (fh : Hotness) (e : Evaluator) (i : ℕ) (e' : Evaluator)
    : Type 0 where
  top : RiskLevel
  rated : top ≡ worst llvm fh (looked_at level e.slice) (rating llvm fh i)
  drained : looked_at level e'.slice ≡ []
  func_stat : e'.func_risk_stat ≡ bump e.func_risk_stat top
  all_stat : e'.all_risk_stat ≡ bump e.all_risk_stat top
  consistent : Consistent llvm e'.loop_depth_map

-- What the loop adds to a statistic.
abbrev Added : RiskStat → List RiskLevel → RiskStat → Type 0
Added s rs s' = (r : RiskLevel) → s r < u32_mod → s' r ≡ (s r + occurrences r rs) % u32_mod
