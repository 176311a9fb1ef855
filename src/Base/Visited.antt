-- ===== src/Base/Visited.antt =====
-- A set of numbers as a list, and what is left of a list behind it.
use Prim.Native.Nat.{ℕ, ◌+◌, ◌≤◌}
use mathlib.Core.Path.{◌≡◌, subst}
use mathlib.Core.Logic.{inl, inr}
use mathlib.Core.Bool.{Bool, true, false, ◌||◌}
use mathlib.Core.List.{List, [], ◌∷◌}
use native.Mathlib.Omega.{arith}
use perfscope.Base.Tests.{◌==◌, if◌then◌else◌, Bool-cases}

abbrev pub contains : List ℕ → ℕ → Bool
contains [] f = false
contains (g ∷ gs) f = f == g || contains gs f

-- No number stands twice in the list.
abbrev pub Distinct : List ℕ → Type 0
Distinct [] = Unit {0}
Distinct (x ∷ xs) = (contains xs x ≡ false) × Distinct xs

-- The weight of the listed numbers that are not visited.
abbrev pub unvisited : (ℕ → ℕ) → List ℕ → List ℕ → ℕ
unvisited weight visited [] = 0
unvisited weight visited (f ∷ fs) =
    (if contains visited f then 0 else weight f) + unvisited weight visited fs

module _ (weight : ℕ → ℕ) where
  pub unvisited_mono :
      (visited : List ℕ) (g : ℕ) (fs : List ℕ)
      → unvisited weight (g ∷ visited) fs ≤ unvisited weight visited fs
  unvisited_mono visited g [] = omega arith
  unvisited_mono visited g (f ∷ fs) = ground (arith, unvisited_mono visited g fs)

  pub unvisited_visit :
      (visited : List ℕ) (g : ℕ) (fs : List ℕ)
      → contains fs g ≡ true
      → contains visited g ≡ false
      → unvisited weight (g ∷ visited) fs + weight g ≤ unvisited weight visited fs
  unvisited_visit visited g [] m n = absurd (cc m)
  unvisited_visit visited g (f ∷ fs) m n = elim (Bool-cases (g == f)) [
    | inl e ↦
        let same : g ≡ f = ground (arith, e) in
        subst
          (λ k.
            unvisited weight (g ∷ visited) (k ∷ fs) + weight g ≤ unvisited weight visited (k ∷ fs))
          same (ground (arith, n, unvisited_mono visited g fs))
    | inr e ↦ let rest = unvisited_visit visited g fs (rw e at m) n in ground (arith, rest)
  ]
