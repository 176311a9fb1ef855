-- ===== src/Tools/Profiler/Top.antt =====
-- The entries that a section shows are the ones with the greatest numbers.
use mathlib.Core.List.{Perm}
use perfscope.Base.{
  ℕ, zero, suc, ◌^◌, ◌≤◌, ◌<◌, ◌≡◌, true, false, List, [], ◌∷◌, map, arith, All, All-weaken, take,
  drop,
}
use perfscope.Mapper.Target.Sorting.{Ordered, sort_by-Ordered, sort_by-All, sort_by-perm}
use perfscope.Tools.Profiler.{Func, Rated, compare_rated, ranked}

-- Numbers whose difference fits in an int.
abbrev pub IsSmall : Rated → Type 0
IsSmall r = r.number < 2 ^ 31

compare_rated_asym :
    (a b : Rated) → IsSmall a → IsSmall b → compare_rated a b ≡ true → compare_rated b a ≡ false
compare_rated_asym a b h k e = ground (arith, h, k, e)

Descending : List Rated → Type 0
Descending [] = Unit {0}
Descending (r ∷ rs) = All (λ (s : Rated). s.number ≤ r.number) rs × Descending rs

Ordered-Descending : (rs : List Rated) → All IsSmall rs → Ordered compare_rated rs → Descending rs
unfolding Descending
Ordered-Descending [] w o = tt
Ordered-Descending (x ∷ []) w o = (tt, tt)
Ordered-Descending (x ∷ y ∷ ys) w o =
    let below : y.number ≤ x.number = ground (arith, o.0, w.0, w.1.0) in
    let rest = Ordered-Descending (y ∷ ys) w.1 o.1 in
    (
      (
        below,
        All-weaken (λ (s : Rated). s.number ≤ y.number) ys (λ s h. omega (arith, h, below)) rest.0,
      ),
      rest,
    )

All-drop : (P : Rated → Type 0) (k : ℕ) (rs : List Rated) → All P rs → All P (drop k rs)
All-drop P zero rs w = w
All-drop P (suc k) [] w = tt
All-drop P (suc k) (r ∷ rs) w = All-drop P k rs w.1

-- No entry behind the first `k` has a greater number than one of these.
abbrev pub AreGreatest : ℕ → List Rated → Type 0
AreGreatest k rs =
    All (λ (r : Rated). All (λ (s : Rated). s.number ≤ r.number) (drop k rs)) (take k rs)

Descending-AreGreatest : (k : ℕ) (rs : List Rated) → Descending rs → AreGreatest k rs
unfolding Descending
Descending-AreGreatest zero rs d = tt
Descending-AreGreatest (suc k) [] d = tt
Descending-AreGreatest (suc k) (r ∷ rs) d =
    (All-drop (λ (s : Rated). s.number ≤ r.number) k rs d.0, Descending-AreGreatest k rs d.1)

-- Where the numbers of all functions are below 2^31, the entries that a section of the profile starts
-- with are the greatest: the array is a rearrangement of the entries of all functions, and no entry
-- behind the first `k` has a greater number than one of the first `k`.
pub ranked-AreGreatest :
    (rate : Func → Rated) (fs : List Func) (k : ℕ)
    → All IsSmall (map rate fs)
    → Perm (ranked rate fs) (map rate fs) × AreGreatest k (ranked rate fs)
ranked-AreGreatest rate fs k small = (
  sort_by-perm compare_rated (map rate fs),
  Descending-AreGreatest k (ranked rate fs) (
      Ordered-Descending (ranked rate fs) (sort_by-All compare_rated IsSmall (map rate fs) small)
        (sort_by-Ordered compare_rated IsSmall compare_rated_asym (map rate fs) small)),
)
