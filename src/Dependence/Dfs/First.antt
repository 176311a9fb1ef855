-- ===== src/Dependence/Dfs/First.antt =====
-- What the loop over the neighbors finds.
use perfscope.Base.{
  ℕ, ◌≡◌, sym, ap, subst, ◌⊎◌, inl, inr, true, false, List, [], ◌∷◌, Option, none, some, Bool-cases,
  In, contains,
}
use perfscope.Dependence.Dfs.{first_unvisited}

pub first_unvisited-none :
    (visited : List ℕ) (ns : List (Option ℕ)) (m : ℕ)
    → first_unvisited visited ns ≡ none
    → In (some m) ns
    → contains visited m ≡ true
unfolding first_unvisited
first_unvisited-none visited [] m e i = absurd i
first_unvisited-none visited (none ∷ ns) m e (inl s) = absurd (cc s)
first_unvisited-none visited (none ∷ ns) m e (inr i) = first_unvisited-none visited ns m e i
first_unvisited-none visited (some n ∷ ns) m e i = elim (Bool-cases (contains visited n)) [
  | inl v ↦ elim i [
    | inl s ↦ let same : n ≡ m = cc s in subst (λ k. contains visited k ≡ true) same v
    | inr j ↦ first_unvisited-none visited ns m (rw (first_unvisited, v) at e) j
  ]
  | inr v ↦ absurd (cc (rw (first_unvisited, v) at e))
]

-- What was passed on the way to the neighbor is null or visited.
pub record IsFirst (visited : List ℕ) (ns : List (Option ℕ)) (n : ℕ) (left : List (Option ℕ))
    : Type 0 where
  pub fresh : contains visited n ≡ false
  pub inside : In (some n) ns
  pub passed : (m : ℕ) → In (some m) ns → (contains visited m ≡ true) ⊎ In (some m) left
  pub among : (m : ℕ) → In (some m) left → In (some m) ns

pub first_unvisited-IsFirst :
    (visited : List ℕ) (ns : List (Option ℕ)) (n : ℕ) (left : List (Option ℕ))
    → first_unvisited visited ns ≡ some (n, left)
    → IsFirst visited ns n left
unfolding first_unvisited
first_unvisited-IsFirst visited [] n left e = absurd (cc e)
first_unvisited-IsFirst visited (none ∷ ns) n left e =
    let rest = first_unvisited-IsFirst visited ns n left e in
    record {
      fresh = rest.fresh;
      inside = inr rest.inside;
      passed = λ m i. elim i [ inl s ↦ absurd (cc s) | inr j ↦ rest.passed m j ];
      among = λ m i. inr (rest.among m i);
    }
first_unvisited-IsFirst visited (some k ∷ ns) n left e = elim (Bool-cases (contains visited k)) [
  | inl v ↦
      let rest = first_unvisited-IsFirst visited ns n left (rw (first_unvisited, v) at e) in
      record {
        fresh = rest.fresh;
        inside = inr rest.inside;
        passed = λ m i. elim i [
          | inl s ↦ let same : k ≡ m = cc s in inl (subst (λ j. contains visited j ≡ true) same v)
          | inr j ↦ rest.passed m j
        ];
        among = λ m i. inr (rest.among m i);
      }
  | inr v ↦
      let pair : ◌≡◌ {A = ℕ × List (Option ℕ)} (k, some k ∷ ns) (n, left) =
        cc (rw (first_unvisited, v) at e) in
      let same : k ≡ n = ap (λ p. p.0) pair in
      let rest : some k ∷ ns ≡ left = ap (λ p. p.1) pair in
      record {
        fresh = subst (λ j. contains visited j ≡ false) same v;
        inside = inl (ap some (sym same));
        passed = λ m i. inr (subst (λ l. In (some m) l) rest i);
        among = λ m i. subst (λ l. In (some m) l) (sym rest) i;
      }
]
