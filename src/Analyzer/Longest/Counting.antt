-- ===== src/Analyzer/Longest/Counting.antt =====
-- What the counts of the nodes say while getFunctionCost walks over the graph: how many edges from
-- blocks that were not popped lead to a node.
use perfscope.Base.{
  ℕ, zero, suc, ◌+◌, ◌≡◌, refl, ap, ◌∙◌, inl, inr, Bool, true, false, List, [], ◌∷◌, ◌++◌, arith,
  ◌==◌, if◌then◌else◌, All, All-both, All-weaken, Bool-cases, subst,
}
use perfscope.Analyzer.Dag.{BbNode, exit, block, node_eq, BbDag}
use perfscope.Analyzer.Dag.Counts.{occurs, node_occurs}
use perfscope.Analyzer.Longest.{Walk, dec_in_count, relax, relax_all}

pub node_eq_same : (n m : BbNode) → node_eq n m ≡ true → n ≡ m
node_eq_same exit exit e = refl
node_eq_same exit (block _) e = absurd (cc e)
node_eq_same (block _) exit e = absurd (cc e)
node_eq_same (block a) (block b) e = let same : a ≡ b = ground (arith, e) in ap block same

pub node_eq_self : (n : BbNode) → node_eq n n ≡ true
node_eq_self exit = refl
node_eq_self (block b) = ground arith

-- The predecessors that were not popped.
abbrev pub unfollowed : (BbNode → Bool) → List ℕ → ℕ
unfollowed P [] = 0
unfollowed P (b ∷ bs) = (if P (block b) then 0 else 1) + unfollowed P bs

abbrev pub also : (BbNode → Bool) → BbNode → BbNode → Bool
also P n = λ m. if node_eq m n then true else P m

pub unfollowed-also :
    (P : BbNode → Bool) (b : ℕ) (xs : List ℕ)
    → P (block b) ≡ false
    → unfollowed P xs ≡ unfollowed (also P (block b)) xs + occurs b xs
unfollowed-also P b [] h = omega arith
unfollowed-also P b (x ∷ xs) h = elim (Bool-cases (x == b)) [
  | inl e ↦
      let same : b ≡ x = ground (arith, e) in
      let back : (b == x) ≡ true = ground (arith, e) in
      let closed : P (block x) ≡ false = subst (λ k. P (block k) ≡ false) same h in
      rw (e, back, closed) (omega (arith, unfollowed-also P b xs h))
  | inr e ↦
      let back : (b == x) ≡ false = ground (arith, e) in
      rw (e, back) (omega (arith, unfollowed-also P b xs h))
]

abbrev pub Distinct : List BbNode → Type 0
Distinct [] = Unit {0}
Distinct (x ∷ xs) = All (λ y. node_eq y x ≡ false) xs × Distinct xs

Distinct-last :
    (xs : List BbNode) (n : BbNode)
    → Distinct xs
    → All (λ x. node_eq n x ≡ false) xs
    → Distinct (xs ++ n ∷ [])
Distinct-last [] n d w = (tt, tt)
Distinct-last (x ∷ xs) n d w =
    (All-both (λ y. node_eq y x ≡ false) xs (n ∷ []) d.0 (w.0, tt), Distinct-last xs n d.1 w.1)

-- A node that waits: all edges to it have been followed, it was not popped, and it is of the graph.
abbrev pub Ready : (BbNode → Type 0) → (BbNode → Bool) → (BbNode → ℕ) → BbNode → Type 0
Ready N P in_cnt n = (in_cnt n ≡ 0) × (P n ≡ false) × N n

-- `cs` are the edges of the last block that are still to be followed.
pub record Walking (N : BbNode → Type 0) (d : BbDag) (P : BbNode → Bool) (cs : List BbNode)
    (w : Walk) : Type 0 where
  pub counts : (n : BbNode) → w.in_cnt n ≡ unfollowed P (d.pred n) + node_occurs n cs
  pub finished : (n : BbNode) → P n ≡ true → w.in_cnt n ≡ 0
  pub ready : All (Ready N P w.in_cnt) w.queue
  pub distinct : Distinct w.queue

at_least_one :
    (k a o : ℕ) (t : Bool)
    → t ≡ true
    → k ≡ a + ((if t then 1 else 0) + o)
    → suc (dec_in_count k) ≡ k
at_least_one zero a o t e h = absurd (let bad : ⊥ = ground (arith, e, h) in bad)
at_least_one (suc k) a o t e h = refl

pub other_node :
    (w : Walk) (c x : BbNode)
    → suc (dec_in_count (w.in_cnt c)) ≡ w.in_cnt c
    → w.in_cnt x ≡ 0
    → node_eq x c ≡ false
other_node w c x some_left z = elim (Bool-cases (node_eq x c)) [
  | inl e ↦
      let same = subst (λ k. w.in_cnt k ≡ 0) (node_eq_same x c e) z in
      let bad : ⊥ = omega (arith, some_left, same) in absurd bad
  | inr e ↦ e
]

-- An edge to a node is left, so that the node waits for it.
module _ {N : BbNode → Type 0} {d : BbDag} {P : BbNode → Bool} {c : BbNode} {cs : List BbNode}
    {w : Walk} (v : Walking N d P (c ∷ cs) w) where
  pub edge_left : suc (dec_in_count (w.in_cnt c)) ≡ w.in_cnt c
  edge_left =
      at_least_one (w.in_cnt c) (unfollowed P (d.pred c)) (node_occurs c cs) (node_eq c c)
        (node_eq_self c) (v.counts c)

  pub edge_unpopped : P c ≡ false
  edge_unpopped = elim (Bool-cases (P c)) [
    | inl e ↦ let bad : ⊥ = omega (arith, edge_left, v.finished c e) in absurd bad
    | inr e ↦ e
  ]

pub relax-Walking :
    (N : BbNode → Type 0) (d : BbDag) (P : BbNode → Bool) (b : ℕ) (c : BbNode) (cs : List BbNode)
    (w : Walk)
    → N c
    → Walking N d P (c ∷ cs) w
    → Walking N d P cs (relax b c w)
relax-Walking N d P b c cs w inside v =
    let some_left = edge_left v in
    let self = node_eq_self c in
    let after : (x : BbNode) → Ready N P w.in_cnt x → Ready N P (relax b c w).in_cnt x =
      (λ x r. (rw (other_node w c x some_left r.0) (r.0), r.1, r.2)) in
    let kept = All-weaken (Ready N P w.in_cnt) w.queue after v.ready in
    let unpopped = edge_unpopped v in
    record {
      counts = λ n. elim (Bool-cases (node_eq n c)) [
        | inl e ↦
            let same = node_eq_same n c e in
            let count : w.in_cnt c ≡ unfollowed P (d.pred n) + suc (node_occurs n cs) =
              subst (λ k. w.in_cnt k ≡ unfollowed P (d.pred n) + suc (node_occurs n cs)) same
                (v.counts n ∙ rw e (omega arith)) in
            rw e (omega (arith, some_left, count))
        | inr e ↦ rw e (v.counts n ∙ rw e (omega arith))
      ];
      finished = λ n p. rw (other_node w c n some_left (v.finished n p)) (v.finished n p);
      ready = elim (Bool-cases (dec_in_count (w.in_cnt c) == 0)) [
        | inl e ↦
            let none_left : dec_in_count (w.in_cnt c) ≡ 0 = ground (arith, e) in
            rw e (
              All-both (Ready N P (relax b c w).in_cnt) w.queue (c ∷ []) kept
                ((rw self none_left, unpopped, inside), tt))
        | inr e ↦ rw e kept
      ];
      distinct = elim (Bool-cases (dec_in_count (w.in_cnt c) == 0)) [
        | inl e ↦ rw e (
            Distinct-last w.queue c v.distinct (
              All-weaken (Ready N P w.in_cnt) w.queue
                (λ x r. sym_node x c (other_node w c x some_left r.0)) v.ready))
        | inr e ↦ rw e v.distinct
      ];
    }
  where
    sym_node : (x y : BbNode) → node_eq x y ≡ false → node_eq y x ≡ false
    sym_node exit exit e = e
    sym_node exit (block _) e = refl
    sym_node (block _) exit e = refl
    sym_node (block a) (block b) e = ground (arith, e)

pub relax_all-Walking :
    (N : BbNode → Type 0) (d : BbDag) (P : BbNode → Bool) (b : ℕ) (cs : List BbNode) (w : Walk)
    → All N cs
    → Walking N d P cs w
    → Walking N d P [] (relax_all b cs w)
unfolding relax_all
relax_all-Walking N d P b [] w inside v = v
relax_all-Walking N d P b (c ∷ cs) w inside v =
    relax_all-Walking N d P b cs (relax b c w) inside.1 (relax-Walking N d P b c cs w inside.0 v)
