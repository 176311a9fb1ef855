-- ===== src/Analyzer/Longest/Routes.antt =====
-- Where a cost comes from: a route from the entry. What getFunctionCost has found on the way.
use perfscope.Base.{
  ℕ, ◌+◌, ◌≤◌, ◌<◌, ◌≡◌, refl, sym, ap, ◌⊎◌, inl, inr, Bool, true, false, ◌&&◌, List, [], ◌∷◌,
  arith, ltb, ◌==◌, if◌then◌else◌, All, All-both, In, Bool-cases, subst,
}
use perfscope.Analyzer.Dag.{BbNode, exit, block, node_eq, BbDag}
use perfscope.Analyzer.Longest.{Walk, dec_in_count, relax}
use perfscope.Analyzer.Longest.Counting.{node_eq_same, node_eq_self}

-- The routes from the entry to a node, with the cost of the blocks in front of the node.
pub data Route (d : BbDag) (costs : ℕ → ℕ) (entry : ℕ) : BbNode → ℕ → Type 0 where
  start : Route d costs entry (block entry) 0
  follow :
      {b : ℕ} {n : BbNode} {c k : ℕ}
      → Route d costs entry (block b) c
      → In n (d.succ b)
      → k ≡ c + costs b
      → Route d costs entry n k

module _ (d : BbDag) (costs : ℕ → ℕ) (entry : ℕ) where
  -- `P` are the popped nodes; `cs` are the edges out of `b` that are still to be followed. `arrive` is
  -- the cost of a node before that of its block is added.
  pub record Arrived (P : BbNode → Bool) (b : ℕ) (cs : List BbNode) (w : Walk) : Type 0 where
    pub arrive : BbNode → ℕ
    pub unpopped : (m : BbNode) → P m ≡ false → arrive m ≡ w.cost m
    pub at_exit : arrive exit ≡ w.cost exit
    pub popped : (k : ℕ) → P (block k) ≡ true → w.cost (block k) ≡ arrive (block k) + costs k
    pub routed : (k : ℕ) → P (block k) ≡ true → Route d costs entry (block k) (arrive (block k))
    pub queued : All (λ n. Route d costs entry n (arrive n)) w.queue
    pub attained : (m : BbNode) → (arrive m ≡ 0) ⊎ Route d costs entry m (arrive m)
    pub above :
        (k : ℕ) (m : BbNode)
        → P (block k) ≡ true
        → In m (d.succ k)
        → (w.cost (block k) ≤ arrive m) ⊎ ((k ≡ b) × In m cs)

  -- The child gets the cost of the node.
  abbrev raised : ℕ → BbNode → Walk → BbNode → Bool
  raised b c w n = node_eq n c && ltb (w.cost c) (w.cost (block b))

  raised-child :
      (b : ℕ) (c : BbNode) (w : Walk) (n : BbNode)
      → raised b c w n ≡ true
      → (n ≡ c) × (w.cost c < w.cost (block b))
  raised-child b c w n e = elim (Bool-cases (node_eq n c)) [
    | inl t ↦ (
      node_eq_same n c t,
      let less : ltb (w.cost c) (w.cost (block b)) ≡ true = rw t at e in ground (arith, less),
    )
    | inr t ↦ absurd (cc (rw t at e))
  ]

  not_raised :
      (b : ℕ) (c : BbNode) (w : Walk) → raised b c w c ≡ false → w.cost (block b) ≤ w.cost c
  not_raised b c w e =
      let less : ltb (w.cost c) (w.cost (block b)) ≡ false = rw (node_eq_self c) at e in
      ground (arith, less)

  popped_other : (P : BbNode → Bool) (c m : BbNode) → P c ≡ false → P m ≡ true → node_eq m c ≡ false
  popped_other P c m ahead behind = elim (Bool-cases (node_eq m c)) [
    | inl e ↦ absurd (cc (ahead, behind, node_eq_same m c e))
    | inr e ↦ e
  ]

  module _ (P : BbNode → Bool) (b : ℕ) (c : BbNode) (cs : List BbNode) (w : Walk)
      (behind : P (block b) ≡ true) (ahead : P c ≡ false) (edge : In c (d.succ b))
      (v : Arrived P b (c ∷ cs) w) where
    -- What the node offers to the child.
    through : Route d costs entry c (w.cost (block b))
    through = follow (v.routed b behind) edge (v.popped b behind)

    arrive' : BbNode → ℕ
    arrive' n = if raised b c w n then w.cost (block b) else v.arrive n

    child_arrives : Route d costs entry c (arrive' c)
    unfolding arrive'
    child_arrives = elim (Bool-cases (raised b c w c)) [
      | inl e ↦ rw e through
      | inr e ↦ elim (v.attained c) [
        | inl z ↦
            let less = not_raised b c w e in
            let same : w.cost (block b) ≡ v.arrive c = omega (arith, less, z, v.unpopped c ahead) in
            rw e (subst (Route d costs entry c) same through)
        | inr r ↦ rw e r
      ]
    ]

    relax_above :
        (k : ℕ) (m : BbNode)
        → P (block k) ≡ true
        → In m (d.succ k)
        → ((relax b c w).cost (block k) ≤ arrive' m) ⊎ ((k ≡ b) × In m cs)
    unfolding arrive'
    relax_above k m p i =
        let other = popped_other P c (block k) ahead p in
        let before : (relax b c w).cost (block k) ≡ w.cost (block k) = rw other refl in
        elim (Bool-cases (raised b c w m)) [
          | inl e ↦
              let (same, less) = raised-child b c w m e in
              let arrived = ap v.arrive same in
              elim (v.above k m p i) [
                | inl h ↦ inl (rw e (omega (arith, before, h, arrived, less, v.unpopped c ahead)))
                | inr (s, _) ↦
                    let cost : w.cost (block k) ≡ w.cost (block b) = ap (λ x. w.cost (block x)) s in
                    inl (rw e (omega (arith, before, cost)))
              ]
          | inr e ↦ elim (v.above k m p i) [
            | inl h ↦ inl (rw e (omega (arith, before, h)))
            | inr (s, inr j) ↦ inr (s, j)
            | inr (s, inl t) ↦
                let cost : w.cost (block k) ≡ w.cost (block b) = ap (λ x. w.cost (block x)) s in
                let less = not_raised b c w (subst (λ x. raised b c w x ≡ false) t e) in
                let arrived = ap v.arrive t in
                inl (rw e (omega (arith, before, cost, less, arrived, v.unpopped c ahead)))
          ]
        ]

    pub relax-Arrived :
        ((x : BbNode) → In x w.queue → node_eq x c ≡ false) → Arrived P b cs (relax b c w)
    unfolding arrive'
    relax-Arrived others =
        let kept = queue_kept w.queue others v.queued in
        record {
          arrive = arrive';
          unpopped =
              λ m p. ap (λ x. if raised b c w m then w.cost (block b) else x) (v.unpopped m p);
          at_exit = ap (λ x. if raised b c w exit then w.cost (block b) else x) v.at_exit;
          popped = λ k p. let other = popped_other P c (block k) ahead p in rw other (v.popped k p);
          routed = λ k p. let other = popped_other P c (block k) ahead p in rw other (v.routed k p);
          queued = elim (Bool-cases (dec_in_count (w.in_cnt c) == 0)) [
            | inl e ↦ rw e (
                All-both (λ n. Route d costs entry n (arrive' n)) w.queue (c ∷ []) kept
                  (child_arrives, tt))
            | inr e ↦ rw e kept
          ];
          attained = λ m. elim (Bool-cases (raised b c w m)) [
            | inl e ↦ inr (
                rw e (
                  subst (λ n. Route d costs entry n (w.cost (block b)))
                    (sym (raised-child b c w m e).0) through))
            | inr e ↦ rw e (v.attained m)
          ];
          above = relax_above;
        }
      where
        queue_kept :
            (xs : List BbNode)
            → ((x : BbNode) → In x xs → node_eq x c ≡ false)
            → All (λ n. Route d costs entry n (v.arrive n)) xs
            → All (λ n. Route d costs entry n (arrive' n)) xs
        queue_kept [] f all = tt
        queue_kept (x ∷ xs) f all =
            (rw (f x (inl refl)) all.0, queue_kept xs (λ y i. f y (inr i)) all.1)
