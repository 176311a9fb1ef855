-- ===== src/Analyzer/Longest/Complete.antt =====
-- A node to which all edges have been followed waits in the queue, or was popped.
use perfscope.Base.{
  ℕ, ◌<◌, ◌≡◌, refl, ◌⊎◌, inl, inr, Bool, true, List, [], ◌∷◌, arith, ◌==◌, length, In, In-left,
  In-right, Bool-cases,
}
use perfscope.Analyzer.Dag.{BbNode, exit, block, node_eq, BbDag}
use perfscope.Analyzer.Longest.{Walk, dec_in_count, relax, relax_all, settle_cost, pop_node}
use perfscope.Analyzer.Longest.Counting.{node_eq_same, node_eq_self, also}

-- The entry, or a node that an edge leads to.
abbrev pub IsFed : ℕ → BbDag → BbNode → Type 0
IsFed entry d n = (n ≡ block entry) ⊎ (0 < length (d.pred n))

abbrev pub Complete : ℕ → BbDag → (BbNode → Bool) → Walk → Type 0
Complete entry d P w = (n : BbNode) → w.in_cnt n ≡ 0 → IsFed entry d n → (P n ≡ true) ⊎ In n w.queue

Complete-popped :
    (entry : ℕ) (d : BbDag) (P : BbNode → Bool) (w : Walk) (n : BbNode) (queue : List BbNode)
    (cost : BbNode → ℕ)
    → w.queue ≡ n ∷ queue
    → Complete entry d P w
    → Complete entry d (also P n) (record { cost = cost; in_cnt = w.in_cnt; queue = queue })
Complete-popped entry d P w n queue cost e v m z fed = elim (Bool-cases (node_eq m n)) [
  | inl t ↦ inl (rw t refl)
  | inr t ↦ elim (v m z fed) [
    | inl p ↦ inl (rw t p)
    | inr i ↦
        let j : In m (n ∷ queue) = rw e at i in
        elim j [ inl s ↦ absurd (cc (t, s, node_eq_self n)) | inr k ↦ inr k ]
  ]
]

Complete-relax :
    (entry : ℕ) (d : BbDag) (P : BbNode → Bool) (b : ℕ) (c : BbNode) (w : Walk)
    → Complete entry d P w
    → Complete entry d P (relax b c w)
Complete-relax entry d P b c w v n z fed = elim (Bool-cases (node_eq n c)) [
  | inl e ↦
      let none_left : dec_in_count (w.in_cnt c) ≡ 0 = rw e at z in
      let empty : (dec_in_count (w.in_cnt c) == 0) ≡ true = ground (arith, none_left) in
      inr (rw empty (In-right n w.queue (c ∷ []) (inl (node_eq_same n c e))))
  | inr e ↦ elim (v n (rw e at z) fed) [
    | inl p ↦ inl p
    | inr i ↦ elim (Bool-cases (dec_in_count (w.in_cnt c) == 0)) [
      | inl t ↦ inr (rw t (In-left n w.queue (c ∷ []) i))
      | inr t ↦ inr (rw t i)
    ]
  ]
]

Complete-relax_all :
    (entry : ℕ) (d : BbDag) (P : BbNode → Bool) (b : ℕ) (cs : List BbNode) (w : Walk)
    → Complete entry d P w
    → Complete entry d P (relax_all b cs w)
unfolding relax_all
Complete-relax_all entry d P b [] w v = v
Complete-relax_all entry d P b (c ∷ cs) w v =
    Complete-relax_all entry d P b cs (relax b c w) (Complete-relax entry d P b c w v)

pub Complete-pop :
    (entry : ℕ) (costs : ℕ → ℕ) (d : BbDag) (P : BbNode → Bool) (w : Walk) (n : BbNode)
    (queue : List BbNode)
    → w.queue ≡ n ∷ queue
    → Complete entry d P w
    → Complete entry d (also P n) (pop_node costs d n (record w { queue = queue }))
unfolding pop_node
Complete-pop entry costs d P w exit queue e v = Complete-popped entry d P w exit queue w.cost e v
Complete-pop entry costs d P w (block b) queue e v =
    let popped = settle_cost b (costs b) (record w { queue = queue }) in
    Complete-relax_all entry d (also P (block b)) b (d.succ b) popped
      (Complete-popped entry d P w (block b) queue popped.cost e v)
