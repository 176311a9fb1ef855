-- ===== src/Analyzer/Longest/Ends.antt =====
-- The walk of getFunctionCost pops every node once at most, and so ends.
use perfscope.Base.{
  ℕ, zero, suc, ◌+◌, ◌≤◌, ◌<◌, ◌≡◌, refl, sym, ap, ◌∙◌, inl, inr, Bool, false, List, [], ◌∷◌,
  Option, some, arith, ◌==◌, if◌then◌else◌, length, All, All-In, In, Bool-cases, subst, u32_mod,
}
use perfscope.Analyzer.Dag.{BbNode, exit, block, node_eq, Cfg, BbDag, total_edges}
use perfscope.Analyzer.Dag.Ends.{IsClosed}
use perfscope.Analyzer.Dag.Counts.{occurs, node_occurs, Follows, Counted}
use perfscope.Analyzer.Longest.{Walk, settle_cost, pop_node, walk_loop, start_walk}
use perfscope.Analyzer.Longest.Counting.{
  node_eq_same, unfollowed, also, unfollowed-also, Distinct, Ready, Walking, relax_all-Walking,
}

-- The exit, or a block of the function.
abbrev pub OfGraph : Cfg → BbNode → Type 0
OfGraph f exit = Unit {0}
OfGraph f (block b) = In b (f.entry ∷ f.others)

Ready-also :
    (N : BbNode → Type 0) (P : BbNode → Bool) (in_cnt : BbNode → ℕ) (n : BbNode) (xs : List BbNode)
    → All (λ y. node_eq y n ≡ false) xs
    → All (Ready N P in_cnt) xs
    → All (Ready N (also P n) in_cnt) xs
Ready-also N P in_cnt n [] v w = tt
Ready-also N P in_cnt n (x ∷ xs) v w =
    ((w.0.0, rw (v.0) (w.0.1), w.0.2), Ready-also N P in_cnt n xs v.1 w.1)

-- The front of the queue is popped, and its edges are still to be followed.
Walking-pop :
    (N : BbNode → Type 0) (d : BbDag) (P : BbNode → Bool) (w : Walk) (n : BbNode)
    (queue cs : List BbNode) (cost : BbNode → ℕ)
    → w.queue ≡ n ∷ queue
    → Walking N d P [] w
    → ((m : BbNode) → w.in_cnt m ≡ unfollowed (also P n) (d.pred m) + node_occurs m cs)
    → Walking N d (also P n) cs (record { cost = cost; in_cnt = w.in_cnt; queue = queue })
Walking-pop N d P w n queue cs cost e v counts =
    let ready = subst (All (Ready N P w.in_cnt)) e v.ready in
    let distinct = subst Distinct e v.distinct in
    record {
      counts = counts;
      finished = λ m p. elim (Bool-cases (node_eq m n)) [
        | inl t ↦ subst (λ k. w.in_cnt k ≡ 0) (sym (node_eq_same m n t)) (ready.0.0)
        | inr t ↦ v.finished m (rw t at p)
      ];
      ready = Ready-also N P w.in_cnt n queue distinct.0 ready.1;
      distinct = distinct.1;
    }

unfollowed-exit : (P : BbNode → Bool) (bs : List ℕ) → unfollowed (also P exit) bs ≡ unfollowed P bs
unfollowed-exit P [] = refl
unfollowed-exit P (b ∷ bs) = omega (arith, unfollowed-exit P bs)

pub occurs-In : (b : ℕ) (bs : List ℕ) → In b bs → 0 < occurs b bs
occurs-In b [] i = elim i [ ]
occurs-In b (x ∷ xs) (inl e) = ground (arith, e)
occurs-In b (x ∷ xs) (inr i) = omega (arith, occurs-In b xs i)

-- The nodes that were not popped.
abbrev pub unpopped : Cfg → (BbNode → Bool) → ℕ
unpopped f P = (if P exit then 0 else 1) + unfollowed P (f.entry ∷ f.others)

module _ (f : Cfg) (costs : ℕ → ℕ) (d : BbDag) where
  member :
      (c : ℕ) (cs : List ℕ)
      → In c cs
      → All (λ k. In k (f.entry ∷ f.others)) cs
      → In c (f.entry ∷ f.others)
  member c cs i all = All-In (λ k. In k (f.entry ∷ f.others)) c cs all i

  inside :
      (b : ℕ) (ns : List BbNode)
      → All (Follows f b) ns
      → All (λ k. In k (f.entry ∷ f.others)) (f.successors b)
      → All (OfGraph f) ns
  inside b [] a c = tt
  inside b (exit ∷ ns) a c = (tt, inside b ns a.1 c)
  inside b (block k ∷ ns) a c = (member k (f.successors b) a.0 c, inside b ns a.1 c)

  -- A block has been popped, and its edges are all still to be followed.
  pub out_of_block :
      (P : BbNode → Bool) (w : Walk) (b : ℕ) (queue : List BbNode)
      → Counted f d
      → IsClosed f
      → w.queue ≡ block b ∷ queue
      → Walking (OfGraph f) d P [] w
      → All (OfGraph f) (d.succ b)
        × Walking
            (OfGraph f)
            d
            (also P (block b))
            (d.succ b)
            (settle_cost b (costs b) (record w { queue = queue }))
  out_of_block P w b queue counted closed e v =
      let ready = subst (All (Ready (OfGraph f) P w.in_cnt)) e v.ready in
      let popped = settle_cost b (costs b) (record w { queue = queue }) in
      (
        inside b (d.succ b) (counted.along b) (closed b (ready.0.2)),
        Walking-pop (OfGraph f) d P w (block b) queue (d.succ b) popped.cost e v (λ m.
            omega
              (arith, v.counts m, unfollowed-also P b (d.pred m) (ready.0.1), counted.matched b m)),
      )

  -- A pop leaves fewer nodes, and the counts right.
  pop_node-Walking :
      (P : BbNode → Bool) (w : Walk) (n : BbNode) (queue : List BbNode)
      → Counted f d
      → IsClosed f
      → w.queue ≡ n ∷ queue
      → Walking (OfGraph f) d P [] w
      → (unpopped f (also P n) < unpopped f P)
        × Walking (OfGraph f) d (also P n) [] (pop_node costs d n (record w { queue = queue }))
  unfolding pop_node
  pop_node-Walking P w exit queue counted closed e v =
      let ready = subst (All (Ready (OfGraph f) P w.in_cnt)) e v.ready in
      (
        rw (ready.0.1) (omega (arith, unfollowed-exit P (f.entry ∷ f.others))),
        Walking-pop (OfGraph f) d P w exit queue [] w.cost e v
            (λ m. omega (arith, v.counts m, unfollowed-exit P (d.pred m))),
      )
  pop_node-Walking P w (block b) queue counted closed e v =
      let ready = subst (All (Ready (OfGraph f) P w.in_cnt)) e v.ready in
      let blocks = f.entry ∷ f.others in
      let popped = settle_cost b (costs b) (record w { queue = queue }) in
      let (of_graph, v') = out_of_block P w b queue counted closed e v in
      (
        omega (arith, unfollowed-also P b blocks (ready.0.1), occurs-In b blocks (ready.0.2)),
        relax_all-Walking (OfGraph f) d (also P (block b)) b (d.succ b) popped of_graph v',
      )

  -- What every pop keeps holds at the end, when the queue is empty.
  module _ (Inv : (BbNode → Bool) → Walk → Type 0) where
    abbrev Ended : Option Walk → Type 0
    Ended run =
        (w : Walk) × (P : BbNode → Bool) × (run ≡ some w)
        × (w.queue ≡ [])
        × Walking (OfGraph f) d P [] w
        × Inv P w

    pub walk_rule :
        Counted f d
        → IsClosed f
        → ((P : BbNode → Bool) (w : Walk) (n : BbNode) (queue : List BbNode)
            → w.queue ≡ n ∷ queue
            → Walking (OfGraph f) d P [] w
            → Inv P w
            → Inv (also P n) (pop_node costs d n (record w { queue = queue })))
        → (fuel : ℕ) (P : BbNode → Bool) (w : Walk) → Walking (OfGraph f) d P [] w
        → Inv P w
        → unpopped f P < fuel
        → Ended (walk_loop fuel costs d w)
    unfolding walk_loop
    walk_rule counted closed keep zero P w v i m = absurd (omega arith)
    walk_rule counted closed keep (suc fuel) P w v i m =
        go w.queue refl (walk_rule counted closed keep fuel)
      where
        go :
            (queue : List BbNode)
            → w.queue ≡ queue
            → ((P' : BbNode → Bool) (w' : Walk)
                → Walking (OfGraph f) d P' [] w'
                → Inv P' w'
                → unpopped f P' < fuel
                → Ended (walk_loop fuel costs d w'))
            → Ended (walk_loop (suc fuel) costs d w)
        go [] e again =
            (w, P, rw (walk_loop, e) (ap (λ q. some (record w { queue = q })) e), e, v, i)
        go (n ∷ queue) e again =
            let (less, v') = pop_node-Walking P w n queue counted closed e v in
            let (w', P', run, empty, walking, inv) =
              again (also P n) (pop_node costs d n (record w { queue = queue })) v'
                (keep P w n queue e v i) (omega (arith, less, m)) in
            (w', P', rw (walk_loop, e) run, empty, walking, inv)

-- Nothing leads back to the entry, as LLVM demands of a function.
abbrev pub IsEntered : Cfg → Type 0
IsEntered f = (b : ℕ) → In f.entry (f.successors b) → ⊥

not_followed :
    (f : Cfg) (b : ℕ) (ns : List BbNode)
    → IsEntered f
    → All (Follows f b) ns
    → node_occurs (block f.entry) ns ≡ 0
not_followed f b [] entered w = refl
not_followed f b (exit ∷ ns) entered w = omega (arith, not_followed f b ns entered w.1)
not_followed f b (block c ∷ ns) entered w = elim (Bool-cases (f.entry == c)) [
  | inl e ↦
      let same : c ≡ f.entry = ground (arith, e) in
      absurd (entered b (subst (λ k. In k (f.successors b)) same w.0))
  | inr e ↦ rw e (omega (arith, not_followed f b ns entered w.1))
]

none_occurs : (xs : List ℕ) → ((b : ℕ) → occurs b xs ≡ 0) → length xs ≡ 0
none_occurs [] w = refl
none_occurs (x ∷ xs) w = let bad : ⊥ = ground (arith, w x) in absurd bad

pub unfollowed-all : (xs : List ℕ) → unfollowed (λ n. false) xs ≡ length xs
unfollowed-all [] = refl
unfollowed-all (x ∷ xs) = omega (arith, unfollowed-all xs)

-- No node has so many edges into it that its count wraps.
abbrev pub FitsCounts : BbDag → Type 0
FitsCounts d = (n : BbNode) → length (d.pred n) < u32_mod

pub start_walk-Walking :
    (f : Cfg) (d : BbDag)
    → Counted f d
    → IsEntered f
    → FitsCounts d
    → Walking (OfGraph f) d (λ n. false) [] (start_walk f d)
start_walk-Walking f d counted entered fits =
    let no_pred = none_occurs (d.pred (block f.entry)) (λ b.
      counted.matched b (block f.entry) ∙ not_followed f b (d.succ b) entered (counted.along b)) in
    record {
      counts = λ n. omega (arith, counted.counted n, fits n, unfollowed-all (d.pred n));
      finished = λ n p. absurd (cc p);
      ready = ((omega (arith, counted.counted (block f.entry), no_pred), refl, inl refl), tt);
      distinct = (tt, tt);
    }

pub length-total_edges : (f : Cfg) (bs : List ℕ) → length bs ≤ total_edges f bs
unfolding total_edges
length-total_edges f [] = omega arith
length-total_edges f (b ∷ bs) = omega (arith, length-total_edges f bs)
