-- ===== src/Analyzer/Longest/Dearest.antt =====
-- getFunctionCost gives the cost of the dearest route to the exit.
use perfscope.Base.{
  ℕ, zero, suc, ◌+◌, ◌%◌, ◌≤◌, ◌<◌, ◌≡◌, refl, ap, ◌⊎◌, inl, inr, Bool, true, false, List, [], ◌∷◌,
  some, arith, ◌==◌, if◌then◌else◌, All, All-In, In, Bool-cases, subst, u32_mod,
}
use perfscope.Analyzer.Cost.{Inst, CostModel, get_basic_block_cost}
use perfscope.Analyzer.Dag.{
  BbNodeColor, white, gray, black, BbNode, exit, block, node_eq, Cfg, BbDag, total_edges, init_dag,
}
use perfscope.Analyzer.Dag.Ranks.{Ranked, Lower}
use perfscope.Analyzer.Dag.Ends.{IsClosed, init_dag-IsAcyclic}
use perfscope.Analyzer.Dag.Counts.{node_occurs, Counted, init_dag_keeps_counts}
use perfscope.Analyzer.Dag.Linked.{Linked, init_dag-Linked, init_dag-Ranked}
use perfscope.Analyzer.Longest.{
  Walk, relax, relax_all, settle_cost, pop_node, start_walk, get_function_cost,
}
use perfscope.Analyzer.Longest.Counting.{
  node_eq_same, unfollowed, also, Ready, Walking, edge_left, edge_unpopped, other_node,
  relax-Walking,
}
use perfscope.Analyzer.Longest.Ends.{
  OfGraph, IsEntered, FitsCounts, occurs-In, unfollowed-all, length-total_edges, start_walk-Walking,
  walk_rule, out_of_block,
}
use perfscope.Analyzer.Longest.Complete.{IsFed, Complete, Complete-pop}
use perfscope.Analyzer.Longest.Routes.{Route, start, follow, Arrived, relax-Arrived}

module _ (f : Cfg) (d : BbDag) (costs : ℕ → ℕ) where
  -- No route costs 2^32 or more with the block that it leads to.
  abbrev pub FitsRoutes : Type 0
  FitsRoutes = (b c : ℕ) → Route d costs f.entry (block b) c → c + costs b < u32_mod

  relax_all-Arrived :
      (P : BbNode → Bool) (b : ℕ) (cs : List BbNode) (w : Walk)
      → All (OfGraph f) cs
      → P (block b) ≡ true
      → ((c : BbNode) → In c cs → In c (d.succ b))
      → Walking (OfGraph f) d P cs w
      → Arrived d costs f.entry P b cs w
      → Arrived d costs f.entry P b [] (relax_all b cs w)
  unfolding relax_all
  relax_all-Arrived P b [] w inside behind edges v a = a
  relax_all-Arrived P b (c ∷ cs) w inside behind edges v a =
      relax_all-Arrived P b cs (relax b c w) inside.1 behind (λ x i. edges x (inr i))
        (relax-Walking (OfGraph f) d P b c cs w inside.0 v)
        (relax-Arrived d costs f.entry P b c cs w behind (edge_unpopped v) (edges c (inl refl)) a
          (λ x i.
            other_node w c x (edge_left v)
              (All-In (Ready (OfGraph f) P w.in_cnt) x w.queue v.ready i).0))

  exit-Arrived :
      (P : BbNode → Bool) (b : ℕ) (w : Walk) (queue : List BbNode)
      → w.queue ≡ exit ∷ queue
      → Arrived d costs f.entry P b [] w
      → Arrived d costs f.entry (also P exit) b [] (record w { queue = queue })
  exit-Arrived P b w queue e a =
      let queued = subst (All (λ n. Route d costs f.entry n (a.arrive n))) e a.queued in
      record {
        arrive = a.arrive;
        unpopped = λ m p. elim (Bool-cases (node_eq m exit)) [
          | inl t ↦ absurd (cc (rw t at p))
          | inr t ↦ a.unpopped m (rw t at p)
        ];
        at_exit = a.at_exit;
        popped = a.popped;
        routed = a.routed;
        queued = queued.1;
        attained = a.attained;
        above = a.above;
      }

  block-Arrived :
      (P : BbNode → Bool) (last b : ℕ) (w : Walk) (queue : List BbNode)
      → FitsRoutes
      → P (block b) ≡ false
      → w.queue ≡ block b ∷ queue
      → Arrived d costs f.entry P last [] w
      → Arrived d costs f.entry
          (also P (block b))
          b
          (d.succ b)
          (settle_cost b (costs b) (record w { queue = queue }))
  block-Arrived P last b w queue fits ahead e a =
      let queued = subst (All (λ n. Route d costs f.entry n (a.arrive n))) e a.queued in
      let fit = fits b (a.arrive (block b)) queued.0 in
      record {
        arrive = a.arrive;
        unpopped = λ m p. elim (Bool-cases (node_eq m (block b))) [
          | inl t ↦ absurd (cc (rw t at p))
          | inr t ↦ rw t (a.unpopped m (rw t at p))
        ];
        at_exit = a.at_exit;
        popped = λ k p. elim (Bool-cases (k == b)) [
          | inl t ↦
              let same : b ≡ k = ground (arith, t) in
              subst
                (λ x.
                  (if x == b then (w.cost (block x) + costs b) % u32_mod else w.cost (block x))
                  ≡ a.arrive (block x) + costs x)
                same (settled fit)
          | inr t ↦ rw t (a.popped k (rw t at p))
        ];
        routed = λ k p. elim (Bool-cases (k == b)) [
          | inl t ↦
              let same : b ≡ k = ground (arith, t) in
              subst (λ x. Route d costs f.entry (block x) (a.arrive (block x))) same queued.0
          | inr t ↦ a.routed k (rw t at p)
        ];
        queued = queued.1;
        attained = a.attained;
        above = λ k m p i. elim (Bool-cases (k == b)) [
          | inl t ↦
              let same : k ≡ b = ground (arith, t) in
              inr (same, subst (λ x. In m (d.succ x)) same i)
          | inr t ↦ elim (a.above k m (rw t at p) i) [
            | inl h ↦ inl (rw t h)
            | inr (_, j) ↦ absurd j
          ]
        ];
      }
    where
      settled :
          a.arrive (block b) + costs b < u32_mod
          → (if b == b then (w.cost (block b) + costs b) % u32_mod else w.cost (block b))
            ≡ a.arrive (block b) + costs b
      settled fit =
          let self : (b == b) ≡ true = ground arith in
          rw self (omega (arith, fit, a.unpopped (block b) ahead))

  -- What holds between two pops.
  abbrev Arriving : (BbNode → Bool) → Walk → Type 0
  Arriving P w = Complete f.entry d P w × ((b : ℕ) × Arrived d costs f.entry P b [] w)

  pop-Arriving :
      (P : BbNode → Bool) (w : Walk) (n : BbNode) (queue : List BbNode)
      → Counted f d
      → IsClosed f
      → FitsRoutes
      → w.queue ≡ n ∷ queue
      → Walking (OfGraph f) d P [] w
      → Arriving P w
      → Arriving (also P n) (pop_node costs d n (record w { queue = queue }))
  unfolding pop_node
  pop-Arriving P w exit queue counted closed fits e v (complete, (b, a)) =
      (Complete-pop f.entry costs d P w exit queue e complete, (b, exit-Arrived P b w queue e a))
  pop-Arriving P w (block b) queue counted closed fits e v (complete, (last, a)) =
      let ready = subst (All (Ready (OfGraph f) P w.in_cnt)) e v.ready in
      let popped = settle_cost b (costs b) (record w { queue = queue }) in
      let (inside, v') = out_of_block f costs d P w b queue counted closed e v in
      let self : (b == b) ≡ true = ground arith in
      (
        Complete-pop f.entry costs d P w (block b) queue e complete,
        (
          b,
          relax_all-Arrived (also P (block b)) b (d.succ b) popped inside (rw self refl) (λ c i. i)
              v' (block-Arrived P last b w queue fits (ready.0.1) e a),
        ),
      )

  start-Arriving : Counted f d → FitsCounts d → Arriving (λ n. false) (start_walk f d)
  start-Arriving counted fits = (
    (λ n z fed. elim fed [
      | inl e ↦ inr (inl e)
      | inr h ↦ absurd (omega (arith, counted.counted n, fits n, z, h))
    ]),
    (
      0,
      record {
        arrive = λ n. 0;
        unpopped = λ m p. refl;
        at_exit = refl;
        popped = λ k p. absurd (cc p);
        routed = λ k p. absurd (cc p);
        queued = (start, tt);
        attained = λ m. inl refl;
        above = λ k m p i. absurd (cc p);
      },
    ),
  )

unfollowed-none :
    (P : BbNode → Bool) (bs : List ℕ)
    → ((b : ℕ) → In b bs → P (block b) ≡ true)
    → unfollowed P bs ≡ 0
unfollowed-none P [] h = refl
unfollowed-none P (b ∷ bs) h =
    rw (h b (inl refl)) (omega (arith, unfollowed-none P bs (λ c i. h c (inr i))))

node_occurs-In : (n : BbNode) (ns : List BbNode) → 0 < node_occurs n ns → In n ns
node_occurs-In n [] h = absurd (omega arith)
node_occurs-In n (m ∷ ns) h = elim (Bool-cases (node_eq n m)) [
  | inl e ↦ inl (node_eq_same n m e)
  | inr e ↦
      let rest : 0 < 0 + node_occurs n ns = rw e at h in
      inr (node_occurs-In n ns (omega (arith, rest)))
]

-- The walk is at its end.
module _ (f : Cfg) (d : BbDag) (costs : ℕ → ℕ) (counted : Counted f d) (r : Ranked d [])
    (linked : Linked f.entry d []) (P : BbNode → Bool) (w : Walk) (empty : w.queue ≡ [])
    (v : Walking (OfGraph f) d P [] w) (complete : Complete f.entry d P w) where
  -- A block with an edge out of it is black.
  has_edge-black :
      (u : ℕ) (n : BbNode) (c : BbNodeColor) → d.color u ≡ c → In n (d.succ u) → c ≡ black
  has_edge-black u n white e i = absurd (let j : In n [] = subst (In n) (r.unseen u e) i in j)
  has_edge-black u n gray e i = absurd (r.gray_on u e)
  has_edge-black u n black e i = refl

  -- By the rank, from the entry down.
  black_popped : (gap u : ℕ) → d.color u ≡ black → r.clock ≤ r.rank u + gap → P (block u) ≡ true
  black_popped zero u e h = absurd (omega (arith, h, (r.done u e).0))
  black_popped (suc gap) u e h =
      let fed : IsFed f.entry d (block u) = elim (linked.painted u) [
        | inl t ↦ absurd (cc (e, t))
        | inr (inl t) ↦ inl (ap block t)
        | inr (inr k) ↦ inr k
      ] in
      let followed = unfollowed-none P (d.pred (block u)) (λ s i.
        let edge =
          node_occurs-In (block u) (d.succ s)
            (omega (arith, occurs-In s (d.pred (block u)) i, counted.matched s (block u))) in
        let dark : d.color s ≡ black = has_edge-black s (block u) (d.color s) refl edge in
        let lower =
          All-In (Lower d r.rank (r.rank s)) (block u) (d.succ s) (r.done s dark).1 edge in
        black_popped gap s dark (omega (arith, h, lower.1))) in
      elim (complete (block u) (omega (arith, v.counts (block u), followed)) fed) [
        | inl p ↦ p
        | inr i ↦ absurd (let j : In (block u) [] = subst (In (block u)) empty i in j)
      ]

  no_route_above :
      (b : ℕ) (a : Arrived d costs f.entry P b [] w) {n : BbNode} {c : ℕ}
      → Route d costs f.entry n c
      → c ≤ a.arrive n
  no_route_above b a start = omega arith
  no_route_above b a (follow {b = k} {n} {c} t i e) =
      let dark : d.color k ≡ black = has_edge-black k n (d.color k) refl i in
      let p = black_popped r.clock k dark (omega arith) in
      elim (a.above k n p i) [
        | inl h ↦ omega (arith, no_route_above b a t, e, h, a.popped k p)
        | inr (_, j) ↦ absurd j
      ]

-- The result is the cost of a route to the exit, or 0 where none leads there, and no route costs more.
abbrev pub IsDearest : Cfg → BbDag → (ℕ → ℕ) → ℕ → Type 0
IsDearest f d costs cost =
    ((cost ≡ 0) ⊎ Route d costs f.entry exit cost)
    × ((c : ℕ) → Route d costs f.entry exit c → c ≤ cost)

-- Where the successors of the blocks are blocks of the function, nothing leads back to the entry, and
-- neither a count of the graph nor the cost of a route wraps, getFunctionCost ends, and its result
-- is the greatest cost of a route through the graph from the entry to the exit: that of some
-- route, or 0 where no route leads to the exit, and no route costs more.
pub get_function_cost-IsDearest :
    (m : CostModel) (insts : ℕ → List Inst) (f : Cfg)
    → IsClosed f
    → IsEntered f
    → ((d : BbDag)
        → init_dag f ≡ some d
        → FitsCounts d × FitsRoutes f d (λ b. get_basic_block_cost m (some (insts b))))
    → (d : BbDag) × (cost : ℕ) × (init_dag f ≡ some d)
      × (get_function_cost m insts (some f) ≡ some cost)
      × IsDearest f d (λ b. get_basic_block_cost m (some (insts b))) cost
unfolding get_function_cost
get_function_cost-IsDearest m insts f closed entered fits =
    let costs = λ (b : ℕ). get_basic_block_cost m (some (insts b)) in
    let blocks = f.entry ∷ f.others in
    let (d, built, _) = init_dag-IsAcyclic f closed in
    let counted = init_dag_keeps_counts f d built in
    let (fit_counts, fit_routes) = fits d built in
    let (w, P, run, empty, v, inv) =
      walk_rule f costs d (Arriving f d costs) counted closed
        (λ P w n queue e v i. pop-Arriving f d costs P w n queue counted closed fit_routes e v i)
        (total_edges f blocks + 3) (λ n. false) (start_walk f d)
        (start_walk-Walking f d counted entered fit_counts)
        (start-Arriving f d costs counted fit_counts)
        (omega (arith, unfollowed-all blocks, length-total_edges f blocks)) in
    let (complete, (b, a)) = inv in
    let upper = λ (c : ℕ) (t : Route d costs f.entry exit c).
      no_route_above f d costs counted (init_dag-Ranked f d built) (init_dag-Linked f d built) P w
        empty v complete b a t in
    (
      d,
      w.cost exit,
      built,
      rw (get_function_cost, built, run) refl,
      subst (IsDearest f d costs) a.at_exit (a.attained exit, upper),
    )
