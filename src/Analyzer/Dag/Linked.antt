-- ===== src/Analyzer/Dag/Linked.antt =====
-- Every block that the search has painted is the entry, or an edge leads to it; and what the ranks say
-- of the graph that is left.
use perfscope.Base.{
  ℕ, ◌≤◌, ◌<◌, ◌≡◌, refl, ◌⊎◌, inl, inr, true, List, [], ◌∷◌, some, arith, ◌==◌, length,
  length-append, All, All-weaken, Bool-cases,
}
use perfscope.Analyzer.Dag.{
  BbNodeColor, white, gray, black, BbNode, exit, block, node_eq, Cfg, BbDag, paint, add_edge, visit,
  visit_all, leave, init_dag,
}
use perfscope.Analyzer.Dag.Ranks.{Ranked, leave-gray, leave-black, same_block}
use perfscope.Analyzer.Dag.Entered.{enter-Ranked}
use perfscope.Analyzer.Dag.Ends.{start-Ranked}
use perfscope.Analyzer.Dag.Rule.{init_dag_rule}

abbrev pub HasEdgeTo : ℕ → BbDag → ℕ → Type 0
HasEdgeTo entry d u = (u ≡ entry) ⊎ (0 < length (d.pred (block u)))

pub record Linked (entry : ℕ) (d : BbDag) (stack : List ℕ) : Type 0 where
  pub on_stack : All (HasEdgeTo entry d) stack
  pub painted : (u : ℕ) → (d.color u ≡ white) ⊎ HasEdgeTo entry d u

-- Edges are only added.
abbrev More : BbDag → BbDag → Type 0
More d d' = (n : BbNode) → length (d.pred n) ≤ length (d'.pred n)

HasEdgeTo-More :
    (entry : ℕ) (d d' : BbDag) (u : ℕ) → More d d' → HasEdgeTo entry d u → HasEdgeTo entry d' u
HasEdgeTo-More entry d d' u more (inl e) = inl e
HasEdgeTo-More entry d d' u more (inr h) = inr (omega (arith, more (block u)))

add_edge-More : (from : ℕ) (to : BbNode) (d : BbDag) → More d (add_edge from to d)
add_edge-More from to d n = elim (Bool-cases (node_eq n to)) [
  | inl e ↦ rw e (omega (arith, length-append (d.pred n) (from ∷ [])))
  | inr e ↦ rw e (omega arith)
]

Linked-edge :
    (entry from : ℕ) (to : BbNode) (d : BbDag) (stack : List ℕ)
    → Linked entry d stack
    → Linked entry (add_edge from to d) stack
Linked-edge entry from to d stack w =
    let d' = add_edge from to d in
    let more = add_edge-More from to d in
    record {
      on_stack =
          All-weaken (HasEdgeTo entry d) stack (λ u h. HasEdgeTo-More entry d d' u more h)
            w.on_stack;
      painted = λ u. elim (w.painted u) [
        | inl e ↦ inl e
        | inr h ↦ inr (HasEdgeTo-More entry d d' u more h)
      ];
    }

visit-Linked :
    (entry : ℕ) (color : BbNodeColor) (n c : ℕ) (d : BbDag) (stack : List ℕ)
    → Linked entry d stack
    → let r = visit color n c d stack in Linked entry r.0 r.1
visit-Linked entry white n c d stack w =
    let v = Linked-edge entry n (block c) d stack w in
    let self : (c == c) ≡ true = ground arith in
    record {
      on_stack =
          (inr (rw self (omega (arith, length-append (d.pred (block c)) (n ∷ [])))), v.on_stack);
      painted = v.painted;
    }
visit-Linked entry gray n c d stack w = Linked-edge entry n exit d stack w
visit-Linked entry black n c d stack w = Linked-edge entry n (block c) d stack w

visit_all-Linked :
    (entry n : ℕ) (cs : List ℕ) (d : BbDag) (stack : List ℕ)
    → Linked entry d stack
    → let r = visit_all n cs d stack in Linked entry r.0 r.1
unfolding visit_all
visit_all-Linked entry n [] d stack w = w
visit_all-Linked entry n (c ∷ cs) d stack w =
    let r = visit (d.color c) n c d stack in
    visit_all-Linked entry n cs r.0 r.1 (visit-Linked entry (d.color c) n c d stack w)

paint-Linked :
    (entry n : ℕ) (c : BbNodeColor) (d : BbDag) (stack : List ℕ)
    → Linked entry d (n ∷ stack)
    → Linked entry (paint n c d) (n ∷ stack)
paint-Linked entry n c d stack w = record {
  on_stack = w.on_stack;
  painted = λ u. elim (Bool-cases (u == n)) [
    | inl e ↦ inr (rw (same_block u n e) w.on_stack.0)
    | inr e ↦ rw e (w.painted u)
  ];
}

Linked-below :
    (entry : ℕ) (d : BbDag) (n : ℕ) (stack : List ℕ)
    → Linked entry d (n ∷ stack)
    → Linked entry d stack
Linked-below entry d n stack w = record { on_stack = w.on_stack.1; painted = w.painted }

leave-Linked :
    (f : Cfg) (entry n : ℕ) (d : BbDag) (stack : List ℕ)
    → Linked entry d (n ∷ stack)
    → Linked entry (leave f n d) stack
leave-Linked f entry n d stack w =
    let v = Linked-below entry (paint n black d) n stack (paint-Linked entry n black d stack w) in
    elim (Bool-cases (f.is_final n)) [
      | inl e ↦ rw e (Linked-edge entry n exit (paint n black d) stack v)
      | inr e ↦ rw e v
    ]

pub init_dag-Linked : (f : Cfg) (d : BbDag) → init_dag f ≡ some d → Linked f.entry d []
init_dag-Linked f d run =
    init_dag_rule f (Linked f.entry)
      (record {
        enter = λ d' n stack e w.
            visit_all-Linked f.entry n (f.successors n) (paint n gray d') (n ∷ stack)
              (paint-Linked f.entry n gray d' stack w);
        gray_leaves = λ d' n stack e w. leave-Linked f f.entry n d' stack w;
        black_leaves = λ d' n stack e w. leave-Linked f f.entry n d' stack w;
      })
      d (record { on_stack = (inl refl, tt); painted = λ u. inl refl }) run

pub init_dag-Ranked : (f : Cfg) (d : BbDag) → init_dag f ≡ some d → Ranked d []
init_dag-Ranked f d run =
    init_dag_rule f Ranked
      (record {
        enter = λ d' n stack e w. enter-Ranked f n d' stack e w;
        gray_leaves = λ d' n stack e w. leave-gray f n d' stack e w;
        black_leaves = λ d' n stack e w. leave-black f n d' stack e w;
      })
      d (start-Ranked f.entry) run
