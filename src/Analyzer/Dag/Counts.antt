-- ===== src/Analyzer/Dag/Counts.antt =====
-- The three views that the graph has of its edges agree, and the edges are those of the function.
use perfscope.Base.{
  ℕ, suc, ◌+◌, ◌%◌, ◌≡◌, refl, sym, ap, ◌∙◌, inl, inr, true, false, List, [], ◌∷◌, ◌++◌, some,
  arith, ◌==◌, if◌then◌else◌, length, length-append, All, All-both, In, Bool-cases, subst, inc,
  u32_mod,
}
use perfscope.Analyzer.Dag.{
  BbNodeColor, white, gray, black, BbNode, exit, block, node_eq, Cfg, BbDag, paint, add_edge, visit,
  visit_all, leave, init_dag,
}
use perfscope.Analyzer.Dag.Rule.{init_dag_rule}
use perfscope.Analyzer.Dag.Ends.{IsClosed, init_dag-IsAcyclic}

abbrev pub occurs : ℕ → List ℕ → ℕ
occurs b [] = 0
occurs b (x ∷ xs) = (if b == x then 1 else 0) + occurs b xs

abbrev pub node_occurs : BbNode → List BbNode → ℕ
node_occurs n [] = 0
node_occurs n (x ∷ xs) = (if node_eq n x then 1 else 0) + node_occurs n xs

occurs-append : (b : ℕ) (xs ys : List ℕ) → occurs b (xs ++ ys) ≡ occurs b xs + occurs b ys
occurs-append b [] ys = omega arith
occurs-append b (x ∷ xs) ys = omega (arith, occurs-append b xs ys)

node_occurs-append :
    (n : BbNode) (xs ys : List BbNode)
    → node_occurs n (xs ++ ys) ≡ node_occurs n xs + node_occurs n ys
node_occurs-append n [] ys = omega arith
node_occurs-append n (x ∷ xs) ys = omega (arith, node_occurs-append n xs ys)

occurs-last :
    (b x : ℕ) (xs : List ℕ)
    → ((b == x) ≡ true → occurs b (xs ++ x ∷ []) ≡ suc (occurs b xs))
      × ((b == x) ≡ false → occurs b (xs ++ x ∷ []) ≡ occurs b xs)
occurs-last b x xs = (
  (λ e. ground (arith, e, occurs-append b xs (x ∷ []))),
  (λ e. ground (arith, e, occurs-append b xs (x ∷ []))),
)

node_occurs-last :
    (n x : BbNode) (xs : List BbNode)
    → (node_eq n x ≡ true → node_occurs n (xs ++ x ∷ []) ≡ suc (node_occurs n xs))
      × (node_eq n x ≡ false → node_occurs n (xs ++ x ∷ []) ≡ node_occurs n xs)
node_occurs-last n x xs = (
  (λ e. ground (arith, e, node_occurs-append n xs (x ∷ []))),
  (λ e. ground (arith, e, node_occurs-append n xs (x ∷ []))),
)

-- An edge leads to the exit or to a successor.
abbrev pub Follows : Cfg → ℕ → BbNode → Type 0
Follows f b exit = Unit {0}
Follows f b (block c) = In c (f.successors b)

pub record Counted (f : Cfg) (d : BbDag) : Type 0 where
  pub counted : (n : BbNode) → d.in_cnt n ≡ length (d.pred n) % u32_mod
  pub matched : (b : ℕ) (n : BbNode) → occurs b (d.pred n) ≡ node_occurs n (d.succ b)
  pub along : (b : ℕ) → All (Follows f b) (d.succ b)

counted-inc :
    (n : ℕ) (xs : List ℕ) (from : ℕ)
    → n ≡ length xs % u32_mod
    → inc n ≡ length (xs ++ from ∷ []) % u32_mod
counted-inc n xs from e = omega (arith, e, length-append xs (from ∷ []))

add_edge-Counted :
    (f : Cfg) (from : ℕ) (to : BbNode) (d : BbDag)
    → Follows f from to
    → Counted f d
    → Counted f (add_edge from to d)
add_edge-Counted f from to d w c = record {
  counted = λ n. elim (Bool-cases (node_eq n to)) [
    | inl e ↦ rw e (counted-inc (d.in_cnt n) (d.pred n) from (c.counted n))
    | inr e ↦ rw e (c.counted n)
  ];
  matched = λ b n.
      let more = occurs-last b from (d.pred n) in
      let more' = node_occurs-last n to (d.succ b) in
      elim (Bool-cases (node_eq n to)) [
        | inl e ↦ elim (Bool-cases (b == from)) [
          | inl t ↦ rw (e, t) (more.0 t ∙ ap suc (c.matched b n) ∙ sym (more'.0 e))
          | inr t ↦ rw (e, t) (more.1 t ∙ c.matched b n)
        ]
        | inr e ↦ elim (Bool-cases (b == from)) [
          | inl t ↦ rw (e, t) (c.matched b n ∙ sym (more'.1 e))
          | inr t ↦ rw (e, t) (c.matched b n)
        ]
      ];
  along = λ b. elim (Bool-cases (b == from)) [
    | inl t ↦
        let same : from ≡ b = ground (arith, t) in
        rw t (
          All-both (Follows f b) (d.succ b) (to ∷ []) (c.along b)
            (subst (λ k. Follows f k to) same w, tt))
    | inr t ↦ rw t (c.along b)
  ];
}

paint-Counted :
    (f : Cfg) (n : ℕ) (c : BbNodeColor) (d : BbDag) → Counted f d → Counted f (paint n c d)
paint-Counted f n c d w = record { counted = w.counted; matched = w.matched; along = w.along }

visit-Counted :
    (f : Cfg) (color : BbNodeColor) (n c : ℕ) (d : BbDag) (stack : List ℕ)
    → In c (f.successors n)
    → Counted f d
    → Counted f (visit color n c d stack).0
visit-Counted f white n c d stack i w = add_edge-Counted f n (block c) d i w
visit-Counted f gray n c d stack i w = add_edge-Counted f n exit d tt w
visit-Counted f black n c d stack i w = add_edge-Counted f n (block c) d i w

visit_all-Counted :
    (f : Cfg) (n : ℕ) (cs : List ℕ) (d : BbDag) (stack : List ℕ)
    → All (λ c. In c (f.successors n)) cs
    → Counted f d
    → Counted f (visit_all n cs d stack).0
unfolding visit_all
visit_all-Counted f n [] d stack i w = w
visit_all-Counted f n (c ∷ cs) d stack i w =
    let r = visit (d.color c) n c d stack in
    visit_all-Counted f n cs r.0 r.1 i.1 (visit-Counted f (d.color c) n c d stack i.0 w)

leave-Counted : (f : Cfg) (n : ℕ) (d : BbDag) → Counted f d → Counted f (leave f n d)
leave-Counted f n d w = elim (Bool-cases (f.is_final n)) [
  | inl e ↦ rw e (add_edge-Counted f n exit (paint n black d) tt (paint-Counted f n black d w))
  | inr e ↦ rw e (paint-Counted f n black d w)
]

all_of_them : (all : List ℕ) (cs : List ℕ) → ((c : ℕ) → In c cs → In c all) → All (λ c. In c all) cs
all_of_them all [] f = tt
all_of_them all (c ∷ cs) f = (f c (inl refl), all_of_them all cs (λ b i. f b (inr i)))

pub init_dag_keeps_counts : (f : Cfg) (d : BbDag) → init_dag f ≡ some d → Counted f d
init_dag_keeps_counts f d run =
    init_dag_rule f (λ d' stack. Counted f d')
      (record {
        enter = λ d' n stack e w.
            visit_all-Counted f n (f.successors n) (paint n gray d') (n ∷ stack)
              (all_of_them (f.successors n) (f.successors n) (λ c i. i))
              (paint-Counted f n gray d' w);
        gray_leaves = λ d' n stack e w. leave-Counted f n d' w;
        black_leaves = λ d' n stack e w. leave-Counted f n d' w;
      })
      d (record { counted = λ n. omega arith; matched = λ b n. refl; along = λ b. tt }) run

-- Where the successors of the blocks are blocks of the function, the graph is built; the count of a node is
-- the number of its predecessors modulo 2^32, a block stands as often among the predecessors of a
-- node as the node among the successors of the block, and every edge leads to the exit or to a
-- successor of the block in the function.
pub init_dag-Counted : (f : Cfg) → IsClosed f → (d : BbDag) × (init_dag f ≡ some d) × Counted f d
init_dag-Counted f closed =
    let (d, run, _) = init_dag-IsAcyclic f closed in (d, run, init_dag_keeps_counts f d run)
