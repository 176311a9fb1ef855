-- ===== src/Analyzer/Dag/Rule.antt =====
-- What both steps of the search in depth keep holds of the graph that it leaves.
use perfscope.Base.{ℕ, zero, suc, ◌≡◌, refl, List, [], ◌∷◌, some, subst}
use perfscope.Analyzer.Dag.{
  BbNodeColor, white, gray, black, Cfg, BbDag, empty_dag, paint, visit_all, leave, dfs_loop,
  init_dag,
}

-- A white block is entered, and any other one leaves the stack.
pub record Kept (f : Cfg) (Inv : BbDag → List ℕ → Type 0) : Type 0 where
  pub enter :
      (d : BbDag) (n : ℕ) (stack : List ℕ)
      → d.color n ≡ white
      → Inv d (n ∷ stack)
      → let r = visit_all n (f.successors n) (paint n gray d) (n ∷ stack) in Inv r.0 r.1
  pub gray_leaves :
      (d : BbDag) (n : ℕ) (stack : List ℕ)
      → d.color n ≡ gray
      → Inv d (n ∷ stack)
      → Inv (leave f n d) stack
  pub black_leaves :
      (d : BbDag) (n : ℕ) (stack : List ℕ)
      → d.color n ≡ black
      → Inv d (n ∷ stack)
      → Inv (leave f n d) stack

module _ (f : Cfg) (Inv : BbDag → List ℕ → Type 0) (kept : Kept f Inv) where
  abbrev Reaches : ℕ → Type 0
  Reaches fuel =
      (d : BbDag) (stack : List ℕ) (d' : BbDag)
      → Inv d stack
      → dfs_loop fuel f d stack ≡ some d'
      → Inv d' []

  round_rule :
      (fuel : ℕ) (d : BbDag) (n : ℕ) (stack : List ℕ) (d' : BbDag)
      → Reaches fuel
      → Inv d (n ∷ stack)
      → (c : BbNodeColor) → d.color n ≡ c
      → dfs_loop (suc fuel) f d (n ∷ stack) ≡ some d'
      → Inv d' []
  unfolding dfs_loop
  round_rule fuel d n stack d' again w white e run =
      let r = visit_all n (f.successors n) (paint n gray d) (n ∷ stack) in
      again r.0 r.1 d' (kept.enter d n stack e w) (rw (dfs_loop, e) at run)
  round_rule fuel d n stack d' again w gray e run =
      again (leave f n d) stack d' (kept.gray_leaves d n stack e w) (rw (dfs_loop, e) at run)
  round_rule fuel d n stack d' again w black e run =
      again (leave f n d) stack d' (kept.black_leaves d n stack e w) (rw (dfs_loop, e) at run)

  dfs_loop_rule : (fuel : ℕ) → Reaches fuel
  unfolding dfs_loop
  dfs_loop_rule zero d stack d' w run = absurd (cc run)
  dfs_loop_rule (suc fuel) d [] d' w run =
      let same : d ≡ d' = cc run in subst (λ k. Inv k []) same w
  dfs_loop_rule (suc fuel) d (n ∷ stack) d' w run =
      round_rule fuel d n stack d' (dfs_loop_rule fuel) w (d.color n) refl run

  pub init_dag_rule : (d : BbDag) → Inv empty_dag (f.entry ∷ []) → init_dag f ≡ some d → Inv d []
  unfolding init_dag
  init_dag_rule d w run = dfs_loop_rule _ empty_dag (f.entry ∷ []) d w run
