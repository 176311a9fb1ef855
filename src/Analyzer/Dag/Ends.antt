-- ===== src/Analyzer/Dag/Ends.antt =====
-- The search in depth ends, and the graph that it leaves has no cycle.
use perfscope.Base.{
  ℕ, zero, suc, ◌+◌, ◌≤◌, ◌<◌, ◌≡◌, refl, inl, inr, Bool, true, false, List, [], ◌∷◌, Option, some,
  arith, ◌==◌, if◌then◌else◌, length, All, In, All-weaken, Bool-cases, subst,
}
use perfscope.Analyzer.Dag.{
  BbNodeColor, white, gray, black, BbNode, exit, block, Cfg, BbDag, empty_dag, paint, visit,
  visit_all, leave, dfs_loop, total_edges, init_dag,
}
use perfscope.Analyzer.Dag.Visits.{visit_all-Visited}
use perfscope.Analyzer.Dag.Ranks.{Lower, Ranked, leave-color, leave-gray, leave-black}
use perfscope.Analyzer.Dag.Entered.{enter-Ranked}

abbrev is_white : BbNodeColor → Bool
is_white white = true
is_white gray = false
is_white black = false

-- What a block that is still white can cost in rounds.
abbrev pending_at : Cfg → (ℕ → BbNodeColor) → ℕ → ℕ
pending_at f color b = if is_white (color b) then suc (length (f.successors b)) else 0

abbrev pending : Cfg → (ℕ → BbNodeColor) → List ℕ → ℕ
pending f color [] = 0
pending f color (b ∷ bs) = pending_at f color b + pending f color bs

-- No block is white that was not.
abbrev Darker : (ℕ → BbNodeColor) → (ℕ → BbNodeColor) → Type 0
Darker color color' = (v : ℕ) → is_white (color' v) ≡ true → is_white (color v) ≡ true

pending_at_mono :
    (f : Cfg) (color color' : ℕ → BbNodeColor) (b : ℕ)
    → Darker color color'
    → pending_at f color' b ≤ pending_at f color b
pending_at_mono f color color' b w = elim (Bool-cases (is_white (color' b))) [
  | inl e ↦ rw (e, w b e) (omega arith)
  | inr e ↦ rw e (omega arith)
]

pending_mono :
    (f : Cfg) (color color' : ℕ → BbNodeColor) (bs : List ℕ)
    → Darker color color'
    → pending f color' bs ≤ pending f color bs
pending_mono f color color' [] w = omega arith
pending_mono f color color' (b ∷ bs) w =
    omega (arith, pending_at_mono f color color' b w, pending_mono f color color' bs w)

pending_visit :
    (f : Cfg) (color color' : ℕ → BbNodeColor) (n : ℕ) (bs : List ℕ)
    → Darker color color'
    → is_white (color n) ≡ true
    → is_white (color' n) ≡ false
    → In n bs
    → pending f color' bs + suc (length (f.successors n)) ≤ pending f color bs
pending_visit f color color' n [] w e e' i = absurd i
pending_visit f color color' n (b ∷ bs) w e e' (inl s) =
    let here : pending_at f color' n + suc (length (f.successors n)) ≤ pending_at f color n =
      rw (e, e') (omega arith) in
    let there =
      subst (λ k. pending_at f color' k + suc (length (f.successors n)) ≤ pending_at f color k) s
        here in
    omega (arith, there, pending_mono f color color' bs w)
pending_visit f color color' n (b ∷ bs) w e e' (inr i) =
    omega (arith, pending_at_mono f color color' b w, pending_visit f color color' n bs w e e' i)

-- The successors of the blocks of the function are blocks of the function.
abbrev pub IsClosed : Cfg → Type 0
IsClosed f =
    let blocks = f.entry ∷ f.others in
    (b : ℕ) → In b blocks → All (λ c. In c blocks) (f.successors b)

visit-stack :
    (P : ℕ → Type 0) (color : BbNodeColor) (n c : ℕ) (d : BbDag) (stack : List ℕ)
    → P c
    → All P stack
    → let r = visit color n c d stack in (length r.1 ≤ suc (length stack)) × All P r.1
visit-stack P white n c d stack p w = (omega arith, (p, w))
visit-stack P gray n c d stack p w = (omega arith, w)
visit-stack P black n c d stack p w = (omega arith, w)

visit_all-stack :
    (P : ℕ → Type 0) (n : ℕ) (cs : List ℕ) (d : BbDag) (stack : List ℕ)
    → All P cs
    → All P stack
    → let r = visit_all n cs d stack in (length r.1 ≤ length cs + length stack) × All P r.1
unfolding visit_all
visit_all-stack P n [] d stack v w = (omega arith, w)
visit_all-stack P n (c ∷ cs) d stack v w =
    let r = visit (d.color c) n c d stack in
    let (shorter, all) = visit-stack P (d.color c) n c d stack v.0 w in
    let (shorter', all') = visit_all-stack P n cs r.0 r.1 v.1 all in
    (omega (arith, shorter, shorter'), all')

Ends : Cfg → Option BbDag → Type 0
Ends f run = (d : BbDag) × (run ≡ some d) × Ranked d []

leave-Darker : (f : Cfg) (n : ℕ) (d : BbDag) → Darker d.color (leave f n d).color
leave-Darker f n d v t = elim (Bool-cases (v == n)) [
  | inl s ↦ absurd (cc (rw (leave-color f n d v, s) at t))
  | inr s ↦ rw (leave-color f n d v, s) at t
]

-- What is left of the search, as long as the stack and the white blocks fit in the fuel.
abbrev Continues : Cfg → ℕ → Type 0
Continues f fuel =
    (d : BbDag) (stack : List ℕ)
    → All (λ b. In b (f.entry ∷ f.others)) stack
    → Ranked d stack
    → length stack + pending f d.color (f.entry ∷ f.others) < fuel
    → Ends f (dfs_loop fuel f d stack)

round-Ends :
    (f : Cfg) (fuel : ℕ) (d : BbDag) (n : ℕ) (stack : List ℕ)
    → IsClosed f
    → All (λ b. In b (f.entry ∷ f.others)) (n ∷ stack)
    → Ranked d (n ∷ stack)
    → length (n ∷ stack) + pending f d.color (f.entry ∷ f.others) < suc fuel
    → Continues f fuel
    → (c : BbNodeColor) → d.color n ≡ c
    → Ends f (dfs_loop (suc fuel) f d (n ∷ stack))
unfolding dfs_loop
round-Ends f fuel d n stack closed w r m again white e =
    let blocks = f.entry ∷ f.others in
    let cs = f.successors n in
    let d1 = paint n gray d in
    let res = visit_all n cs d1 (n ∷ stack) in
    let same = (visit_all-Visited n cs d1 (n ∷ stack)).same_color in
    let (longer, all) = visit_all-stack (λ b. In b blocks) n cs d1 (n ∷ stack) (closed n w.0) w in
    let self : (n == n) ≡ true = ground arith in
    let darker : Darker d.color res.0.color = (λ v t. elim (Bool-cases (v == n)) [
      | inl s ↦ absurd (cc (rw (same v, s) at t))
      | inr s ↦ rw (same v, s) at t
    ]) in
    let before : is_white (d.color n) ≡ true = rw e refl in
    let behind : is_white (res.0.color n) ≡ false = rw (same n, self) refl in
    let less = pending_visit f d.color res.0.color n blocks darker before behind w.0 in
    rw (dfs_loop, e)
      (again res.0 res.1 all (enter-Ranked f n d stack e r) (omega (arith, m, longer, less)))
round-Ends f fuel d n stack closed w r m again gray e =
    let d' = leave f n d in
    let less = pending_mono f d.color d'.color (f.entry ∷ f.others) (leave-Darker f n d) in
    rw (dfs_loop, e) (again d' stack w.1 (leave-gray f n d stack e r) (omega (arith, m, less)))
round-Ends f fuel d n stack closed w r m again black e =
    let d' = leave f n d in
    let less = pending_mono f d.color d'.color (f.entry ∷ f.others) (leave-Darker f n d) in
    rw (dfs_loop, e) (again d' stack w.1 (leave-black f n d stack e r) (omega (arith, m, less)))

dfs_loop-Ends : (f : Cfg) (fuel : ℕ) → IsClosed f → Continues f fuel
unfolding dfs_loop Ends
dfs_loop-Ends f zero closed d stack w r m = absurd (omega arith)
dfs_loop-Ends f (suc fuel) closed d [] w r m = (d, refl, r)
dfs_loop-Ends f (suc fuel) closed d (n ∷ stack) w r m =
    round-Ends f fuel d n stack closed w r m (dfs_loop-Ends f fuel closed) (d.color n) refl

pending-white : (f : Cfg) (bs : List ℕ) → pending f (λ b. white) bs ≡ total_edges f bs
unfolding total_edges
pending-white f [] = refl
pending-white f (b ∷ bs) = omega (arith, pending-white f bs)

pub start-Ranked : (entry : ℕ) → Ranked empty_dag (entry ∷ [])
start-Ranked entry = record {
  rank = λ v. 0;
  clock = 0;
  unseen = λ u e. refl;
  done = λ u e. absurd (cc e);
  gray_on = λ u e. absurd (cc e);
  waiting = ((λ e. absurd (cc e)), tt);
}

-- Every edge leads to a smaller number.
abbrev pub IsAcyclic : BbDag → Type 0
IsAcyclic d = (height : BbNode → ℕ) × ((b : ℕ) → All (λ n. height n < height (block b)) (d.succ b))

abbrev height : (ℕ → ℕ) → BbNode → ℕ
height rank exit = 0
height rank (block b) = suc (rank b)

Lower-height :
    (d : BbDag) (rank : ℕ → ℕ) (k : ℕ) (n : BbNode) → Lower d rank k n → height rank n < suc k
Lower-height d rank k exit w = omega arith
Lower-height d rank k (block v) w = omega (arith, w.1)

Ranked-IsAcyclic : (d : BbDag) → Ranked d [] → IsAcyclic d
Ranked-IsAcyclic d r = (height r.rank, λ b. go b (d.color b) refl)
  where
    go :
        (b : ℕ) (c : BbNodeColor)
        → d.color b ≡ c
        → All (λ n. height r.rank n < height r.rank (block b)) (d.succ b)
    go b white e = rw (r.unseen b e) tt
    go b gray e = absurd (r.gray_on b e)
    go b black e =
        All-weaken (Lower d r.rank (r.rank b)) (d.succ b) (Lower-height d r.rank (r.rank b))
          (r.done b e).1

-- Where the successors of the blocks are blocks of the function, the search in depth ends, and the
-- blocks can be numbered so that every edge of the graph leads to a smaller number: the graph
-- has no cycle.
pub init_dag-IsAcyclic : (f : Cfg) → IsClosed f → (d : BbDag) × (init_dag f ≡ some d) × IsAcyclic d
unfolding init_dag Ends
init_dag-IsAcyclic f closed =
    let blocks = f.entry ∷ f.others in
    let (d, run, r) =
      dfs_loop-Ends f (total_edges f blocks + 2) closed empty_dag (f.entry ∷ []) (inl refl, tt)
        (start-Ranked f.entry) (omega (arith, pending-white f blocks)) in
    (d, run, Ranked-IsAcyclic d r)
