-- ===== src/Analyzer/Dag/Visits.antt =====
-- What the loop over the successors of a block adds to the graph and to the stack.
use perfscope.Base.{
  ℕ, ◌≡◌, refl, sym, ◌∙◌, inl, inr, true, false, List, [], ◌∷◌, ◌++◌, append-nil, append_assoc, ◌⊎◌,
  arith, ◌==◌, All, In, In-left, In-right, All-both, All-weaken,
}
use perfscope.Analyzer.Dag.{
  BbNodeColor, white, gray, black, BbNode, exit, block, BbDag, add_edge, visit, visit_all,
}

-- The exit, or a block that is black or of the given ones.
abbrev pub Settled : (ℕ → BbNodeColor) → (ℕ → Type 0) → BbNode → Type 0
Settled color P exit = Unit {0}
Settled color P (block v) = (color v ≡ black) ⊎ P v

pub Settled-weaken :
    (color color' : ℕ → BbNodeColor) (P Q : ℕ → Type 0)
    → ((v : ℕ) → color v ≡ black → color' v ≡ black)
    → ((v : ℕ) → P v → (color' v ≡ black) ⊎ Q v)
    → (n : BbNode) → Settled color P n
    → Settled color' Q n
Settled-weaken color color' P Q f g exit w = tt
Settled-weaken color color' P Q f g (block v) (inl e) = inl (f v e)
Settled-weaken color color' P Q f g (block v) (inr w) = g v w

pub record Visited (n : ℕ) (d : BbDag) (stack : List ℕ) (r : BbDag × List ℕ) : Type 0 where
  pub added : List BbNode
  pub pushed : List ℕ
  pub same_color : (v : ℕ) → r.0.color v ≡ d.color v
  pub others : (v : ℕ) → (v == n) ≡ false → r.0.succ v ≡ d.succ v
  pub own : r.0.succ n ≡ d.succ n ++ added
  pub stacked : r.1 ≡ pushed ++ stack
  pub whites : All (λ v. d.color v ≡ white) pushed
  pub settled : All (Settled d.color (λ v. In v pushed)) added

-- One edge, and at most one push, before the rest of the loop.
Visited-edge :
    (n : ℕ) (to : BbNode) (d : BbDag) (extra stack : List ℕ) (r : BbDag × List ℕ)
    → All (λ v. d.color v ≡ white) extra
    → Settled d.color (λ v. In v extra) to
    → Visited n (add_edge n to d) (extra ++ stack) r
    → Visited n d stack r
Visited-edge n to d extra stack r white_extra w v =
    let self : (n == n) ≡ true = ground arith in
    record {
      added = to ∷ v.added;
      pushed = v.pushed ++ extra;
      same_color = v.same_color;
      others = λ u e. v.others u e ∙ rw e refl;
      own = v.own ∙ rw self (append_assoc (d.succ n) (to ∷ []) v.added);
      stacked = v.stacked ∙ sym (append_assoc v.pushed extra stack);
      whites = All-both (λ u. d.color u ≡ white) v.pushed extra v.whites white_extra;
      settled = (
        Settled-weaken d.color d.color (λ u. In u extra) (λ u. In u (v.pushed ++ extra)) (λ u e. e)
            (λ u i. inr (In-right u v.pushed extra i)) to w,
        All-weaken (Settled d.color (λ u. In u v.pushed)) v.added
            (Settled-weaken d.color d.color (λ u. In u v.pushed) (λ u. In u (v.pushed ++ extra))
              (λ u e. e) (λ u i. inr (In-left u v.pushed extra i)))
            v.settled,
      );
    }

visit-Visited :
    (color : BbNodeColor) (n c : ℕ) (cs : List ℕ) (d : BbDag) (stack : List ℕ)
    → d.color c ≡ color
    → ((d1 : BbDag) (stack1 : List ℕ) → Visited n d1 stack1 (visit_all n cs d1 stack1))
    → Visited n d stack (visit_all n cs (visit color n c d stack).0 (visit color n c d stack).1)
visit-Visited white n c cs d stack e again =
    let d1 = add_edge n (block c) d in
    Visited-edge n (block c) d (c ∷ []) stack (visit_all n cs d1 (c ∷ stack)) (e, tt)
      (inr (inl refl)) (again d1 (c ∷ stack))
visit-Visited gray n c cs d stack e again =
    let d1 = add_edge n exit d in
    Visited-edge n exit d [] stack (visit_all n cs d1 stack) tt tt (again d1 stack)
visit-Visited black n c cs d stack e again =
    let d1 = add_edge n (block c) d in
    Visited-edge n (block c) d [] stack (visit_all n cs d1 stack) tt (inl e) (again d1 stack)

pub visit_all-Visited :
    (n : ℕ) (cs : List ℕ) (d : BbDag) (stack : List ℕ) → Visited n d stack (visit_all n cs d stack)
unfolding visit_all
visit_all-Visited n [] d stack = record {
  added = [];
  pushed = [];
  same_color = λ v. refl;
  others = λ v e. refl;
  own = sym (append-nil (d.succ n));
  stacked = refl;
  whites = tt;
  settled = tt;
}
visit_all-Visited n (c ∷ cs) d stack =
    visit-Visited (d.color c) n c cs d stack refl (visit_all-Visited n cs)
