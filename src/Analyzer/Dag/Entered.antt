-- ===== src/Analyzer/Dag/Entered.antt =====
-- A white block on top of the stack turns gray, and its white successors are pushed.
use perfscope.Base.{
  ℕ, ◌≡◌, refl, sym, ◌∙◌, inl, inr, false, List, [], ◌∷◌, ◌++◌, ◌⊎◌, ◌==◌, if◌then◌else◌, All, In,
  In-right, All-weaken, Bool-cases, subst,
}
use perfscope.Analyzer.Dag.{white, gray, black, BbNode, Cfg, BbDag, paint, visit_all}
use perfscope.Analyzer.Dag.Visits.{Settled, Settled-weaken, visit_all-Visited}
use perfscope.Analyzer.Dag.Ranks.{
  Above, Above-change, Above-white, Lower, Lower-weaken, Ranked, same_block, other_color,
}

-- What painting and visiting leave behind, by the color from before.
record Entered (d : BbDag) (n : ℕ) (stack : List ℕ) (r : BbDag × List ℕ) : Type 0 where
  added : List BbNode
  pushed : List ℕ
  colors : (v : ℕ) → r.0.color v ≡ (if v == n then gray else d.color v)
  others : (v : ℕ) → (v == n) ≡ false → r.0.succ v ≡ d.succ v
  own : r.0.succ n ≡ added
  stacked : r.1 ≡ pushed ++ n ∷ stack
  whites : All (λ v. r.0.color v ≡ white) pushed
  settled : All (Settled r.0.color (λ v. In v pushed)) added

enter-Entered :
    (f : Cfg) (n : ℕ) (d : BbDag) (stack : List ℕ)
    → d.succ n ≡ []
    → Entered d n stack (visit_all n (f.successors n) (paint n gray d) (n ∷ stack))
enter-Entered f n d stack none_yet =
    let d1 = paint n gray d in
    let r = visit_all n (f.successors n) d1 (n ∷ stack) in
    let v = visit_all-Visited n (f.successors n) d1 (n ∷ stack) in
    record {
      added = v.added;
      pushed = v.pushed;
      colors = v.same_color;
      others = v.others;
      own = v.own ∙ rw none_yet refl;
      stacked = v.stacked;
      whites = All-weaken (λ u. d1.color u ≡ white) v.pushed (λ u e. v.same_color u ∙ e) v.whites;
      settled =
          All-weaken (Settled d1.color (λ u. In u v.pushed)) v.added
            (Settled-weaken d1.color r.0.color (λ u. In u v.pushed) (λ u. In u v.pushed)
              (λ u e. v.same_color u ∙ e) (λ u i. inr i))
            v.settled;
    }

Entered-Above :
    (n : ℕ) (d : BbDag) (stack : List ℕ) (r : BbDag × List ℕ)
    → d.color n ≡ white
    → Entered d n stack r
    → Above d (λ v. (v ≡ n) ⊎ ⊥) stack
    → Above r.0 (λ v. ⊥) r.1
Entered-Above n d stack r e w above = rw (w.stacked) (
    Above-white r.0 (λ v. ⊥) w.pushed (n ∷ stack) w.whites
      (λ R g.
        let own : All (Settled r.0.color R) (r.0.succ n) = rw (w.own) (
          All-weaken (Settled r.0.color (λ v. In v w.pushed)) w.added
            (Settled-weaken r.0.color r.0.color (λ v. In v w.pushed) R (λ v b. b)
              (λ v i. inr (g v (inl i))))
            w.settled) in
        (
          (λ _. own),
          Above-change d r.0 (λ v. (v ≡ n) ⊎ ⊥) (λ v. (v ≡ n) ⊎ R v) stack
              (λ v b.
                let other = other_color d v n black white b e (λ x. cc x) in
                rw (w.colors v, other) b)
              (λ v p. elim p [ inl s ↦ inr (inl s) | inr x ↦ absurd x ])
              (λ u g'. elim (Bool-cases (u == n)) [
                | inl t ↦ inr (
                    subst (λ k. All (Settled r.0.color (λ v. (v ≡ n) ⊎ R v)) (r.0.succ k))
                      (sym (same_block u n t))
                      (All-weaken (Settled r.0.color R) (r.0.succ n)
                        (Settled-weaken r.0.color r.0.color R (λ v. (v ≡ n) ⊎ R v) (λ v b. b)
                          (λ v q. inr (inr q)))
                        own))
                | inr t ↦ inl (rw (w.colors u, t) at g', w.others u t)
              ])
              above,
        )))

pub enter-Ranked :
    (f : Cfg) (n : ℕ) (d : BbDag) (stack : List ℕ)
    → d.color n ≡ white
    → Ranked d (n ∷ stack)
    → let r = visit_all n (f.successors n) (paint n gray d) (n ∷ stack) in Ranked r.0 r.1
enter-Ranked f n d stack e w =
    let r = visit_all n (f.successors n) (paint n gray d) (n ∷ stack) in
    let t = enter-Entered f n d stack (w.unseen n e) in
    record {
      rank = w.rank;
      clock = w.clock;
      unseen = λ u c. elim (Bool-cases (u == n)) [
        | inl s ↦ absurd (cc (rw (t.colors u, s) at c))
        | inr s ↦ t.others u s ∙ w.unseen u (rw (t.colors u, s) at c)
      ];
      done = λ u c. elim (Bool-cases (u == n)) [
        | inl s ↦ absurd (cc (rw (t.colors u, s) at c))
        | inr s ↦
            let (below, all) = w.done u (rw (t.colors u, s) at c) in
            (
              below,
              rw (t.others u s) (
                  All-weaken (Lower d w.rank (w.rank u)) (d.succ u)
                    (Lower-weaken d r.0 w.rank w.rank
                      (λ v b.
                        (rw (t.colors v, other_color d v n black white b e (λ x. cc x)) b, refl))
                      (w.rank u))
                    all),
            )
      ];
      gray_on = λ u c. elim (Bool-cases (u == n)) [
        | inl s ↦ rw (t.stacked) (In-right u t.pushed (n ∷ stack) (inl (same_block u n s)))
        | inr s ↦
            rw (t.stacked) (In-right u t.pushed (n ∷ stack) (w.gray_on u (rw (t.colors u, s) at c)))
      ];
      waiting = Entered-Above n d stack r e t w.waiting.1;
    }
