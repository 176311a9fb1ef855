-- ===== src/Analyzer/Dag/Ranks.antt =====
-- The edges lead down: blocks are ranked in the order in which they turn black.
use perfscope.Base.{
  ℕ, suc, ◌<◌, ◌≡◌, refl, sym, ap, ◌∙◌, inl, inr, true, false, List, [], ◌∷◌, ◌++◌, ◌⊎◌, arith,
  ◌==◌, if◌then◌else◌, All, In, All-both, All-weaken, Bool-cases, subst,
}
use perfscope.Analyzer.Dag.{BbNodeColor, white, gray, black, BbNode, exit, block, Cfg, BbDag, leave}
use perfscope.Analyzer.Dag.Visits.{Settled, Settled-weaken}

-- The edges of a gray block lead to the exit, to black blocks, or to those above it on the stack.
abbrev pub Above : BbDag → (ℕ → Type 0) → List ℕ → Type 0
Above d P [] = Unit {0}
Above d P (u ∷ stack) =
    (d.color u ≡ gray → All (Settled d.color P) (d.succ u)) × Above d (λ v. (v ≡ u) ⊎ P v) stack

pub Above-change :
    (d d' : BbDag) (P Q : ℕ → Type 0) (stack : List ℕ)
    → ((v : ℕ) → d.color v ≡ black → d'.color v ≡ black)
    → ((v : ℕ) → P v → (d'.color v ≡ black) ⊎ Q v)
    → ((w : ℕ)
        → d'.color w ≡ gray
        → ((d.color w ≡ gray) × (d'.succ w ≡ d.succ w)) ⊎ All (Settled d'.color Q) (d'.succ w))
    → Above d P stack
    → Above d' Q stack
Above-change d d' P Q [] blacks moves edges w = tt
Above-change d d' P Q (u ∷ stack) blacks moves edges w = (
  (λ g. elim (edges u g) [
    | inl (g0, same) ↦ rw same (
        All-weaken (Settled d.color P) (d.succ u) (Settled-weaken d.color d'.color P Q blacks moves)
          (w.0 g0))
    | inr all ↦ all
  ]),
  Above-change d d' (λ v. (v ≡ u) ⊎ P v) (λ v. (v ≡ u) ⊎ Q v) stack blacks
      (λ v p. elim p [
        | inl e ↦ inr (inl e)
        | inr p' ↦ elim (moves v p') [ inl b ↦ inl b | inr q ↦ inr (inr q) ]
      ])
      (λ x g. elim (edges x g) [
        | inl same ↦ inl same
        | inr all ↦ inr (
            All-weaken (Settled d'.color Q) (d'.succ x)
              (Settled-weaken d'.color d'.color Q (λ v. (v ≡ u) ⊎ Q v) (λ v b. b)
                (λ v q. inr (inr q)))
              all)
      ])
      w.1,
)

-- White blocks on top of the stack.
pub Above-white :
    (d : BbDag) (P : ℕ → Type 0) (pushed stack : List ℕ)
    → All (λ v. d.color v ≡ white) pushed
    → ((R : ℕ → Type 0) → ((v : ℕ) → In v pushed ⊎ P v → R v) → Above d R stack)
    → Above d P (pushed ++ stack)
Above-white d P [] stack whites w = w P (λ v p. elim p [ inl i ↦ absurd i | inr p' ↦ p' ])
Above-white d P (p ∷ ps) stack whites w = (
  (λ g. absurd (cc (g, whites.0))),
  Above-white d (λ v. (v ≡ p) ⊎ P v) ps stack whites.1
      (λ R g. w R (λ v q.
        g v (elim q [ inl (inl e) ↦ inr (inl e) | inl (inr i) ↦ inl i | inr x ↦ inr (inr x) ]))),
)

-- The exit, or a black block below the rank.
abbrev pub Lower : BbDag → (ℕ → ℕ) → ℕ → BbNode → Type 0
Lower d rank k exit = Unit {0}
Lower d rank k (block v) = (d.color v ≡ black) × (rank v < k)

abbrev pub IsDone : BbDag → (ℕ → ℕ) → ℕ → ℕ → Type 0
IsDone d rank clock u = (rank u < clock) × All (Lower d rank (rank u)) (d.succ u)

pub record Ranked (d : BbDag) (stack : List ℕ) : Type 0 where
  pub rank : ℕ → ℕ
  pub clock : ℕ
  pub unseen : (u : ℕ) → d.color u ≡ white → d.succ u ≡ []
  pub done : (u : ℕ) → d.color u ≡ black → IsDone d rank clock u
  pub gray_on : (u : ℕ) → d.color u ≡ gray → In u stack
  pub waiting : Above d (λ v. ⊥) stack

pub leave-color :
    (f : Cfg) (n : ℕ) (d : BbDag) (v : ℕ)
    → (leave f n d).color v ≡ (if v == n then black else d.color v)
leave-color f n d v = elim (Bool-cases (f.is_final n)) [ inl e ↦ rw e refl | inr e ↦ rw e refl ]

leave-others :
    (f : Cfg) (n : ℕ) (d : BbDag) (v : ℕ) → (v == n) ≡ false → (leave f n d).succ v ≡ d.succ v
leave-others f n d v o = elim (Bool-cases (f.is_final n)) [
  | inl e ↦ rw (e, o) refl
  | inr e ↦ rw e refl
]

leave-own :
    (f : Cfg) (n : ℕ) (d : BbDag) (P : BbNode → Type 0)
    → P exit
    → All P (d.succ n)
    → All P ((leave f n d).succ n)
leave-own f n d P x w =
    let self : (n == n) ≡ true = ground arith in
    elim (Bool-cases (f.is_final n)) [
      | inl e ↦ rw (e, self) (All-both P (d.succ n) (exit ∷ []) w (x, tt))
      | inr e ↦ rw e w
    ]

pub same_block : (u n : ℕ) → (u == n) ≡ true → u ≡ n
same_block u n e = ground (arith, e)

pub other_color :
    (d : BbDag) (u n : ℕ) (c k : BbNodeColor)
    → d.color u ≡ c
    → d.color n ≡ k
    → (c ≡ k → ⊥)
    → (u == n) ≡ false
other_color d u n c k e g ne = elim (Bool-cases (u == n)) [
  | inl t ↦ absurd (ne (sym e ∙ ap d.color (same_block u n t) ∙ g))
  | inr t ↦ t
]

-- The top of the stack leaves, under ranks that fit.
Ranked-leave :
    (f : Cfg) (n : ℕ) (d : BbDag) (stack : List ℕ) (rank : ℕ → ℕ) (clock : ℕ)
    → Ranked d (n ∷ stack)
    → IsDone (leave f n d) rank clock n
    → ((u : ℕ) → (u == n) ≡ false → d.color u ≡ black → IsDone (leave f n d) rank clock u)
    → Ranked (leave f n d) stack
Ranked-leave f n d stack rank clock r own rest =
    let colors = leave-color f n d in
    record {
      rank = rank;
      clock = clock;
      unseen = λ u e. elim (Bool-cases (u == n)) [
        | inl t ↦ absurd (cc (sym (colors u) ∙ e, t))
        | inr t ↦ leave-others f n d u t ∙ r.unseen u (rw (colors u, t) at e)
      ];
      done = λ u e. elim (Bool-cases (u == n)) [
        | inl t ↦ subst (λ k. IsDone (leave f n d) rank clock k) (sym (same_block u n t)) own
        | inr t ↦ rest u t (rw (colors u, t) at e)
      ];
      gray_on = λ u e. elim (Bool-cases (u == n)) [
        | inl t ↦ absurd (cc (rw (colors u, t) at e))
        | inr t ↦ elim (r.gray_on u (rw (colors u, t) at e)) [
          | inl s ↦ let bad : ⊥ = ground (arith, s, t) in absurd bad
          | inr i ↦ i
        ]
      ];
      waiting =
          Above-change d (leave f n d) (λ v. (v ≡ n) ⊎ ⊥) (λ v. ⊥) stack
            (λ v e. elim (Bool-cases (v == n)) [
              | inl t ↦ rw (colors v, t) refl
              | inr t ↦ rw (colors v, t) e
            ])
            (λ v p. elim p [
              | inl e ↦ let t : (v == n) ≡ true = ground (arith, e) in inl (rw (colors v, t) refl)
              | inr x ↦ absurd x
            ])
            (λ u g. elim (Bool-cases (u == n)) [
              | inl t ↦ absurd (cc (rw (colors u, t) at g))
              | inr t ↦ inl (rw (colors u, t) at g, leave-others f n d u t)
            ])
            r.waiting.1;
    }

pub Lower-weaken :
    (d d' : BbDag) (rank rank' : ℕ → ℕ)
    → ((v : ℕ) → d.color v ≡ black → (d'.color v ≡ black) × (rank' v ≡ rank v))
    → (k : ℕ) (m : BbNode) → Lower d rank k m
    → Lower d' rank' k m
Lower-weaken d d' rank rank' kept k exit w = tt
Lower-weaken d d' rank rank' kept k (block v) w = let (b, same) = kept v w.0 in (b, rw same w.1)

Lower-Settled :
    (d d' : BbDag) (rank' : ℕ → ℕ) (k : ℕ)
    → ((v : ℕ) → d.color v ≡ black → (d'.color v ≡ black) × (rank' v < k))
    → (m : BbNode) → Settled d.color (λ v. ⊥) m
    → Lower d' rank' k m
Lower-Settled d d' rank' k kept exit w = tt
Lower-Settled d d' rank' k kept (block v) (inl b) = kept v b
Lower-Settled d d' rank' k kept (block v) (inr x) = absurd x

-- A gray block turns black at the clock.
pub leave-gray :
    (f : Cfg) (n : ℕ) (d : BbDag) (stack : List ℕ)
    → d.color n ≡ gray
    → Ranked d (n ∷ stack)
    → Ranked (leave f n d) stack
leave-gray f n d stack e r =
    let d' = leave f n d in
    let rank' : ℕ → ℕ = λ k. if k == n then r.clock else r.rank k in
    let self : (n == n) ≡ true = ground arith in
    let kept : (v : ℕ) → d.color v ≡ black → (d'.color v ≡ black) × (rank' v ≡ r.rank v) = (λ v b.
      let other = other_color d v n black gray b e (λ x. cc x) in
      (rw (leave-color f n d v, other) b, rw other refl)) in
    let lower = Lower-weaken d d' r.rank rank' kept in
    let settled =
      Lower-Settled d d' rank' r.clock (λ v b. ((kept v b).0, rw ((kept v b).1) (r.done v b).0)) in
    Ranked-leave f n d stack rank' (suc r.clock) r
      (
        rw self (omega arith),
        rw self (
            leave-own f n d (Lower d' rank' r.clock) tt
              (All-weaken (Settled d.color (λ v. ⊥)) (d.succ n) settled (r.waiting.0 e))),
      )
      (λ u o b.
        let (below, all) = r.done u b in
        (
          rw o (omega (arith, below)),
          rw (o, leave-others f n d u o)
              (All-weaken (Lower d r.rank (r.rank u)) (d.succ u) (lower (r.rank u)) all),
        ))

-- A copy of a black block that is left on the stack.
pub leave-black :
    (f : Cfg) (n : ℕ) (d : BbDag) (stack : List ℕ)
    → d.color n ≡ black
    → Ranked d (n ∷ stack)
    → Ranked (leave f n d) stack
leave-black f n d stack e r =
    let d' = leave f n d in
    let kept : (v : ℕ) → d.color v ≡ black → d'.color v ≡ black = (λ v b.
      elim (Bool-cases (v == n)) [
        | inl t ↦ rw (leave-color f n d v, t) refl
        | inr t ↦ rw (leave-color f n d v, t) b
      ]) in
    let lower = Lower-weaken d d' r.rank r.rank (λ v b. (kept v b, refl)) in
    let all : (u : ℕ) → d.color u ≡ black → All (Lower d' r.rank (r.rank u)) (d.succ u) = (λ u b.
      All-weaken (Lower d r.rank (r.rank u)) (d.succ u) (lower (r.rank u)) (r.done u b).1) in
    Ranked-leave f n d stack r.rank r.clock r
      ((r.done n e).0, leave-own f n d (Lower d' r.rank (r.rank n)) tt (all n e))
      (λ u o b. ((r.done u b).0, rw (leave-others f n d u o) (all u b)))
