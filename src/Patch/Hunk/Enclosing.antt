-- ===== src/Patch/Hunk/Enclosing.antt =====
-- The modifications of a hunk follow one another in both files, and the enclosing scopes hold
-- them all.
use perfscope.Base.{
  ℕ, ◌+◌, ◌≤◌, ◌<◌, ◌≡◌, refl, sym, ap, subst, ◌⊎◌, inl, inr, Bool, true, false, List, [], ◌∷◌,
  ◌++◌, some, arith, Text, if◌then◌else◌, Bool-cases, Option-cases,
}
use perfscope.Base.Result.{ok, bind_ok}
use perfscope.Base.{u32_mod}
use perfscope.Patch.Hunk.{
  Mod, new_mod, Merge, ends_run, advance, merge_step, merge_loop, Reducer, next_in_chunk,
  reduce_loop,
}
use perfscope.Commons.Scope.{Scope}
use perfscope.Patch.Hunk.Merging.{old_in, new_in, merge_start}
use perfscope.Patch.Hunk.Reduce.{
  Inv, Stepped, Kept, MergedBy, pending_old, pending_new, all_control, reduce_step_lem,
}

-- Scopes one behind the other between two lines, where a scope may begin on the line on which the
-- one before it ends.
abbrev pub Chained : ℕ → List Scope → ℕ → Type 0
Chained lo [] hi = lo ≤ hi
Chained lo (s ∷ ss) hi = (lo ≤ s.begin) × (s.begin ≤ s.end) × Chained s.end ss hi

Chained-mono :
    (lo : ℕ) (ss : List Scope) (hi hi' : ℕ) → hi ≤ hi' → Chained lo ss hi → Chained lo ss hi'
Chained-mono lo [] hi hi' h c = omega arith
Chained-mono lo (s ∷ ss) hi hi' h c = (c.0, c.1, Chained-mono s.end ss hi hi' h c.2)

Chained-snoc :
    (lo : ℕ) (ss : List Scope) (hi : ℕ) (s : Scope)
    → Chained lo ss hi
    → hi ≤ s.begin
    → s.begin ≤ s.end
    → Chained lo (ss ++ s ∷ []) s.end
Chained-snoc lo [] hi s c h k = omega arith
Chained-snoc lo (t ∷ ss) hi s c h k = (c.0, c.1, Chained-snoc t.end ss hi s c.2 h k)

abbrev pub scopes : List Mod → List Scope
scopes [] = []
scopes (m ∷ ms) = m.scope ∷ scopes ms

abbrev pub rep_scopes : List Mod → List Scope
rep_scopes [] = []
rep_scopes (m ∷ ms) = m.rep_scope ∷ rep_scopes ms

scopes-snoc : (ms : List Mod) (m : Mod) → scopes (ms ++ m ∷ []) ≡ scopes ms ++ m.scope ∷ []
scopes-snoc [] m = refl
scopes-snoc (n ∷ ms) m = ap (◌∷◌ n.scope) (scopes-snoc ms m)

rep_scopes-snoc :
    (ms : List Mod) (m : Mod) → rep_scopes (ms ++ m ∷ []) ≡ rep_scopes ms ++ m.rep_scope ∷ []
rep_scopes-snoc [] m = refl
rep_scopes-snoc (n ∷ ms) m = ap (◌∷◌ n.rep_scope) (rep_scopes-snoc ms m)

-- The chains of both files up to the place where the current run began.
record MergeChain (lo rep_lo : ℕ) (m : Merge) : Type 0 where
  old : Chained lo (scopes m.mods) (if m.newregion then m.end else m.start)
  new : Chained rep_lo (rep_scopes m.mods) (if m.newregion then m.rep_end else m.rep_start)
  begun : m.newregion ≡ false → (m.start ≤ m.end) × (m.rep_start ≤ m.rep_end)

made_scopes :
    (start end rep_start rep_end c : ℕ) (made : Mod)
    → new_mod start end rep_start rep_end c ≡ some made
    → (made.scope ≡ record { begin = start; end = end })
      × (made.rep_scope ≡ record { begin = rep_start; end = rep_end })
made_scopes start end rep_start rep_end c made h = (ground arith, ground arith)

-- Room for the lines of `b`: no counter wraps.
record Room (m : Merge) (b : Text) : Type 0 where
  end : m.end + old_in b < u32_mod
  rep_end : m.rep_end + new_in b < u32_mod

module _ (lo rep_lo : ℕ) where
  advance-chain :
      (m : Merge) (c : ℕ) (b : Text)
      → MergeChain lo rep_lo m
      → Room m (c ∷ b)
      → Chained lo (scopes m.mods) (advance m c).start
        × Chained rep_lo (rep_scopes m.mods) (advance m c).rep_start
        × ((advance m c).start ≤ (advance m c).end)
        × ((advance m c).rep_start ≤ (advance m c).rep_end)
        × Room (advance m c) b
  advance-chain m c b h r = elim (Bool-cases m.newregion) [
    | inl e ↦ (
      Chained-mono lo (scopes m.mods) m.end _ (ground (arith, r.end))
          (subst (λ (x : Bool). Chained lo (scopes m.mods) (if x then m.end else m.start)) e h.old),
      Chained-mono rep_lo (rep_scopes m.mods) m.rep_end _ (ground (arith, r.rep_end)) (
          subst
            (λ (x : Bool).
              Chained rep_lo (rep_scopes m.mods) (if x then m.rep_end else m.rep_start))
            e h.new),
      ground (arith, r.end),
      ground (arith, r.rep_end),
      record { end = ground (arith, r.end); rep_end = ground (arith, r.rep_end) },
    )
    | inr e ↦
        let (a, z) = h.begun e in
        (
          Chained-mono lo (scopes m.mods) m.start _ (ground arith) (
              subst (λ (x : Bool). Chained lo (scopes m.mods) (if x then m.end else m.start)) e
                h.old),
          Chained-mono rep_lo (rep_scopes m.mods) m.rep_start _ (ground arith) (
              subst
                (λ (x : Bool).
                  Chained rep_lo (rep_scopes m.mods) (if x then m.rep_end else m.rep_start))
                e h.new),
          ground (arith, r.end),
          ground (arith, r.rep_end),
          record { end = ground (arith, r.end); rep_end = ground (arith, r.rep_end) },
        )
  ]

  merge_step-chain :
      (m n : Merge) (c : ℕ) (b : Text)
      → merge_step m c b ≡ ok n
      → MergeChain lo rep_lo m
      → Room m (c ∷ b)
      → MergeChain lo rep_lo n × Room n b × (ends_run c b ≡ true → n.newregion ≡ true)
  unfolding merge_step
  merge_step-chain m n c b run h r =
      let (old, new, begun, rep_begun, room) = advance-chain m c b h r in
      let a = advance m c in
      elim (Bool-cases (ends_run c b)) [
        | inr e ↦
            let same : n ≡ a = ground arith in
            (
              subst (MergeChain lo rep_lo) (sym same)
                  (record { old = old; new = new; begun = λ _. (begun, rep_begun) }),
              subst (λ x. Room x b) (sym same) room,
              λ z. cc,
            )
        | inl e ↦ elim (Option-cases (new_mod a.start a.end a.rep_start a.rep_end c)) [
          | inl none_made ↦ absurd (ground arith)
          | inr (made, w) ↦
              let same : n ≡ record a { newregion = true; mods = m.mods ++ made ∷ [] } =
                ground arith in
              let (s, t) = made_scopes a.start a.end a.rep_start a.rep_end c made w in
              (
                subst (MergeChain lo rep_lo) (sym same) (record {
                  old =
                      rw (scopes-snoc m.mods made, s)
                        (Chained-snoc lo (scopes m.mods) a.start _ old (omega arith) begun);
                  new =
                      rw (rep_scopes-snoc m.mods made, t)
                        (Chained-snoc rep_lo (rep_scopes m.mods) a.rep_start _ new (omega arith)
                          rep_begun);
                  begun = λ z. cc;
                }),
                subst (λ x. Room x b) (sym same)
                    (record { end = room.end; rep_end = room.rep_end }),
                λ _. ap (λ (x : Merge). x.newregion) same,
              )
        ]
      ]

  merge_loop-chain :
      (m n : Merge) (b : Text)
      → merge_loop m b ≡ ok n
      → MergeChain lo rep_lo m
      → Room m b
      → (b ≡ []) ⊎ (n.newregion ≡ true) × MergeChain lo rep_lo n
  unfolding merge_loop
  merge_loop-chain m n [] run h r = inl refl
  merge_loop-chain m n (c ∷ []) run h r =
      let (o, step, last) = bind_ok (λ x. merge_loop x []) (merge_step m c []) run in
      let (chain, _, done) = merge_step-chain m o c [] step h r in
      let same : o ≡ n = ground arith in
      inr (
        subst (λ (x : Merge). x.newregion ≡ true) same (done refl),
        subst (MergeChain lo rep_lo) same chain,
      )
  merge_loop-chain m n (c ∷ d ∷ b) run h r =
      let (o, step, rest) = bind_ok (λ x. merge_loop x (d ∷ b)) (merge_step m c (d ∷ b)) run in
      let (chain, room, _) = merge_step-chain m o c (d ∷ b) step h r in
      elim (merge_loop-chain o n (d ∷ b) rest chain room) [ inl z ↦ absurd (cc z) | inr z ↦ inr z ]

-- The chains up to the lines that are merged, and no counter wraps on the rest of the sequence.
pub record Chains (lo rep_lo : ℕ) (r : Reducer) (s : Text) : Type 0 where
  pub old : Chained lo (scopes r.mods) r.line
  pub new : Chained rep_lo (rep_scopes r.mods) r.repline
  pub room : r.line + pending_old r s + old_in s < u32_mod
  pub rep_room : r.repline + pending_new r s + new_in s < u32_mod

module _ (lo rep_lo : ℕ) where
  Kept-chain :
      (r s : Reducer) (c : ℕ) (rest : Text)
      → Kept r c s
      → Chains lo rep_lo r (c ∷ rest)
      → Chained lo (scopes s.mods) s.line × Chained rep_lo (rep_scopes s.mods) s.repline
  Kept-chain r s c rest k h = (
    rw k.mods
        (Chained-mono lo (scopes r.mods) r.line s.line (ground (arith, k.line, h.room)) h.old),
    rw k.mods (
        Chained-mono rep_lo (rep_scopes r.mods) r.repline s.repline
          (ground (arith, k.repline, h.rep_room)) h.new),
  )

  MergedBy-chain :
      (r s : Reducer) (c : ℕ) (rest : Text)
      → MergedBy r c s
      → next_in_chunk (c ∷ rest) ≡ true
      → Chains lo rep_lo r (c ∷ rest)
      → Chained lo (scopes s.mods) s.line × Chained rep_lo (rep_scopes s.mods) s.repline
  MergedBy-chain r s c rest m k h =
      let g = m.grown in
      let start : MergeChain lo rep_lo (merge_start g) = record {
        old = rw (m.mods, m.line) h.old;
        new = rw (m.mods, m.repline) h.new;
        begun = λ z. cc;
      } in
      let room : Room (merge_start g) g.buf = record {
        end = ground (arith, m.line, m.old, h.room);
        rep_end = ground (arith, m.repline, m.new, h.rep_room);
      } in
      elim (merge_loop-chain lo rep_lo (merge_start g) m.result g.buf m.run start room) [
        | inl z ↦ absurd (m.nonempty z)
        | inr (done, chain) ↦ (
          rw (m.to_mods, m.to_line)
              (subst
                (λ (x : Bool).
                  Chained lo (scopes m.result.mods) (if x then m.result.end else m.result.start))
                done chain.old),
          rw (m.to_mods, m.to_repline)
              (subst
                (λ (x : Bool).
                  Chained rep_lo (rep_scopes m.result.mods)
                    (if x then m.result.rep_end else m.result.rep_start))
                done chain.new),
        )
      ]

  pub reduce_loop-chain :
      (r t : Reducer) (s : Text)
      → reduce_loop r s ≡ ok t
      → all_control s ≡ true
      → Inv r
      → Chains lo rep_lo r s
      → Chained lo (scopes t.mods) t.line × Chained rep_lo (rep_scopes t.mods) t.repline
  unfolding reduce_loop
  reduce_loop-chain r t [] run k v h =
      let same : r ≡ t = ground arith in
      subst
        (λ (x : Reducer).
          Chained lo (scopes x.mods) x.line × Chained rep_lo (rep_scopes x.mods) x.repline)
        same (h.old, h.new)
  reduce_loop-chain r t (c ∷ rest) run k v h =
      let (s, step, st) = reduce_step_lem r c rest (ground arith) v in
      let (old, new) = chains s st in
      reduce_loop-chain s t rest (rw (step, reduce_loop) at run) (ground arith) st.inv (record {
        old = old;
        new = new;
        room = omega (arith, h.room, st.old_exact (omega (arith, h.room)));
        rep_room = omega (arith, h.rep_room, st.new_exact (omega (arith, h.rep_room)));
      })
    where
      chains :
          (s : Reducer)
          → Stepped r c rest s
          → Chained lo (scopes s.mods) s.line × Chained rep_lo (rep_scopes s.mods) s.repline
      chains s st = elim st.effect [
        | inl kept ↦ Kept-chain r s c rest kept h
        | inr (_, into, merged) ↦ MergedBy-chain r s c rest merged into h
      ]
