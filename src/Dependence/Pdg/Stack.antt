-- ===== src/Dependence/Pdg/Stack.antt =====
-- What the stack of the slicer and the set of the visited instructions say of each other.
use perfscope.Base.{
  ℕ, ◌≡◌, refl, sym, ◌∙◌, subst, ◌⊎◌, inl, inr, true, false, List, [], ◌∷◌, Option, arith, ◌==◌,
  Bool-cases, In, contains,
}
use perfscope.Base.Visited.{Distinct}
use perfscope.Dependence.Reach.{Reached, contains_head, contains_cons}
use perfscope.Dependence.Pdg.{PdgSlicer, push_sink, add_to_slice_stack}

module _ (next : ℕ → List (Option ℕ)) (start : ℕ) where
  -- What is visited was given or is on the stack, and not both.
  pub record Stacked (out : List ℕ) (s : PdgSlicer) : Type 0 where
    pub sound : (n : ℕ) → contains s.visited_instr n ≡ true → Reached next start n
    pub split :
        (n : ℕ)
        → contains s.visited_instr n ≡ true
        → (contains out n ≡ true) ⊎ (contains s.slice_stack n ≡ true)
    pub gone : (n : ℕ) → contains out n ≡ true → contains s.visited_instr n ≡ true
    pub waits :
        (n : ℕ)
        → contains s.slice_stack n ≡ true
        → (contains s.visited_instr n ≡ true) × (contains out n ≡ false)
    pub once : Distinct s.slice_stack

  push_sink-Stacked :
      (out : List ℕ) (i : ℕ) (s : PdgSlicer)
      → Reached next start i
      → Stacked out s
      → Stacked out (push_sink i s)
  push_sink-Stacked out i s r w = elim (Bool-cases (contains s.visited_instr i)) [
    | inl e ↦ rw e w
    | inr e ↦
        let off_stack : contains s.slice_stack i ≡ false =
          elim (Bool-cases (contains s.slice_stack i)) [
            | inl c ↦ absurd (cc ((w.waits i c).0, e))
            | inr c ↦ c
          ] in
        let not_out : contains out i ≡ false = elim (Bool-cases (contains out i)) [
          | inl c ↦ absurd (cc (w.gone i c, e))
          | inr c ↦ c
        ] in
        rw e (record {
          sound = λ n c. elim (Bool-cases (n == i)) [
            | inl t ↦ let same : i ≡ n = ground (arith, t) in subst (Reached next start) same r
            | inr t ↦ w.sound n (rw t at c)
          ];
          split = λ n c. elim (Bool-cases (n == i)) [
            | inl t ↦ inr (rw t refl)
            | inr t ↦ elim (w.split n (rw t at c)) [
              | inl o ↦ inl o
              | inr o ↦ inr (contains_cons i n s.slice_stack o)
            ]
          ];
          gone = λ n c. contains_cons i n s.visited_instr (w.gone n c);
          waits = λ n c. elim (Bool-cases (n == i)) [
            | inl t ↦
                let same : i ≡ n = ground (arith, t) in
                (rw t refl, subst (λ k. contains out k ≡ false) same not_out)
            | inr t ↦
                let old = w.waits n (rw t at c) in
                (contains_cons i n s.visited_instr (old.0), old.1)
          ];
          once = (off_stack, w.once);
        })
  ]

  push_sink-visited :
      (i n : ℕ) (s : PdgSlicer)
      → (n ≡ i) ⊎ (contains s.visited_instr n ≡ true)
      → contains (push_sink i s).visited_instr n ≡ true
  push_sink-visited i n s c = elim (Bool-cases (contains s.visited_instr i)) [
    | inl e ↦ elim c [
      | inl same ↦ rw e (subst (λ k. contains s.visited_instr k ≡ true) (sym same) e)
      | inr old ↦ rw e old
    ]
    | inr e ↦ elim c [
      | inl same ↦ rw e (
          subst (λ k. contains (i ∷ s.visited_instr) k ≡ true) (sym same)
            (contains_head i s.visited_instr))
      | inr old ↦ rw e (contains_cons i n s.visited_instr old)
    ]
  ]

  pub begun-Stacked :
      (out : List ℕ) (s : PdgSlicer)
      → Stacked out s
      → Stacked out (record s { slice_inited = true })
  begun-Stacked out s w = record {
    sound = w.sound;
    split = w.split;
    gone = w.gone;
    waits = w.waits;
    once = w.once;
  }

  -- The dependences of a node are put on the stack.
  pub record Added (out is : List ℕ) (s s' : PdgSlicer) : Type 0 where
    pub stacked : Stacked out s'
    pub kept : (n : ℕ) → contains s.visited_instr n ≡ true → contains s'.visited_instr n ≡ true
    pub added : (n : ℕ) → In n is → contains s'.visited_instr n ≡ true
    pub inited : s'.slice_inited ≡ s.slice_inited

  push_sink_inited : (i : ℕ) (s : PdgSlicer) → (push_sink i s).slice_inited ≡ s.slice_inited
  push_sink_inited i s = elim (Bool-cases (contains s.visited_instr i)) [
    | inl e ↦ rw e refl
    | inr e ↦ rw e refl
  ]

  pub add-Added :
      (out is : List ℕ) (s : PdgSlicer)
      → ((n : ℕ) → In n is → Reached next start n)
      → Stacked out s
      → Added out is s (add_to_slice_stack is s)
  unfolding add_to_slice_stack
  add-Added out [] s r w = record {
    stacked = w;
    kept = λ n c. c;
    added = λ n i. absurd i;
    inited = refl;
  }
  add-Added out (i ∷ is) s r w =
      let rest =
        add-Added out is (push_sink i s) (λ n j. r n (inr j))
          (push_sink-Stacked out i s (r i (inl refl)) w) in
      record {
        stacked = rest.stacked;
        kept = λ n c. rest.kept n (push_sink-visited i n s (inr c));
        added = λ n j. elim j [
          | inl e ↦ rest.kept n (push_sink-visited i n s (inl e))
          | inr k ↦ rest.added n k
        ];
        inited = rest.inited ∙ push_sink_inited i s;
      }
