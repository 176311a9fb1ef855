-- ===== src/Dependence/Pdg/Slice.antt =====
-- The slicer gives the instructions that its instruction depends on, each of them once.
use perfscope.Base.{
  ℕ, ◌≤◌, ◌≡◌, refl, sym, ap, subst, ◌⊎◌, inl, inr, Bool, true, false, List, [], ◌∷◌, map, Option,
  none, some, arith, ◌==◌, Bool-cases, In, length, contains,
}
use perfscope.Dependence.Reach.{
  Reached, first, behind, AllReached, Gives, Advances, ended, given, contains_head, contains_cons,
  search_rule,
}
use perfscope.Dependence.Pdg.{PdgSlicer, add_to_slice_stack, slice_init, slice_next}
use perfscope.Dependence.Pdg.Stack.{Stacked, begun-Stacked, Added, add-Added}

-- What a node leads to. A missing node leads nowhere.
abbrev pub sinks : (ℕ → Option (List ℕ)) → ℕ → List ℕ
sinks out_deps n = elim (out_deps n) [ none ↦ [] | some is ↦ is ]

abbrev pub pdg_next : (ℕ → Option (List ℕ)) → ℕ → List (Option ℕ)
pdg_next out_deps n = map some (sinks out_deps n)

In-map_some : (n : ℕ) (is : List ℕ) → In (some n) (map some is) → In n is
In-map_some n [] i = absurd i
In-map_some n (k ∷ is) (inl e) = inl (cc e)
In-map_some n (k ∷ is) (inr i) = inr (In-map_some n is i)

map_some-In : (n : ℕ) (is : List ℕ) → In n is → In (some n) (map some is)
map_some-In n [] i = absurd i
map_some-In n (k ∷ is) (inl e) = inl (cc e)
map_some-In n (k ∷ is) (inr i) = inr (map_some-In n is i)

-- An instruction that the slicer gives, until it gives a null.
abbrev pub pdg_step : (ℕ → Option (List ℕ)) → PdgSlicer → Option (ℕ × PdgSlicer)
pdg_step out_deps s =
    let r = slice_next out_deps s in elim (r.1) [ none ↦ none | some i ↦ some (i, r.0) ]

module _ (out_deps : ℕ → Option (List ℕ)) (start : ℕ) where
  abbrev at : List ℕ → List ℕ → PdgSlicer
  at stack visited = record { slice_stack = stack; visited_instr = visited; slice_inited = true }

  -- The dependences of what was given are visited.
  abbrev Closed : List ℕ → List ℕ → Type 0
  Closed out visited =
      (v : ℕ)
      → (v ≡ start) ⊎ (contains out v ≡ true)
      → (n : ℕ) → In n (sinks out_deps v)
      → contains visited n ≡ true

  abbrev Slicing : List ℕ → PdgSlicer → Type 0
  Slicing out s =
      (s.slice_inited ≡ true) × Stacked (pdg_next out_deps) start out s × Closed out s.visited_instr

  all_visited :
      (out visited : List ℕ)
      → Stacked (pdg_next out_deps) start out (at [] visited)
      → Closed out visited
      → (n : ℕ) → Reached (pdg_next out_deps) start n
      → contains out n ≡ true
  all_visited out visited w closed n (first i) =
      given_when_visited n (closed start (inl refl) n (In-map_some n (sinks out_deps start) i))
    where
      given_when_visited : (n : ℕ) → contains visited n ≡ true → contains out n ≡ true
      given_when_visited n c = elim (w.split n c) [ inl o ↦ o | inr o ↦ absurd (cc o) ]
  all_visited out visited w closed n (behind {m = m} r i) =
      elim (w.split n (
        closed m (inr (all_visited out visited w closed m r)) n
          (In-map_some n (sinks out_deps m) i))) [ inl o ↦ o | inr o ↦ absurd (cc o) ]

  popped-Stacked :
      (out : List ℕ) (i : ℕ) (stack visited : List ℕ)
      → Stacked (pdg_next out_deps) start out (at (i ∷ stack) visited)
      → Stacked (pdg_next out_deps) start (i ∷ out) (at stack visited)
  popped-Stacked out i stack visited w = record {
    sound = w.sound;
    split = λ n c. elim (w.split n c) [
      | inl o ↦ inl (contains_cons i n out o)
      | inr o ↦ elim (Bool-cases (n == i)) [ inl t ↦ inl (rw t refl) | inr t ↦ inr (rw t at o) ]
    ];
    gone = λ n c. elim (Bool-cases (n == i)) [
      | inl t ↦
          let same : i ≡ n = ground (arith, t) in
          subst (λ k. contains visited k ≡ true) same ((w.waits i (contains_head i stack)).0)
      | inr t ↦ w.gone n (rw t at c)
    ];
    waits = λ n c.
        let old = w.waits n (contains_cons i n stack c) in
        (
          old.0,
          elim (Bool-cases (n == i)) [
            | inl t ↦
                let same : n ≡ i = ground (arith, t) in
                let back : contains stack i ≡ true = subst (λ k. contains stack k ≡ true) same c in
                absurd (cc (back, w.once.0))
            | inr t ↦ rw (t, old.1) refl
          ],
        );
    once = w.once.1;
  }

  popped_added :
      (i : ℕ) (s : PdgSlicer)
      → ◌≡◌ {A = PdgSlicer}
          (elim (out_deps i) [ none ↦ s | some is ↦ add_to_slice_stack is s ])
          (add_to_slice_stack (sinks out_deps i) s)
  unfolding add_to_slice_stack
  popped_added i s = go (out_deps i)
    where
      go :
          (found : Option (List ℕ))
          → ◌≡◌ {A = PdgSlicer}
              (elim found [ none ↦ s | some is ↦ add_to_slice_stack is s ])
              (add_to_slice_stack (elim found [ none ↦ [] | some is ↦ is ]) s)
      go none = refl
      go (some is) = refl

  Closed-given :
      (out : List ℕ) (i : ℕ) (s s' : PdgSlicer)
      → Added (pdg_next out_deps) start (i ∷ out) (sinks out_deps i) s s'
      → Closed out s.visited_instr
      → Closed (i ∷ out) s'.visited_instr
  Closed-given out i s s' a closed v (inl e) n j = a.kept n (closed v (inl e) n j)
  Closed-given out i s s' a closed v (inr c) n j = elim (Bool-cases (v == i)) [
    | inl t ↦
        let same : v ≡ i = ground (arith, t) in
        a.added n (subst (λ k. In n (sinks out_deps k)) same j)
    | inr t ↦ a.kept n (closed v (inr (rw t at c)) n j)
  ]

  given-Slicing :
      (out : List ℕ) (i : ℕ) (stack visited : List ℕ)
      → Stacked (pdg_next out_deps) start out (at (i ∷ stack) visited)
      → Closed out visited
      → (contains out i ≡ false)
        × Reached (pdg_next out_deps) start i
        × Slicing (i ∷ out) (add_to_slice_stack (sinks out_deps i) (at stack visited))
  given-Slicing out i stack visited w closed =
      let here = w.waits i (contains_head i stack) in
      let reached = w.sound i (here.0) in
      let a =
        add-Added (pdg_next out_deps) start (i ∷ out) (sinks out_deps i) (at stack visited)
          (λ n j. behind reached (map_some-In n (sinks out_deps i) j))
          (popped-Stacked out i stack visited w) in
      (
        here.1,
        reached,
        (
          a.inited,
          a.stacked,
          Closed-given out i (at stack visited)
              (add_to_slice_stack (sinks out_deps i) (at stack visited)) a closed,
        ),
      )

  slice_next-Advances :
      (out stack visited : List ℕ)
      → Stacked (pdg_next out_deps) start out (at stack visited)
      → Closed out visited
      → Advances (pdg_next out_deps) start Slicing out (pdg_step out_deps (at stack visited))
  unfolding slice_next
  slice_next-Advances out [] visited w closed = ended (all_visited out visited w closed)
  slice_next-Advances out (i ∷ stack) visited w closed =
      let (fresh, reached, rest) = given-Slicing out i stack visited w closed in
      given fresh reached (subst (Slicing (i ∷ out)) (sym (popped_added i (at stack visited))) rest)

  pdg_step-Advances :
      (out : List ℕ) (s : PdgSlicer)
      → Slicing out s
      → Advances (pdg_next out_deps) start Slicing out (pdg_step out_deps s)
  pdg_step-Advances out s (inited, w, closed) =
      let same : s ≡ at s.slice_stack s.visited_instr =
        ap (λ (b : Bool). record s { slice_inited = b }) inited in
      subst (λ k. Advances (pdg_next out_deps) start Slicing out (pdg_step out_deps k)) (sym same)
        (slice_next-Advances out s.slice_stack s.visited_instr
          (subst (Stacked (pdg_next out_deps) start out) same w) closed)

  sinks_known : (n : ℕ) (is : List ℕ) → out_deps n ≡ some is → sinks out_deps n ≡ is
  sinks_known n is e = ap (λ (found : Option (List ℕ)). elim found [ none ↦ [] | some is ↦ is ]) e

  -- For an instruction that has a node, sliceInit succeeds on a slicer in any state, and the calls of
  -- sliceNext behind it give each instruction that a path of one dependence or more leads to, once,
  -- and nothing else, and then a null, in no more calls than instructions are listed and one more.
  pub slice_next-AllReached :
      (nodes is : List ℕ) (s : PdgSlicer)
      → out_deps start ≡ some is
      → ((n : ℕ) → Reached (pdg_next out_deps) start n → contains nodes n ≡ true)
      → (s' : PdgSlicer) × (xs : List ℕ) × (slice_init out_deps start s ≡ (s', true))
        × Gives (pdg_step out_deps) s' xs
        × AllReached (pdg_next out_deps) start xs
        × (length xs ≤ length nodes)
  unfolding slice_init
  slice_next-AllReached nodes is s known listed =
      let empty = record s { slice_stack = []; visited_instr = [] } in
      let a =
        add-Added (pdg_next out_deps) start [] is empty
          (λ n j. first (
            map_some-In n (sinks out_deps start)
              (subst (λ ks. In n ks) (sym (sinks_known start is known)) j)))
          (record {
            sound = λ n c. absurd (cc c);
            split = λ n c. absurd (cc c);
            gone = λ n c. absurd (cc c);
            waits = λ n c. absurd (cc c);
            once = tt;
          }) in
      let ready = record (add_to_slice_stack is empty) { slice_inited = true } in
      let (xs, gives, is_slice, short) =
        search_rule (pdg_step out_deps) (pdg_next out_deps) start nodes Slicing pdg_step-Advances
          listed ready
          (
            refl,
            begun-Stacked (pdg_next out_deps) start [] (add_to_slice_stack is empty) a.stacked,
            λ v come n j. elim come [
              | inl e ↦
                  let j' = subst (λ k. In n (sinks out_deps k)) e j in
                  a.added n (subst (λ ks. In n ks) (sinks_known start is known) j')
              | inr c ↦ absurd (cc c)
            ],
          ) in
      (ready, xs, rw (slice_init, known) refl, gives, is_slice, short)
