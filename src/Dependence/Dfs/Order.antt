-- ===== src/Dependence/Dfs/Order.antt =====
-- The iterator in depth gives the nodes that it reaches, each of them once.
use perfscope.Base.{
  ℕ, ◌≤◌, ◌≡◌, refl, sym, subst, ◌⊎◌, inl, inr, Bool, true, false, List, [], ◌∷◌, map, Option, none,
  some, arith, ◌==◌, Bool-cases, Option-cases, In, All, All-weaken, length, contains,
}
use perfscope.Dependence.Reach.{
  Reached, first, behind, AllReached, Gives, Advances, ended, given, contains_head, contains_cons,
  search_rule,
}
use perfscope.Dependence.Dfs.{
  Neighbors, neighbors_of, Entry, DfsIter, dfs_begin, first_unvisited, position, next_entry,
  dfs_next, dfs_node,
}
use perfscope.Dependence.Dfs.First.{IsFirst, first_unvisited-none, first_unvisited-IsFirst}

module _ (next : ℕ → List (Option ℕ)) (s : ℕ) where
  -- A node that the search has come to.
  abbrev Entered : List ℕ → ℕ → Type 0
  Entered visited v = (v ≡ s) ⊎ (contains visited v ≡ true)

  -- The neighbors in front of the position of an entry are visited.
  record Waiting (visited : List ℕ) (e : Entry) : Type 0 where
    entered : Entered visited e.node
    passed :
        (n : ℕ)
        → In (some n) (next e.node)
        → (contains visited n ≡ true) ⊎ In (some n) (position next e)
    among : (n : ℕ) → In (some n) (position next e) → In (some n) (next e.node)

  -- The neighbors of a node are all visited.
  abbrev Left : List ℕ → ℕ → Type 0
  Left visited v = (n : ℕ) → In (some n) (next v) → contains visited n ≡ true

  record Searching (visited : List ℕ) (es : List Entry) : Type 0 where
    sound : (n : ℕ) → contains visited n ≡ true → Reached next s n
    waiting : All (Waiting visited) es
    settled : (v : ℕ) → Entered visited v → In v (map (λ (e : Entry). e.node) es) ⊎ Left visited v

  Entered-cons : (visited : List ℕ) (n v : ℕ) → Entered visited v → Entered (n ∷ visited) v
  Entered-cons visited n v (inl e) = inl e
  Entered-cons visited n v (inr i) = inr (contains_cons n v visited i)

  Waiting-cons :
      (visited : List ℕ) (n : ℕ) (e : Entry) → Waiting visited e → Waiting (n ∷ visited) e
  Waiting-cons visited n e w = record {
    entered = Entered-cons visited n e.node w.entered;
    passed =
        λ m i. elim (w.passed m i) [ inl v ↦ inl (contains_cons n m visited v) | inr j ↦ inr j ];
    among = w.among;
  }

  entry_neighbor :
      (visited : List ℕ) (v n : ℕ)
      → ((m : ℕ) → contains visited m ≡ true → Reached next s m)
      → Entered visited v
      → In (some n) (next v)
      → Reached next s n
  entry_neighbor visited v n sound (inl e) i = first (subst (λ k. In (some n) (next k)) e i)
  entry_neighbor visited v n sound (inr c) i = behind (sound v c) i

  all_reached :
      (visited : List ℕ)
      → Searching visited []
      → (n : ℕ) → Reached next s n
      → contains visited n ≡ true
  all_reached visited w n (first i) = elim (w.settled s (inl refl)) [
    | inl j ↦ absurd j
    | inr left ↦ left n i
  ]
  all_reached visited w n (behind {m = m} r i) =
      elim (w.settled m (inr (all_reached visited w m r))) [
        | inl j ↦ absurd j
        | inr left ↦ left n i
      ]

  popped-Searching :
      (visited : List ℕ) (e : Entry) (es : List Entry)
      → first_unvisited visited (position next e) ≡ none
      → Searching visited (e ∷ es)
      → Searching visited es
  popped-Searching visited e es none_left w = record {
    sound = w.sound;
    waiting = w.waiting.1;
    settled = λ v entered. elim (w.settled v entered) [
      | inl (inl at_top) ↦ inr (λ n i.
          let i' = subst (λ k. In (some n) (next k)) at_top i in
          elim (w.waiting.0.passed n i') [
            | inl c ↦ c
            | inr j ↦ first_unvisited-none visited (position next e) n none_left j
          ])
      | inl (inr below) ↦ inl below
      | inr left ↦ inr left
    ];
  }

  pushed-Searching :
      (visited : List ℕ) (e : Entry) (es : List Entry) (n : ℕ) (left : List (Option ℕ))
      → IsFirst visited (position next e) n left
      → Searching visited (e ∷ es)
      → Reached next s n
        × Searching (n ∷ visited) (
            record { node = n; started = false; left = next n }
            ∷ record e { started = true; left = left }
            ∷ es)
  pushed-Searching visited e es n left f w =
      let top = w.waiting.0 in
      let reached = entry_neighbor visited e.node n w.sound top.entered (top.among n f.inside) in
      (
        reached,
        record {
          sound = λ m c. elim (Bool-cases (m == n)) [
            | inl t ↦ let same : n ≡ m = ground (arith, t) in subst (Reached next s) same reached
            | inr t ↦ w.sound m (rw t at c)
          ];
          waiting = (
            record {
              entered = inr (contains_head n visited);
              passed = λ m i. inr i;
              among = λ m i. i;
            },
            (
              record {
                entered = Entered-cons visited n e.node top.entered;
                passed = λ m i. elim (top.passed m i) [
                  | inl c ↦ inl (contains_cons n m visited c)
                  | inr j ↦ elim (f.passed m j) [
                    | inl c ↦ inl (contains_cons n m visited c)
                    | inr k ↦ inr k
                  ]
                ];
                among = λ m i. top.among m (f.among m i);
              },
              All-weaken (Waiting visited) es (Waiting-cons visited n) w.waiting.1,
            ),
          );
          settled = λ v entered. elim (Bool-cases (v == n)) [
            | inl t ↦ inl (inl (ground (arith, t)))
            | inr t ↦
                let old : Entered visited v = elim entered [
                  | inl at_start ↦ inl at_start
                  | inr c ↦ inr (rw t at c)
                ] in
                elim (w.settled v old) [
                  | inl on_stack ↦ inl (inr on_stack)
                  | inr gone ↦ inr (λ m i. contains_cons n m visited (gone m i))
                ]
          ];
        },
      )

  -- The stack and the nodes visited behind an increment.
  data Stepped (visited : List ℕ) : List Entry × List ℕ → Type 0 where
    drained :
        ((n : ℕ) → Reached next s n → contains visited n ≡ true) → Stepped visited ([], visited)
    pushed :
        {e : Entry} {es : List Entry}
        → contains visited e.node ≡ false
        → Reached next s e.node
        → Searching (e.node ∷ visited) (e ∷ es)
        → Stepped visited (e ∷ es, e.node ∷ visited)

  next_entry-Stepped :
      (visited : List ℕ) (es : List Entry)
      → Searching visited es
      → Stepped visited (next_entry next es visited)
  unfolding next_entry
  next_entry-Stepped visited [] w = drained (all_reached visited w)
  next_entry-Stepped visited (e ∷ es) w =
      elim (Option-cases (first_unvisited visited (position next e))) [
        | inl q ↦
            rw (next_entry, q) (next_entry-Stepped visited es (popped-Searching visited e es q w))
        | inr (found, q) ↦
            let f = first_unvisited-IsFirst visited (position next e) (found.0) (found.1) q in
            let more = pushed-Searching visited e es (found.0) (found.1) f w in
            rw (next_entry, q) (pushed f.fresh more.0 more.1)
      ]

  start-Searching : Searching [] (record { node = s; started = false; left = next s } ∷ [])
  start-Searching = record {
    sound = λ n c. absurd (cc c);
    waiting = (record { entered = inl refl; passed = λ n i. inr i; among = λ n i. i }, tt);
    settled = λ v entered. elim entered [ inl e ↦ inl (inl e) | inr c ↦ absurd (cc c) ];
  }

-- The node on top behind an increment, if there is one.
abbrev pub dfs_step : DfsIter → Option (ℕ × DfsIter)
dfs_step it = let it' = dfs_next it in elim (dfs_node it') [ none ↦ none | some n ↦ some (n, it') ]

module _ (graph : Neighbors) (in_visit : Bool) (s : ℕ) where
  abbrev on : List Entry → List ℕ → DfsIter
  on es visited = record { graph = graph; in_visit = in_visit; worklist = es; visited = visited }

  abbrev Inv : List ℕ → DfsIter → Type 0
  Inv out it =
      (es : List Entry) × (it ≡ on es out) × Searching (neighbors_of graph in_visit) s out es

  Stepped-Advances :
      (out : List ℕ) (r : List Entry × List ℕ)
      → Stepped (neighbors_of graph in_visit) s out r
      → Advances
          (neighbors_of graph in_visit)
          s
          Inv
          out
          (elim (dfs_node (on r.0 r.1)) [ none ↦ none | some n ↦ some (n, on r.0 r.1) ])
  Stepped-Advances out _ (drained all) = ended all
  Stepped-Advances out _ (pushed {e = e} {es = es} fresh r w) = given fresh r (e ∷ es, refl, w)

  dfs_step-Advances :
      (out : List ℕ) (it : DfsIter)
      → Inv out it
      → Advances (neighbors_of graph in_visit) s Inv out (dfs_step it)
  unfolding dfs_next
  dfs_step-Advances out it (es, same, w) =
      subst (λ i. Advances (neighbors_of graph in_visit) s Inv out (dfs_step i)) (sym same)
        (Stepped-Advances out (next_entry (neighbors_of graph in_visit) es out)
          (next_entry-Stepped (neighbors_of graph in_visit) s out es w))

  -- Where the nodes that a node leads to are listed, the increments of an iterator that begins at the
  -- node give every node that a path of one edge or more leads to, each once, and then come to an
  -- end, in no more increments than nodes are listed and one more.
  pub dfs_next-AllReached :
      (nodes : List ℕ)
      → ((n : ℕ) → Reached (neighbors_of graph in_visit) s n → contains nodes n ≡ true)
      → (xs : List ℕ) × Gives dfs_step (dfs_begin graph (some s) in_visit) xs
        × AllReached (neighbors_of graph in_visit) s xs
        × (length xs ≤ length nodes)
  dfs_next-AllReached nodes listed =
      search_rule dfs_step (neighbors_of graph in_visit) s nodes Inv dfs_step-Advances listed
        (dfs_begin graph (some s) in_visit)
        (
          record { node = s; started = false; left = neighbors_of graph in_visit s } ∷ [],
          refl,
          start-Searching (neighbors_of graph in_visit) s,
        )
