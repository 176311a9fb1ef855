-- ===== src/Dependence/Reach.antt =====
-- What the searches over dependences promise: the nodes that a path of one edge or more leads to, each
-- of them once. A search gives a node per step, and its rule is an invariant with the nodes given.
use perfscope.Base.{
  ℕ, zero, suc, ◌≤◌, ◌<◌, ◌≡◌, refl, subst, inl, inr, true, false, List, [], ◌∷◌, Option, none,
  some, arith, ◌==◌, Bool-cases, In, length, contains, unvisited, unvisited_visit,
}
use perfscope.Base.Visited.{Distinct}

-- A null successor leads nowhere.
pub data Reached (next : ℕ → List (Option ℕ)) (s : ℕ) : ℕ → Type 0 where
  first : {n : ℕ} → In (some n) (next s) → Reached next s n
  behind : {m n : ℕ} → Reached next s m → In (some n) (next m) → Reached next s n

-- The numbers in the list are those reached from `s`.
pub record AllReached (next : ℕ → List (Option ℕ)) (s : ℕ) (xs : List ℕ) : Type 0 where
  pub once : Distinct xs
  pub only : (n : ℕ) → contains xs n ≡ true → Reached next s n
  pub every : (n : ℕ) → Reached next s n → contains xs n ≡ true

module _ {S : Type 0} (step : S → Option (ℕ × S)) where
  -- The list of what a search gives until it has no more.
  abbrev pub Gives : S → List ℕ → Type 0
  Gives w [] = step w ≡ none
  Gives w (x ∷ xs) = (w' : S) × (step w ≡ some (x, w')) × Gives w' xs

-- A step gives a node that is reached and new, and the search ends when all are given.
pub data Advances {S : Type 0} (next : ℕ → List (Option ℕ)) (s : ℕ) (Inv : List ℕ → S → Type 0)
    (out : List ℕ) : Option (ℕ × S) → Type 0 where
  ended : ((n : ℕ) → Reached next s n → contains out n ≡ true) → Advances next s Inv out none
  given :
      {n : ℕ} {w : S}
      → contains out n ≡ false
      → Reached next s n
      → Inv (n ∷ out) w
      → Advances next s Inv out (some (n, w))

-- What is given behind `out`.
record Rest (next : ℕ → List (Option ℕ)) (s : ℕ) (out xs : List ℕ) : Type 0 where
  once : Distinct xs
  only : (n : ℕ) → contains xs n ≡ true → Reached next s n × (contains out n ≡ false)
  every : (n : ℕ) → Reached next s n → contains out n ≡ false → contains xs n ≡ true

pub contains_head : (x : ℕ) (xs : List ℕ) → contains (x ∷ xs) x ≡ true
contains_head x xs = ground arith

pub contains_cons : (x y : ℕ) (xs : List ℕ) → contains xs y ≡ true → contains (x ∷ xs) y ≡ true
contains_cons x y xs i = ground (arith, i)

pub not_in_cons : (x y : ℕ) (xs : List ℕ) → contains (x ∷ xs) y ≡ false → contains xs y ≡ false
not_in_cons x y xs i = ground (arith, i)

unvisited_nil : (nodes : List ℕ) → unvisited (λ n. 1) [] nodes ≡ length nodes
unvisited_nil [] = refl
unvisited_nil (n ∷ ns) = omega (arith, unvisited_nil ns)

module _ {S : Type 0} (step : S → Option (ℕ × S)) (next : ℕ → List (Option ℕ)) (s : ℕ)
    (nodes : List ℕ) (Inv : List ℕ → S → Type 0) where
  Rest-given :
      (n : ℕ) (out xs : List ℕ)
      → contains out n ≡ false
      → Reached next s n
      → Rest next s (n ∷ out) xs
      → Rest next s out (n ∷ xs)
  Rest-given n out xs fresh r rest = record {
    once = (
      elim (Bool-cases (contains xs n)) [
        | inl e ↦ absurd (cc ((rest.only n e).1, contains_head n out))
        | inr e ↦ e
      ],
      rest.once,
    );
    only = λ m i. elim (Bool-cases (m == n)) [
      | inl e ↦
          let same : n ≡ m = ground (arith, e) in
          subst (λ k. Reached next s k × (contains out k ≡ false)) same (r, fresh)
      | inr e ↦ let old = rest.only m (rw e at i) in (old.0, not_in_cons n m out old.1)
    ];
    every = λ m q i. elim (Bool-cases (m == n)) [
      | inl e ↦ rw e refl
      | inr e ↦ rw e (rest.every m q (rw (e, i) refl))
    ];
  }

  abbrev Found : List ℕ → S → Type 0
  Found out w =
      (xs : List ℕ) × Gives step w xs
      × Rest next s out xs
      × (length xs ≤ unvisited (λ n. 1) out nodes)

  found_more :
      (out : List ℕ) (w : S) (n : ℕ) (w' : S)
      → step w ≡ some (n, w')
      → contains nodes n ≡ true
      → contains out n ≡ false
      → Reached next s n
      → Found (n ∷ out) w'
      → Found out w
  found_more out w n w' e listed fresh r (xs, gives, rest, short) = (
    n ∷ xs,
    (w', e, gives),
    Rest-given n out xs fresh r rest,
    omega (arith, unvisited_visit (λ k. 1) out n nodes listed fresh),
  )

  module _ (laws : (out : List ℕ) (w : S) → Inv out w → Advances next s Inv out (step w))
      (listed : (n : ℕ) → Reached next s n → contains nodes n ≡ true) where
    advance :
        (out : List ℕ) (w : S) (a : Option (ℕ × S))
        → ((n : ℕ) (w' : S)
            → contains out n ≡ false
            → Reached next s n
            → Inv (n ∷ out) w'
            → Found (n ∷ out) w')
        → step w ≡ a
        → Advances next s Inv out a
        → Found out w
    advance out w none again e (ended all) = (
      [],
      e,
      record { once = tt; only = λ n i. absurd (cc i); every = λ n r i. absurd (cc (all n r, i)) },
      omega arith,
    )
    advance out w (some (n, w')) again e (given fresh r i) =
        found_more out w n w' e (listed n r) fresh r (again n w' fresh r i)

    search_from :
        (bound : ℕ) (out : List ℕ) (w : S)
        → unvisited (λ n. 1) out nodes < bound
        → Inv out w
        → Found out w
    search_from zero out w small i = absurd (omega arith)
    search_from (suc bound) out w small i =
        advance out w (step w)
          (λ n w' fresh r i'.
            search_from bound (n ∷ out) w'
              (omega (arith, unvisited_visit (λ k. 1) out n nodes (listed n r) fresh)) i')
          refl (laws out w i)

    -- A search whose steps advance gives the nodes reached, each once, in no more steps than there are
    -- nodes.
    pub search_rule :
        (w : S)
        → Inv [] w
        → (xs : List ℕ) × Gives step w xs × AllReached next s xs × (length xs ≤ length nodes)
    search_rule w i =
        let (xs, gives, rest, short) =
          search_from (suc (unvisited (λ n. 1) [] nodes)) [] w (omega arith) i in
        (
          xs,
          gives,
          record {
            once = rest.once;
            only = λ n j. (rest.only n j).0;
            every = λ n r. rest.every n r refl;
          },
          omega (arith, unvisited_nil nodes),
        )
