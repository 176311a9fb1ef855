-- ===== src/Analyzer/Profile/Search.antt =====
-- On a sorted vector std::binary_search finds exactly the elements.
use perfscope.Base.{
  ℕ, zero, suc, ◌+◌, ◌-◌, ◌≤◌, ◌<◌, ◌≡◌, refl, sym, ap, subst, ◌∙◌, inl, inr, Bool, true, false,
  not, List, [], ◌∷◌, some, arith, Text, text_eq, text_eq→eq, text_eq_self, ◌==◌, Bool-cases,
  length, drop, length-drop,
}
use perfscope.Base.{All, ◌/◌, get_elem?}
use perfscope.Analyzer.Profile.{text_ltb, lower_bound, binary_search, sort}
use perfscope.Analyzer.Profile.Order.{
  text_ltb_irrefl, text_ltb_total, NotBefore, IsSorted, All-mono, sort-IsSorted, contains,
  contains-sort,
}

head_test : List Text → Text → Bool
head_test [] v = false
head_test (x ∷ _) v = not (text_ltb v x)

before-ne : (x v : Text) → text_ltb x v ≡ true → text_eq x v ≡ false
before-ne x v h = elim (Bool-cases (text_eq x v)) [
  | inr e ↦ e
  | inl e ↦
      let same : x ≡ v = text_eq→eq x v e in
      absurd (ground (arith, text_ltb_irrefl v, subst (λ y. text_ltb y v ≡ true) same h))
]

contains_above :
    (v x : Text) (xs : List Text)
    → text_ltb v x ≡ true
    → All (NotBefore x) xs
    → contains xs v ≡ false
contains_above v x [] h a = refl
contains_above v x (y ∷ ys) h a = elim (Bool-cases (text_eq y v)) [
  | inr e ↦ rw e (contains_above v x ys h a.1)
  | inl e ↦ absurd (ground (arith, h, subst (NotBefore x) (text_eq→eq y v e) a.0))
]

contains-head_test :
    (xs : List Text) (v : Text)
    → IsSorted xs
    → All (NotBefore v) xs
    → contains xs v ≡ head_test xs v
unfolding head_test
contains-head_test [] v s a = refl
contains-head_test (x ∷ xs) v s a = elim (Bool-cases (text_ltb v x)) [
  | inl e ↦
      let other : text_eq x v ≡ false = elim (Bool-cases (text_eq x v)) [
        | inr f ↦ f
        | inl f ↦ absurd (
            ground (
              arith,
              text_ltb_irrefl x,
              subst (λ y. text_ltb y x ≡ true) (sym (text_eq→eq x v f)) e,
            ))
      ] in
      rw (e, other) (contains_above v x xs e s.0)
  | inr e ↦
      let same : x ≡ v = text_ltb_total x v a.0 e in
      let hit : text_eq x v ≡ true = subst (λ y. text_eq x y ≡ true) same (text_eq_self x) in
      rw (e, hit) refl
]

All-get {ℓ} :
    (P : Text → Type ℓ) (xs : List Text) (i : ℕ) (x : Text)
    → All P xs
    → get_elem? xs i ≡ some x
    → P x
All-get P [] i x a e = absurd (cc e)
All-get P (y ∷ ys) zero x a e = let same : y ≡ x = cc e in subst P same a.0
All-get P (y ∷ ys) (suc i) x a e = All-get P ys i x a.1 e

contains-drop :
    (xs : List Text) (v : Text) (i : ℕ) (x : Text)
    → IsSorted xs
    → get_elem? xs i ≡ some x
    → text_ltb x v ≡ true
    → contains xs v ≡ contains (drop (suc i) xs) v
contains-drop [] v i x s e h = absurd (cc e)
contains-drop (y ∷ ys) v zero x s e h =
    let same : y ≡ x = cc e in
    rw (before-ne y v (subst (λ z. text_ltb z v ≡ true) (sym same) h)) refl
contains-drop (y ∷ ys) v (suc i) x s e h =
    let low : NotBefore y x = All-get (NotBefore y) ys i x s.0 e in
    let other : text_eq y v ≡ false = elim (Bool-cases (text_eq y v)) [
      | inr f ↦ f
      | inl f ↦ absurd (ground (arith, h, subst (λ z. NotBefore z x) (text_eq→eq y v f) low))
    ] in
    rw other (contains-drop ys v i x s.1 e h)

drop_at_least :
    (xs : List Text) (v : Text) (i : ℕ) (x : Text)
    → IsSorted xs
    → get_elem? xs i ≡ some x
    → NotBefore v x
    → All (NotBefore v) (drop i xs)
drop_at_least [] v i x s e h = absurd (cc e)
drop_at_least (y ∷ ys) v zero x s e h =
    let same : x ≡ y = cc e in
    let k : NotBefore v y = subst (NotBefore v) same h in (k, All-mono v y ys k s.0)
drop_at_least (y ∷ ys) v (suc i) x s e h = drop_at_least ys v i x s.1 e h

drop-IsSorted : (xs : List Text) (n : ℕ) → IsSorted xs → IsSorted (drop n xs)
drop-IsSorted [] zero s = s
drop-IsSorted [] (suc n) s = s
drop-IsSorted (x ∷ xs) zero s = s
drop-IsSorted (x ∷ xs) (suc n) s = drop-IsSorted xs n s.1

drop-nil : (n : ℕ) → drop {A = Text} n [] ≡ []
drop-nil zero = refl
drop-nil (suc n) = refl

drop-drop : (xs : List Text) (a b : ℕ) → drop a (drop b xs) ≡ drop (b + a) xs
drop-drop xs a zero = let e : 0 + a ≡ a = omega arith in rw e refl
drop-drop [] a (suc b) = drop-nil a ∙ sym (drop-nil (suc b + a))
drop-drop (x ∷ xs) a (suc b) =
    let e : suc b + a ≡ suc (b + a) = omega arith in rw e (drop-drop xs a b)

drop-length : (xs : List Text) → drop (length xs) xs ≡ []
drop-length [] = refl
drop-length (x ∷ xs) = drop-length xs

get_elem?-lt : (xs : List Text) (i : ℕ) → i < length xs → (x : Text) × (get_elem? xs i ≡ some x)
get_elem?-lt [] i h = absurd (omega arith)
get_elem?-lt (x ∷ xs) zero h = (x, refl)
get_elem?-lt (x ∷ xs) (suc i) h = get_elem?-lt xs i (omega arith)

-- The halving keeps the question: the elements cut off on the left are before `v`, those on the
-- right are not.
lower_bound-contains :
    (fuel : ℕ) (first : List Text) (len : ℕ) (v : Text)
    → len < fuel
    → len ≤ length first
    → IsSorted first
    → All (NotBefore v) (drop len first)
    → contains first v ≡ head_test (lower_bound fuel first len v) v
unfolding lower_bound
lower_bound-contains zero first len v f l s a = absurd (omega arith)
lower_bound-contains (suc fuel) first len v f l s a = elim (Bool-cases (len == 0)) [
  | inl e ↦
      let z : len ≡ 0 = ground arith in
      rw e (contains-head_test first v s (subst (λ n. All (NotBefore v) (drop n first)) z a))
  | inr e ↦
      let half = len / 2 in
      let (x, at) = get_elem?-lt first half (ground arith) in
      elim (Bool-cases (text_ltb x v)) [
        | inl h ↦
            let same : drop (half + 1) first ≡ drop (suc half) first =
              (let e : half + 1 ≡ suc half = omega arith in ap (λ n. drop n first) e) in
            let behind : drop (len - half - 1) (drop (half + 1) first) ≡ drop len first =
              drop-drop first (len - half - 1) (half + 1)
              ∙ (let k : half + 1 + (len - half - 1) ≡ len = ground arith in
                  ap (λ n. drop n first) k) in
            let step : contains first v ≡ contains (drop (half + 1) first) v =
              contains-drop first v half x s at h ∙ ap (λ y. contains y v) (sym same) in
            rw (e, at, h)
              (step
                ∙ lower_bound-contains fuel (drop (half + 1) first) (len - half - 1) v
                    (ground arith) (ground (arith, length-drop (half + 1) first))
                    (drop-IsSorted first (half + 1) s) (subst (All (NotBefore v)) (sym behind) a))
        | inr h ↦
            rw (e, at, h)
              (lower_bound-contains fuel first half v (ground arith) (ground arith) s
                (drop_at_least first v half x s at h))
      ]
]

binary_search-head_test :
    (xs : List Text) (v : Text)
    → binary_search xs v ≡ head_test (lower_bound (length xs + 1) xs (length xs) v) v
unfolding binary_search head_test
binary_search-head_test xs v = go (lower_bound (length xs + 1) xs (length xs) v) refl
  where
    go :
        (ys : List Text)
        → lower_bound (length xs + 1) xs (length xs) v ≡ ys
        → binary_search xs v ≡ head_test (lower_bound (length xs + 1) xs (length xs) v) v
    go [] e = rw (e, binary_search) refl
    go (y ∷ ys) e = rw (e, binary_search) refl

-- On a vector that std::sort has sorted, the binary search for a name answers true exactly when
-- the name is an element of the vector before the sort.
pub binary_search-sort : (xs : List Text) (v : Text) → binary_search (sort xs) v ≡ contains xs v
binary_search-sort xs v =
    let ys = sort xs in
    binary_search-head_test ys v
    ∙ sym (
        lower_bound-contains (length ys + 1) ys (length ys) v (omega arith) (omega arith)
          (sort-IsSorted xs) (rw (drop-length ys) tt))
    ∙ contains-sort xs v
