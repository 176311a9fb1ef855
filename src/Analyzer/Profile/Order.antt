-- ===== src/Analyzer/Profile/Order.antt =====
-- The order of std::string is a strict total order, and std::sort keeps the elements and orders them.
use perfscope.Base.{
  ◌≡◌, refl, ap, ◌∙◌, inl, inr, Bool, true, false, ◌||◌, List, [], ◌∷◌, arith, Text, text_eq,
  Bool-cases,
}
use perfscope.Base.{All}
use perfscope.Analyzer.Profile.{text_ltb, insert_sorted, sort}

pub text_ltb_irrefl : (s : Text) → text_ltb s s ≡ false
text_ltb_irrefl [] = refl
text_ltb_irrefl (a ∷ s) = ground (arith, text_ltb_irrefl s)

pub text_ltb_trans :
    (s t u : Text) → text_ltb s t ≡ true → text_ltb t u ≡ true → text_ltb s u ≡ true
text_ltb_trans [] [] u h k = cc
text_ltb_trans [] (b ∷ t) [] h k = cc
text_ltb_trans [] (b ∷ t) (c ∷ u) h k = refl
text_ltb_trans (a ∷ s) [] u h k = cc
text_ltb_trans (a ∷ s) (b ∷ t) [] h k = cc
text_ltb_trans (a ∷ s) (b ∷ t) (c ∷ u) h k = ground (arith, text_ltb_trans s t u)

pub text_ltb_total : (s t : Text) → text_ltb s t ≡ false → text_ltb t s ≡ false → s ≡ t
text_ltb_total [] [] h k = refl
text_ltb_total [] (b ∷ t) h k = cc
text_ltb_total (a ∷ s) [] h k = cc
text_ltb_total (a ∷ s) (b ∷ t) h k = ground (arith, text_ltb_total s t)

pub text_ltb_asym : (s t : Text) → text_ltb s t ≡ true → text_ltb t s ≡ false
text_ltb_asym s t h = elim (Bool-cases (text_ltb t s)) [
  | inl e ↦ absurd (ground (arith, text_ltb_trans s t s, text_ltb_irrefl s))
  | inr e ↦ e
]

-- `x` does not stand behind `y`.
abbrev pub NotBefore : Text → Text → Type 0
NotBefore x y = text_ltb y x ≡ false

pub NotBefore-trans : (x y z : Text) → NotBefore x y → NotBefore y z → NotBefore x z
NotBefore-trans x y z h k = elim (Bool-cases (text_ltb z x)) [
  | inr e ↦ e
  | inl e ↦ elim (Bool-cases (text_ltb x y)) [
    | inl f ↦ absurd (ground (arith, text_ltb_trans z x y))
    | inr f ↦ let same : x ≡ y = text_ltb_total x y f h in absurd (ground (arith, same))
  ]
]

abbrev pub IsSorted : List Text → Type 0
IsSorted [] = Unit {0}
IsSorted (x ∷ xs) = All (NotBefore x) xs × IsSorted xs

All-insert_sorted :
    (z x : Text) (xs : List Text)
    → NotBefore z x
    → All (NotBefore z) xs
    → All (NotBefore z) (insert_sorted x xs)
unfolding insert_sorted
All-insert_sorted z x [] h a = (h, tt)
All-insert_sorted z x (y ∷ ys) h a = elim (Bool-cases (text_ltb y x)) [
  | inl e ↦ rw e (a.0, All-insert_sorted z x ys h a.1)
  | inr e ↦ rw e (h, a)
]

pub All-mono :
    (x y : Text) (ys : List Text) → NotBefore x y → All (NotBefore y) ys → All (NotBefore x) ys
All-mono x y [] h a = tt
All-mono x y (z ∷ zs) h a = (NotBefore-trans x y z h a.0, All-mono x y zs h a.1)

insert_sorted-IsSorted : (x : Text) (xs : List Text) → IsSorted xs → IsSorted (insert_sorted x xs)
unfolding insert_sorted
insert_sorted-IsSorted x [] h = (tt, tt)
insert_sorted-IsSorted x (y ∷ ys) h = elim (Bool-cases (text_ltb y x)) [
  | inl e ↦
      rw e (All-insert_sorted y x ys (text_ltb_asym y x e) h.0, insert_sorted-IsSorted x ys h.1)
  | inr e ↦ rw e ((e, All-mono x y ys e h.0), h)
]

pub sort-IsSorted : (xs : List Text) → IsSorted (sort xs)
unfolding sort
sort-IsSorted [] = tt
sort-IsSorted (x ∷ xs) = insert_sorted-IsSorted x (sort xs) (sort-IsSorted xs)

-- The text is an element.
abbrev pub contains : List Text → Text → Bool
contains [] v = false
contains (x ∷ xs) v = text_eq x v || contains xs v

contains-insert_sorted :
    (x : Text) (xs : List Text) (v : Text)
    → contains (insert_sorted x xs) v ≡ (text_eq x v || contains xs v)
unfolding insert_sorted
contains-insert_sorted x [] v = refl
contains-insert_sorted x (y ∷ ys) v = ground (arith, contains-insert_sorted x ys v)

pub contains-sort : (xs : List Text) (v : Text) → contains (sort xs) v ≡ contains xs v
unfolding sort
contains-sort [] v = refl
contains-sort (x ∷ xs) v =
    contains-insert_sorted x (sort xs) v ∙ ap (◌||◌ (text_eq x v)) (contains-sort xs v)
