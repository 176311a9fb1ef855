-- ===== src/Mapper/Target/Sorting.antt =====
-- What sorting by insertion keeps, and the order that it leaves.
use perfscope.Base.{
  suc, ◌≡◌, refl, ap, ◌∙◌, inl, inr, Bool, true, false, List, [], ◌∷◌, All, Bool-cases, length,
}
use mathlib.Core.List.{Perm}
use mathlib.Core.List.Perm
use perfscope.Mapper.Target.{insert_by, sort_by}

-- Neighbours do not stand the wrong way round.
module _ {ℓ} {A : Type ℓ} (before : A → A → Bool) where
  abbrev pub Ordered : List A → Type 0
  Ordered [] = Unit {0}
  Ordered (x ∷ []) = Unit {0}
  Ordered (x ∷ y ∷ ys) = (before y x ≡ false) × Ordered (y ∷ ys)

  length-insert_by : (x : A) (xs : List A) → length (insert_by before x xs) ≡ suc (length xs)
  unfolding insert_by
  length-insert_by x [] = refl
  length-insert_by x (y ∷ ys) = elim (Bool-cases (before y x)) [
    | inl e ↦ rw e (ap suc (length-insert_by x ys))
    | inr e ↦ rw e refl
  ]

  pub length-sort_by : (xs : List A) → length (sort_by before xs) ≡ length xs
  unfolding sort_by
  length-sort_by [] = refl
  length-sort_by (x ∷ xs) = length-insert_by x (sort_by before xs) ∙ ap suc (length-sort_by xs)

module _ {ℓ} {A : Type ℓ} (before : A → A → Bool) where
  insert_by-perm : (x : A) (xs : List A) → Perm (insert_by before x xs) (x ∷ xs)
  unfolding insert_by
  insert_by-perm x [] = Perm.rfl
  insert_by-perm x (y ∷ ys) = elim (Bool-cases (before y x)) [
    | inl e ↦ rw e (Perm.trans (Perm.cons y (insert_by-perm x ys)) (Perm.swap x y ys))
    | inr e ↦ rw e Perm.rfl
  ]

  pub sort_by-perm : (xs : List A) → Perm (sort_by before xs) xs
  unfolding sort_by
  sort_by-perm [] = Perm.rfl
  sort_by-perm (x ∷ xs) =
      Perm.trans (insert_by-perm x (sort_by before xs)) (Perm.cons x (sort_by-perm xs))

module _ {ℓ κ} {A : Type ℓ} (before : A → A → Bool) (P : A → Type κ) where
  insert_by-All : (x : A) (xs : List A) → P x → All P xs → All P (insert_by before x xs)
  unfolding insert_by
  insert_by-All x [] h w = (h, w)
  insert_by-All x (y ∷ ys) h w = elim (Bool-cases (before y x)) [
    | inl e ↦ rw e (w.0, insert_by-All x ys h w.1)
    | inr e ↦ rw e (h, w)
  ]

  pub sort_by-All : (xs : List A) → All P xs → All P (sort_by before xs)
  unfolding sort_by
  sort_by-All [] w = tt
  sort_by-All (x ∷ xs) w = insert_by-All x (sort_by before xs) w.0 (sort_by-All xs w.1)

  module _ (asym : (a b : A) → P a → P b → before a b ≡ true → before b a ≡ false) where
    insert_by-Ordered :
        (x : A) (xs : List A)
        → P x
        → All P xs
        → Ordered before xs
        → Ordered before (insert_by before x xs)
    unfolding insert_by
    insert_by-Ordered x [] h w o = tt
    insert_by-Ordered x (y ∷ []) h w o = elim (Bool-cases (before y x)) [
      | inl e ↦ rw e (asym y x w.0 h e, tt)
      | inr e ↦ rw e (e, tt)
    ]
    insert_by-Ordered x (y ∷ z ∷ zs) h w o = elim (Bool-cases (before y x)) [
      | inr e ↦ rw e (e, o)
      | inl e ↦
          let rest = insert_by-Ordered x (z ∷ zs) h w.1 o.1 in
          elim (Bool-cases (before z x)) [
            | inl f ↦ rw (e, f) (o.0, rw (insert_by, f) at rest)
            | inr f ↦ rw (e, f) (asym y x w.0 h e, rw (insert_by, f) at rest)
          ]
    ]

    pub sort_by-Ordered : (xs : List A) → All P xs → Ordered before (sort_by before xs)
    unfolding sort_by
    sort_by-Ordered [] w = tt
    sort_by-Ordered (x ∷ xs) w =
        insert_by-Ordered x (sort_by before xs) w.0 (sort_by-All xs w.1) (sort_by-Ordered xs w.1)
