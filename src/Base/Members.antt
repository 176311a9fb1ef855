-- ===== src/Base/Members.antt =====
-- The elements of a list, and what holds of all elements.
use mathlib.Core.Path.{◌≡◌, sym, subst}
use mathlib.Core.Logic.{◌⊎◌, inl, inr}
use mathlib.Core.List.{List, [], ◌∷◌, ◌++◌}
use perfscope.Base.Lists.{All}

abbrev pub In : {A : Type 0} → A → List A → Type 0
In v [] = ⊥
In v (x ∷ xs) = (v ≡ x) ⊎ In v xs

module _ {A : Type 0} (v : A) where
  pub In-left : (xs ys : List A) → In v xs → In v (xs ++ ys)
  In-left [] ys w = elim w [ ]
  In-left (x ∷ xs) ys (inl e) = inl e
  In-left (x ∷ xs) ys (inr w) = inr (In-left xs ys w)

  pub In-right : (xs ys : List A) → In v ys → In v (xs ++ ys)
  In-right [] ys w = w
  In-right (x ∷ xs) ys w = inr (In-right xs ys w)

module _ {ℓ κ} {A : Type ℓ} (P : A → Type κ) where
  pub All-both : (xs ys : List A) → All P xs → All P ys → All P (xs ++ ys)
  All-both [] ys v w = w
  All-both (x ∷ xs) ys v w = (v.0, All-both xs ys v.1 w)

  pub All-weaken {ι} : {Q : A → Type ι} (xs : List A) → ((a : A) → P a → Q a) → All P xs → All Q xs
  All-weaken [] f w = tt
  All-weaken (x ∷ xs) f w = (f x w.0, All-weaken xs f w.1)

module _ {κ} {A : Type 0} (P : A → Type κ) where
  pub All-In : (x : A) (xs : List A) → All P xs → In x xs → P x
  All-In x [] w i = elim i [ ]
  All-In x (y ∷ ys) w (inl e) = subst P (sym e) w.0
  All-In x (y ∷ ys) w (inr i) = All-In x ys w.1 i
