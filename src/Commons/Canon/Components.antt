-- ===== src/Commons/Canon/Components.antt =====
-- The scan of `canonpath` for the next component finds the components of the name.
use perfscope.Base.{
  ℕ, ◌≤◌, ◌<◌, ◌≡◌, refl, sym, ap, ◌∙◌, ◌⊎◌, inl, inr, false, [], ◌∷◌, arith, Text, Bool-cases,
  length,
}
use perfscope.Commons.Text.{is_slash}
use perfscope.Commons.Text.Strip.{HasNoSlash}
use perfscope.Commons.Canon.{skip_slashes, component, after_component}
use perfscope.Commons.Canon.Spec.{components}

components-skip_slashes : (s : Text) → components (skip_slashes s) ≡ components s
components-skip_slashes [] = refl
components-skip_slashes (c ∷ s) = ground (arith, components-skip_slashes s)

-- A component and what follows it.
pub components_split :
    (c : ℕ) (s : Text)
    → is_slash c ≡ false
    → components (c ∷ s) ≡ (c ∷ component s) ∷ components (after_component s)
components_split c [] e = ground arith
components_split c (d ∷ s) e = ground (arith, components_split d s)

skip_slashes-head :
    (s : Text)
    → (skip_slashes s ≡ [])
      ⊎ ((c : ℕ) × (t : Text) × (skip_slashes s ≡ c ∷ t) × (is_slash c ≡ false))
skip_slashes-head [] = inl refl
skip_slashes-head (c ∷ s) = elim (Bool-cases (is_slash c)) [
  | inl e ↦ rw e (skip_slashes-head s)
  | inr e ↦ rw e (inr (c, s, refl, e))
]

length-skip_slashes : (s : Text) → length (skip_slashes s) ≤ length s
length-skip_slashes [] = omega arith
length-skip_slashes (c ∷ s) = ground (arith, length-skip_slashes s)

length-after_component : (s : Text) → length (after_component s) ≤ length s
length-after_component [] = omega arith
length-after_component (c ∷ s) = ground (arith, length-after_component s)

component-HasNoSlash : (s : Text) → HasNoSlash (component s)
component-HasNoSlash [] = tt
component-HasNoSlash (c ∷ s) = elim (Bool-cases (is_slash c)) [
  | inl e ↦ rw e tt
  | inr e ↦ rw e (e, component-HasNoSlash s)
]

-- What one look for a component finds.
pub data Found (name : Text) : Type 0 where
  no_more : component (skip_slashes name) ≡ [] → components name ≡ [] → Found name
  found :
      (c : ℕ) (cs : Text)
      → component (skip_slashes name) ≡ c ∷ cs
      → components name ≡ (c ∷ cs) ∷ components (after_component (skip_slashes name))
      → length (after_component (skip_slashes name)) < length name
      → HasNoSlash (c ∷ cs)
      → Found name

pub find_component : (name : Text) → Found name
find_component name = elim (skip_slashes-head name) [
  | inl e ↦ no_more (rw e refl) (sym (components-skip_slashes name) ∙ ap components e)
  | inr (c, t, e, plain) ↦
      let here : component (skip_slashes name) ≡ c ∷ component t = rw e (rw plain refl) in
      let there : after_component (skip_slashes name) ≡ after_component t = rw e (rw plain refl) in
      found c (component t) here
        (sym (components-skip_slashes name)
          ∙ ap components e
          ∙ components_split c t plain
          ∙ ap (λ x. (c ∷ component t) ∷ components x) (sym there))
        (omega
          (arith, ap length there, length-after_component t, ap length e, length-skip_slashes name))
        (plain, component-HasNoSlash t)
]
