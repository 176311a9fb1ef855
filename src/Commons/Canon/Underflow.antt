-- ===== src/Commons/Canon/Underflow.antt =====
-- Names on which canonpath reads in front of its buffer.
use perfscope.Base.{
  ℕ, ◌≡◌, refl, ap, ap₂, subst, ◌∙◌, false, List, [], ◌∷◌, ◌++◌, arith, Text, text_eq, codes, ◌==◌,
}
use perfscope.Base.Result.{ok, err, ◌>>=◌}
use perfscope.Commons.Text.{is_slash}
use perfscope.Commons.Text.Strip.{HasNoSlash}
use perfscope.Commons.Canon.{
  underflow, own, dot, dot_dot, starts_dot_dot, component, after_component, canonpath,
}
use perfscope.Commons.Canon.Spec.{components, resolve, path_of, canonical}
use perfscope.Commons.Canon.Components.{components_split}
use perfscope.Commons.Canon.Refines.{canonpath-canonical}

after-slash : (w t : Text) → HasNoSlash w → after_component (w ++ b'/' ∷ t) ≡ b'/' ∷ t
after-slash [] t h = refl
after-slash (c ∷ w) t h = rw h.0 (after-slash w t h.1)

component-slash : (w t : Text) → HasNoSlash w → component (w ++ b'/' ∷ t) ≡ w
component-slash [] t h = refl
component-slash (c ∷ w) t h = rw h.0 (ap (◌∷◌ c) (component-slash w t h.1))

canonical_relative :
    (c : ℕ) (s : Text) (cs : List Text)
    → is_slash c ≡ false
    → starts_dot_dot (c ∷ s) ≡ false
    → components (c ∷ s) ≡ cs
    → canonical (c ∷ s) ≡ (resolve false [] cs >>= λ stack. ok (path_of false stack))
unfolding canonical
canonical_relative c s cs h k e =
    subst (λ x. canonical (c ∷ s) ≡ (resolve false [] x >>= λ stack. ok (path_of false stack))) e
      (rw (h, k) refl)

-- On a name that is a component, neither empty nor begun by a dot, and `/../..` behind it, `canonpath`
-- with a buffer of its own reads the character in front of that buffer.
pub canonpath_underflow :
    (c : ℕ) (w : Text)
    → HasNoSlash (c ∷ w)
    → (c == b'.') ≡ false
    → canonpath own (c ∷ (w ++ codes "/../..")) ≡ err underflow
canonpath_underflow c w h n =
    let split : components (c ∷ (w ++ codes "/../..")) ≡ (c ∷ w) ∷ dot_dot ∷ dot_dot ∷ [] =
      components_split c (w ++ codes "/../..") h.0
      ∙ ap₂ (λ x y. (c ∷ x) ∷ components y) (component-slash w (codes "../..") h.1)
          (after-slash w (codes "../..") h.1) in
    let d : text_eq (c ∷ w) dot ≡ false = ground arith in
    let up : text_eq (c ∷ w) dot_dot ≡ false = ground arith in
    let low : starts_dot_dot (c ∷ (w ++ codes "/../..")) ≡ false = first (w ++ codes "/../..") in
    canonpath-canonical _ ∙ canonical_relative c _ _ h.0 low split ∙ rw (d, up) refl
  where
    first : (t : Text) → starts_dot_dot (c ∷ t) ≡ false
    first [] = refl
    first (x ∷ t) = rw n refl
