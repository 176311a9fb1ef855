-- ===== src/Commons/Text/Strip.antt =====
-- stripname of lib/commons/handy.cc against the components of the name.
use perfscope.Base.{
  ℕ, zero, suc, ◌≡◌, refl, true, false, not, ◌&&◌, [], ◌∷◌, ◌++◌, Option, none, some, Text, arith,
  Bool-cases, inl, inr, ap, ◌∙◌, ◌⊎◌, ap₂, sym, subst, append_assoc,
}
use perfscope.Base.Int.{pos, negsuc}
use perfscope.Commons.Text.{is_slash, starts_slash, strip_loop, stripname}

-- The part behind the first run of slashes.
abbrev pub after_slash : Text → Option Text
after_slash [] = none
after_slash (c ∷ s) = elim (is_slash c && not (starts_slash s)) [
  | true ↦ some s
  | false ↦ after_slash s
]

-- At most `n` leading components taken off.
unfoldable pub drop_components : ℕ → Text → Text
drop_components zero s = s
drop_components (suc n) s = elim (after_slash s) [ none ↦ s | some t ↦ drop_components n t ]

strip_loop-pos :
    (k n : ℕ) (p s : Text)
    → strip_loop (pos k) p (pos (suc n)) s
      ≡ elim (after_slash s) [ none ↦ p | some t ↦ drop_components n t ]
unfolding strip_loop drop_components
strip_loop-pos k n p [] = refl
strip_loop-pos k zero p (c ∷ s) = ground (arith, strip_loop-pos k 0 p s)
strip_loop-pos k (suc n) p (c ∷ s) =
    ground (arith, strip_loop-pos k (suc n) p s, strip_loop-pos k n s s)

-- With a count of at least zero, `stripname` takes off that many leading components, each with the
-- run of slashes behind it, and stops at the last one when the name has fewer.
pub stripname-drop_components :
    (name : Text) (n : ℕ) → stripname name (pos n) ≡ drop_components n name
unfolding stripname drop_components
stripname-drop_components name zero = refl
stripname-drop_components name (suc n) = ground (arith, strip_loop-pos (suc n) n name name)

-- No character of the text is a slash.
abbrev pub HasNoSlash : Text → Type 0
HasNoSlash [] = Unit {0}
HasNoSlash (c ∷ s) = (is_slash c ≡ false) × HasNoSlash s

-- `t` is what stands behind the last slash of `s`, and all of `s` where it has none.
pub record BaseName (s t : Text) : Type 0 where
  pub before : Text
  pub splits : s ≡ before ++ t
  pub plain : HasNoSlash t
  pub at_slash : (before ≡ []) ⊎ ((q : Text) × (before ≡ q ++ b'/' ∷ []))

-- The loop with a negative count, from its current answer `p`.
pub strip_all : Text → Text → Text
strip_all p [] = p
strip_all p (c ∷ s) = elim (is_slash c && not (starts_slash s)) [
  | true ↦ strip_all s s
  | false ↦ strip_all p s
]

strip_loop-negsuc : (k n : ℕ) (p s : Text) → strip_loop (negsuc k) p (negsuc n) s ≡ strip_all p s
unfolding strip_loop strip_all
strip_loop-negsuc k n p [] = refl
strip_loop-negsuc k n p (c ∷ s) =
    ground (arith, strip_loop-negsuc k n p s, strip_loop-negsuc k n s s)

abbrev Stripped : Text → Text → Text → Type 0
Stripped p s t = (HasNoSlash s × (t ≡ p)) ⊎ ((q : Text) × (s ≡ q ++ b'/' ∷ t) × HasNoSlash t)

starts_slash_plain : (s : Text) → HasNoSlash s → starts_slash s ≡ false
starts_slash_plain [] h = refl
starts_slash_plain (c ∷ s) h = h.0

-- One more character before a text whose rest is stripped.
Stripped-cons :
    (c : ℕ) (p s t : Text)
    → (is_slash c ≡ false) ⊎ (starts_slash s ≡ true)
    → Stripped p s t
    → Stripped p (c ∷ s) t
Stripped-cons c p s t (inl e) (inl (plain, same)) = inl ((e, plain), same)
Stripped-cons c p s t (inr e) (inl (plain, same)) =
    absurd (ground (arith, starts_slash_plain s plain))
Stripped-cons c p s t e (inr (q, splits, plain)) = inr (c ∷ q, ap (◌∷◌ c) splits, plain)

strip_all-Stripped : (p s : Text) → Stripped p s (strip_all p s)
unfolding strip_all
strip_all-Stripped p [] = inl (tt, refl)
strip_all-Stripped p (c ∷ s) = elim (Bool-cases (is_slash c && not (starts_slash s))) [
  | inl e ↦ rw (e, strip_all) (last (strip_all-Stripped s s) (ground arith))
  | inr e ↦ rw (e, strip_all) (Stripped-cons c p s _ (ground arith) (strip_all-Stripped p s))
]
  where
    last : {t : Text} → Stripped s s t → c ≡ b'/' → Stripped p (c ∷ s) t
    last (inl (plain, same)) slash =
        inr ([], ap₂ ◌∷◌ slash (sym same), subst HasNoSlash (sym same) plain)
    last (inr (q, splits, plain)) slash = inr (c ∷ q, ap (◌∷◌ c) splits, plain)

-- With a negative count, `stripname` returns the part of the name behind its last slash, and the
-- whole name where it has none.
pub stripname-BaseName : (name : Text) (n : ℕ) → BaseName name (stripname name (negsuc n))
unfolding stripname
stripname-BaseName name n =
    rw (strip_loop-negsuc n n name name) (base (strip_all-Stripped name name))
  where
    base : {t : Text} → Stripped name name t → BaseName name t
    base (inl (plain, same)) = record {
      before = [];
      splits = sym same;
      plain = subst HasNoSlash (sym same) plain;
      at_slash = inl refl;
    }
    base {t} (inr (q, splits, plain)) = record {
      before = q ++ b'/' ∷ [];
      splits = splits ∙ sym (append_assoc q (b'/' ∷ []) t);
      plain = plain;
      at_slash = inr (q, refl);
    }
