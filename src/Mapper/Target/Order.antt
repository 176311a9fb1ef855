-- ===== src/Mapper/Target/Order.antt =====
-- The order of the subprograms: where it is one, and what sorting by it gives to matchFunction.
use perfscope.Base.{
  ℕ, ◌^◌, ◌<◌, ◌≡◌, refl, ◌∙◌, inl, inr, true, false, List, [], ◌∷◌, arith, All, Text, text_eq,
  text_eq_self, Bool-cases, ltb,
}
use perfscope.Analyzer.Profile.Order.{text_ltb_asym}
use perfscope.Mapper.Matcher.{Subprogram}
use perfscope.Mapper.Matcher.Overlaps.{Ascending}
use perfscope.Mapper.Target.{is_negative_difference, cmp_disp_copy, sort_by}
use perfscope.Mapper.Target.Sorting.{Ordered, sort_by-All, sort_by-Ordered}

-- Line numbers whose difference fits in an int.
abbrev pub IsSmall : Subprogram → Type 0
IsSmall s = s.linenumber < 2 ^ 31

pub is_negative_difference-ltb :
    (a b : ℕ) → a < 2 ^ 31 → b < 2 ^ 31 → is_negative_difference a b ≡ ltb a b
is_negative_difference-ltb a b h k = ground arith

text_eq_sym : (s t : Text) → text_eq s t ≡ text_eq t s
text_eq_sym [] [] = refl
text_eq_sym [] (b ∷ t) = refl
text_eq_sym (a ∷ s) [] = refl
text_eq_sym (a ∷ s) (b ∷ t) = ground (arith, text_eq_sym s t)

-- Of two subprograms with small line numbers at most one stands before the other.
cmp_disp_copy_asym :
    (a b : Subprogram)
    → IsSmall a
    → IsSmall b
    → cmp_disp_copy a b ≡ true
    → cmp_disp_copy b a ≡ false
unfolding cmp_disp_copy
cmp_disp_copy_asym a b h k e = elim (Bool-cases (text_eq b.directory a.directory)) [
  | inr d ↦
      let d' = text_eq_sym a.directory b.directory ∙ d in
      rw d (text_ltb_asym a.directory b.directory (rw d' at e))
  | inl d ↦
      let d' = text_eq_sym a.directory b.directory ∙ d in
      elim (Bool-cases (text_eq b.filename a.filename)) [
        | inr f ↦
            let f' = text_eq_sym a.filename b.filename ∙ f in
            rw (d, f) (text_ltb_asym a.filename b.filename (rw (d', f') at e))
        | inl f ↦
            let f' = text_eq_sym a.filename b.filename ∙ f in
            rw (d, f) (ground (arith, rw (d', f') at e))
      ]
]

-- The subprogram is of the file, with a small line number.
abbrev pub IsIn : Text → Text → Subprogram → Type 0
IsIn directory filename s = (s.directory ≡ directory) × (s.filename ≡ filename) × IsSmall s

Ordered-Ascending :
    (directory filename : Text) (sps : List Subprogram)
    → All (IsIn directory filename) sps
    → Ordered cmp_disp_copy sps
    → Ascending sps
unfolding cmp_disp_copy
Ordered-Ascending d f [] w o = tt
Ordered-Ascending d f (x ∷ []) w o = tt
Ordered-Ascending d f (x ∷ y ∷ ys) w o =
    let same_directory : text_eq y.directory x.directory ≡ true =
      rw (w.0.0, w.1.0.0) (text_eq_self d) in
    let same_filename : text_eq y.filename x.filename ≡ true =
      rw (w.0.1, w.1.0.1) (text_eq_self f) in
    let compared = rw (same_directory, same_filename) at o.0 in
    (
      ground (arith, compared, w.0.2, w.1.0.2),
      omega (arith, w.1.0.2),
      Ordered-Ascending d f (y ∷ ys) w.1 o.1,
    )

-- The subprograms of one file, with line numbers below 2^31, are sorted as matchFunction needs them:
-- the first lines never fall from one to the next, and all of them fit in 32 bits.
pub sort_by-Ascending :
    (directory filename : Text) (sps : List Subprogram)
    → All (IsIn directory filename) sps
    → Ascending (sort_by cmp_disp_copy sps)
sort_by-Ascending d f sps w =
    Ordered-Ascending d f (sort_by cmp_disp_copy sps) (sort_by-All cmp_disp_copy (IsIn d f) sps w)
      (sort_by-Ordered cmp_disp_copy (IsIn d f) (λ a b h k. cmp_disp_copy_asym a b h.2 k.2) sps w)
