-- ===== src/Commons/Text/Ends.antt =====
-- endswith, pendswith and src2obj of lib/commons/handy.cc against splittings of the text.
use perfscope.Base.{
  ℕ, ◌-◌, ◌≡◌, ◌≢◌, refl, sym, ap, subst, ◌∙◌, ◌↔◌, ◌⊎◌, inl, inr, true, false, List, [], ◌∷◌, ◌++◌,
  reverse, append_assoc, reverse-append, Option, none, some, arith, Text, text_eq→eq, text_eq_self,
  codes, ◌==◌, Bool-cases, length, take, drop, length-append, take-append-drop, get_or,
}
use perfscope.Commons.Text.{starts_slash, endswith, pendswith, suffixes, src2obj_from, src2obj}

drop-length_append : (p e : Text) → drop (length p) (p ++ e) ≡ e
drop-length_append [] e = refl
drop-length_append (c ∷ p) e = drop-length_append p e

drop_split : (p e : Text) → drop (length (p ++ e) - length e) (p ++ e) ≡ e
drop_split p e =
    let n : length (p ++ e) - length e ≡ length p = omega (arith, length-append p e) in
    rw n (drop-length_append p e)

take-length_append : (p e : Text) → take (length p) (p ++ e) ≡ p
take-length_append [] e = refl
take-length_append (c ∷ p) e = ap (◌∷◌ c) (take-length_append p e)

-- A text ends with another exactly when it is some text followed by that one.
pub endswith_iff : (s e : Text) → (endswith s e ≡ true) ↔ ((p : Text) × (s ≡ p ++ e))
unfolding endswith
endswith_iff s e = (found, λ (p, split). rw split (ends p))
  where
    found : endswith s e ≡ true → (p : Text) × (s ≡ p ++ e)
    found h =
        let n = length s - length e in
        let same : drop n s ≡ e = text_eq→eq (drop n s) e (ground arith) in
        (take n s, sym (take-append-drop n s) ∙ ap (◌++◌ (take n s)) same)

    ends : (p : Text) → endswith (p ++ e) e ≡ true
    ends p = ground (arith, length-append p e, drop_split p e, text_eq_self e)

-- The place where `e` begins, behind `p`, is the edge of a path component.
abbrev pub AtBoundary : Text → Text → Type 0
AtBoundary p e = (p ≡ []) ⊎ (starts_slash e ≡ true) ⊎ ((q : Text) × (p ≡ q ++ b'/' ∷ []))

snoc_cases : (p : Text) → (p ≡ []) ⊎ ((q : Text) × (c : ℕ) × (p ≡ q ++ c ∷ []))
snoc_cases [] = inl refl
snoc_cases (c ∷ p) = elim (snoc_cases p) [
  | inl e ↦ inr ([], c, ap (◌∷◌ c) e)
  | inr (q, d, e) ↦ inr (c ∷ q, d, ap (◌∷◌ c) e)
]

get_or-last : (q e : Text) (c : ℕ) → get_or ((q ++ c ∷ []) ++ e) (length q) 0 ≡ c
get_or-last [] e c = refl
get_or-last (d ∷ q) e c = get_or-last q e c

snoc_injective : (q r : Text) (c d : ℕ) → q ++ c ∷ [] ≡ r ++ d ∷ [] → c ≡ d
snoc_injective q r c d e =
    let rev : c ∷ reverse q ≡ d ∷ reverse r =
      sym (reverse-append q (c ∷ [])) ∙ ap reverse e ∙ reverse-append r (d ∷ []) in
    cc rev

pendswith-append :
    (p e : Text)
    → (p ≡ []) ⊎ ((q : Text) × (c : ℕ) × (p ≡ q ++ c ∷ []))
    → (pendswith (p ++ e) e ≡ true) ↔ AtBoundary p e
unfolding pendswith
pendswith-append p e (inl h) = (λ _. inl h, λ _. top)
  where
    top : pendswith (p ++ e) e ≡ true
    top = rw h (ground (arith, (endswith_iff e e).1 ([], refl)))
pendswith-append p e (inr (q, c, h)) = (there, back)
  where
    ends : endswith (p ++ e) e ≡ true
    ends = (endswith_iff (p ++ e) e).1 (p, refl)

    n : length (p ++ e) - length e - 1 ≡ length q
    n = omega (arith, length-append p e, ap length h, length-append q (c ∷ []))

    at : get_or (p ++ e) (length (p ++ e) - length e - 1) 0 ≡ c
    at = rw n (rw h (get_or-last q e c))

    longer : (length (p ++ e) == length e) ≡ false
    longer = ground (arith, length-append p e, ap length h, length-append q (c ∷ []))

    there : pendswith (p ++ e) e ≡ true → AtBoundary p e
    there w = elim (Bool-cases (starts_slash e)) [
      | inl s ↦ inr (inl s)
      | inr s ↦
          let slash : c ≡ b'/' = ground (arith, ends, at, longer) in
          inr (inr (q, h ∙ ap (λ x. q ++ x ∷ []) slash))
    ]

    back : AtBoundary p e → pendswith (p ++ e) e ≡ true
    back (inl z) = absurd (omega (arith, ap length z, ap length h, length-append q (c ∷ [])))
    back (inr (inl s)) = ground (arith, ends)
    back (inr (inr (r, z))) =
        let slash : c ≡ b'/' = snoc_injective q r c b'/' (sym h ∙ z) in ground (arith, ends, at)

-- A text ends with another as a path does exactly when it is that text behind some `p`, and `p` is
-- empty, or ends with a slash, or the ending begins with one.
pub pendswith_iff :
    (s e : Text) → (pendswith s e ≡ true) ↔ ((p : Text) × (s ≡ p ++ e) × AtBoundary p e)
unfolding pendswith
pendswith_iff s e = (
  λ h.
      let (p, split) = (endswith_iff s e).0 (ground arith) in
      (
        p,
        split,
        (pendswith-append p e (snoc_cases p)).0 (subst (λ t. pendswith t e ≡ true) split h),
      ),
  λ (p, split, edge). rw split ((pendswith-append p e (snoc_cases p)).1 edge),
)

-- The object name of a name: by the first of the suffixes that it ends with, the stem in front of that
-- suffix with `.o`, and none if it is no stem followed by a suffix.
abbrev pub Objects : List Text → Text → Option Text → Type 0
Objects [] name r = r ≡ none
Objects (suffix ∷ rest) name r =
    ((stem : Text) × (name ≡ stem ++ suffix) × (r ≡ some (stem ++ codes ".o")))
    ⊎ (((stem : Text) → name ≢ stem ++ suffix) × Objects rest name r)

abbrev endings : List (Text × ℕ) → List Text
endings [] = []
endings ((suffix, _) ∷ rest) = suffix ∷ endings rest

abbrev IsSuffixTable : List (Text × ℕ) → Type 0
IsSuffixTable [] = Unit {0}
IsSuffixTable ((suffix, slen) ∷ rest) =
    ((x : Text) × (suffix ≡ b'.' ∷ x) × (length x ≡ slen)) × IsSuffixTable rest

src2obj_from-Objects :
    (table : List (Text × ℕ)) (name : Text)
    → IsSuffixTable table
    → Objects (endings table) name (src2obj_from table name)
unfolding src2obj_from
src2obj_from-Objects [] name h = refl
src2obj_from-Objects ((suffix, slen) ∷ rest) name ((x, dot, n), h) =
    elim (Bool-cases (endswith name suffix)) [
      | inr e ↦ rw (e, src2obj_from) (inr (other e, src2obj_from-Objects rest name h))
      | inl e ↦
          let (stem, split) = (endswith_iff name suffix).0 e in
          rw (e, src2obj_from) (inl (stem, split, ap some (object stem split)))
    ]
  where
    other : endswith name suffix ≡ false → (stem : Text) → name ≢ stem ++ suffix
    other e stem split =
        let ends : endswith name suffix ≡ true = (endswith_iff name suffix).1 (stem, split) in
        absurd (ground (arith, e, ends))

    object :
        (stem : Text)
        → name ≡ stem ++ suffix
        → take (length name - slen) name ++ b'o' ∷ [] ≡ stem ++ codes ".o"
    object stem split =
        let whole : name ≡ (stem ++ b'.' ∷ []) ++ x =
          split ∙ ap (◌++◌ stem) dot ∙ sym (append_assoc stem (b'.' ∷ []) x) in
        let len : length name - slen ≡ length (stem ++ b'.' ∷ []) =
          omega (arith, ap length whole, length-append (stem ++ b'.' ∷ []) x) in
        rw (len, whole)
          (rw (take-length_append (stem ++ b'.' ∷ []) x)
            (append_assoc stem (b'.' ∷ []) (b'o' ∷ [])))

-- A name that ends with one of `.c`, `.cc`, `.cpp`, `.C` and `.hpp` gets its stem with `.o`, by the first
-- of them in this order, and a name that is no stem followed by one of them gets no object name.
pub src2obj-Objects :
    (name : Text)
    → Objects
        (codes ".c" ∷ codes ".cc" ∷ codes ".cpp" ∷ codes ".C" ∷ codes ".hpp" ∷ [])
        name
        (src2obj name)
unfolding src2obj
src2obj-Objects name = src2obj_from-Objects suffixes name (
  (codes "c", refl, refl),
  (
    (codes "cc", refl, refl),
    ((codes "cpp", refl, refl), ((codes "C", refl, refl), ((codes "hpp", refl, refl), tt))),
  ),
)
