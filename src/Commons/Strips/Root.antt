-- ===== src/Commons/Strips/Root.antt =====
-- The count takes the root of the project off the names below it.
use perfscope.Base.{
  ℕ, zero, suc, ◌+◌, ◌-◌, ◌%◌, ◌^◌, ◌≤◌, ◌<◌, ◌≡◌, refl, sym, ap, subst, ◌∙◌, ◌⊎◌, ◌≢◌, inl, inr,
  true, false, ◌&&◌, List, [], ◌∷◌, ◌++◌, reverse, reverse-reverse, some, arith, Text, codes,
  if◌then◌else◌, Bool-cases, length, take, u32_mod,
}
use perfscope.Base.Int.{pos}
use perfscope.Base.Result.{ok}
use perfscope.Commons.Text.{is_slash, starts_slash, stripname, countnchr, endswith, common_prefix}
use perfscope.Commons.Text.Strip.{after_slash, drop_components, stripname-drop_components}
use perfscope.Commons.Text.Count.{occurrences, countnchr-occurrences}
use perfscope.Commons.Strips.{add_directories, gather_directories, count_components, count_strips}
use perfscope.Commons.Strips.Shared.{
  shared, shared_all, common_prefix-Holding, add_directories-Holding,
}

take_all : (s : Text) (n : ℕ) → length s ≤ n → take n s ≡ s
take_all [] zero h = refl
take_all [] (suc n) h = refl
take_all (c ∷ s) zero h = absurd (omega arith)
take_all (c ∷ s) (suc n) h = ap (◌∷◌ c) (take_all s n (omega arith))

occurrences_bound : (ch : ℕ) (s : Text) → occurrences ch s ≤ length s
unfolding occurrences
occurrences_bound ch [] = omega arith
occurrences_bound ch (c ∷ s) = ground (arith, occurrences_bound ch s)

countnchr-all :
    (s : Text) (ch : ℕ) → length s < u32_mod → countnchr s (2 ^ 64 - 1) ch ≡ occurrences ch s
countnchr-all s ch h =
    (countnchr-occurrences s (2 ^ 64 - 2) ch).1
    ∙ ap (λ t. occurrences ch t % u32_mod) (take_all s (2 ^ 64 - 1) (omega (arith, h)))
    ∙ omega (arith, occurrences_bound ch s, h)

-- Every component of the text ends with one slash.
abbrev pub IsRoot : Text → Type 0
IsRoot [] = Unit {0}
IsRoot (c ∷ s) =
    ((is_slash c && starts_slash s) ≡ false)
    × ((is_slash c ≡ true) ⊎ (0 < occurrences b'/' s))
    × IsRoot s

starts_slash-append :
    (s rest : Text)
    → starts_slash s ≡ false
    → starts_slash rest ≡ false
    → starts_slash (s ++ rest) ≡ false
starts_slash-append [] rest h k = k
starts_slash-append (c ∷ s) rest h k = h

after_slash_alone :
    (c : ℕ) (s : Text) → is_slash c ≡ true → starts_slash s ≡ false → after_slash (c ∷ s) ≡ some s
after_slash_alone c s k n = rw (after_slash, k, n) refl

after_slash_other : (c : ℕ) (s : Text) → is_slash c ≡ false → after_slash (c ∷ s) ≡ after_slash s
after_slash_other c s k = rw (after_slash, k) refl

-- What is left of a root behind its first component.
record Left (n : ℕ) (s rest : Text) : Type 0 where
  text : Text
  behind : after_slash s ≡ some text
  dropped : drop_components n text ≡ rest

drop-Left : (n : ℕ) (s rest : Text) → Left n s rest → drop_components (suc n) s ≡ rest
unfolding drop_components
drop-Left n s rest w = rw (drop_components, w.behind) w.dropped

drop-root :
    (root rest : Text) (n : ℕ)
    → IsRoot root
    → ((m : ℕ) → n ≡ suc m → Left m (root ++ rest) rest)
    → occurrences b'/' root ≡ n
    → drop_components n (root ++ rest) ≡ rest
unfolding drop_components occurrences
drop-root [] rest zero w more e = refl
drop-root (c ∷ root) rest zero w more e = absurd (elim w.1 [
  | inl k ↦ let bad : ⊥ = ground (arith, e, k) in bad
  | inr k ↦ let bad : ⊥ = ground (arith, e, k) in bad
])
drop-root root rest (suc n) w more e = drop-Left n (root ++ rest) rest (more n refl)

root-Left :
    (root rest : Text) (n : ℕ)
    → IsRoot root
    → starts_slash rest ≡ false
    → occurrences b'/' root ≡ suc n
    → Left n (root ++ rest) rest
unfolding occurrences
root-Left [] rest n w h e = absurd (let bad : ⊥ = omega (arith, e) in bad)
root-Left (c ∷ root) rest n w h e = elim (Bool-cases (is_slash c)) [
  | inl k ↦
      let alone : starts_slash root ≡ false = rw k at w.0 in
      let less : occurrences b'/' root ≡ n = ground (arith, e, k) in
      record {
        text = root ++ rest;
        behind = after_slash_alone c (root ++ rest) k (starts_slash-append root rest alone h);
        dropped =
            drop-root root rest n w.2 (λ m same. root-Left root rest m w.2 h (less ∙ same)) less;
      }
  | inr k ↦
      let same : occurrences b'/' root ≡ suc n = ground (arith, e, k) in
      let rest_of = root-Left root rest n w.2 h same in
      record {
        text = rest_of.text;
        behind = after_slash_other c (root ++ rest) k ∙ rest_of.behind;
        dropped = rest_of.dropped;
      }
]

stripname-root :
    (root rest : Text)
    → IsRoot root
    → starts_slash rest ≡ false
    → stripname (root ++ rest) (pos (occurrences b'/' root)) ≡ rest
stripname-root root rest w h =
    stripname-drop_components (root ++ rest) (occurrences b'/' root)
    ∙ drop-root root rest (occurrences b'/' root) w (λ m same. root-Left root rest m w h same) refl

-- A text with a slash behind it, unless its last character is one. Its reverse is given.
abbrev pub ended : Text → Text
ended [] = []
ended (c ∷ out) = if is_slash c then reverse (c ∷ out) else reverse (c ∷ out) ++ b'/' ∷ []

abbrev pub terminated : Text → Text
terminated s = ended (reverse s)

occurrences-append :
    (ch : ℕ) (s t : Text) → occurrences ch (s ++ t) ≡ occurrences ch s + occurrences ch t
unfolding occurrences
occurrences-append ch [] t = omega arith
occurrences-append ch (c ∷ s) t = omega (arith, occurrences-append ch s t)

-- None of the two names that the count is corrected for.
abbrev pub IsPlain : Text → Type 0
IsPlain s = (endswith s (codes "innodb_plugin") ≡ false) × (endswith s (codes "src/") ≡ false)

count_components-ended :
    (len : ℕ) (out : Text)
    → out ≢ []
    → length (reverse out) + 1 < u32_mod
    → IsPlain (reverse out)
    → count_components (record { len = len; out = out }) ≡ ok (occurrences b'/' (ended out))
unfolding count_components occurrences
count_components-ended len [] some_left short plain = absurd (some_left refl)
count_components-ended len (c ∷ out) some_left short plain =
    let s = reverse (c ∷ out) in
    let all = countnchr-all s b'/' (omega (arith, short)) in
    elim (Bool-cases (is_slash c)) [
      | inl k ↦ rw (count_components, k, plain.0, plain.1, all) refl
      | inr k ↦
          rw (count_components, k, plain.0, plain.1, all)
            (ap ok (
              let small : (occurrences b'/' s + 1) % u32_mod ≡ occurrences b'/' s + 1 =
                omega (arith, occurrences_bound b'/' s, short) in
              small ∙ sym (occurrences-append b'/' s (b'/' ∷ []) ∙ omega arith)))
    ]

-- For a module with at least two compile units, let `root` be what all their directories begin with,
-- with a slash behind it unless it ends with one. Where something is shared that is shorter than
-- an unsigned counts and is none of the two names that the count is corrected for, and each
-- component of `root` ends with one slash, count_strips succeeds, and stripname with its count
-- takes `root` off every name that begins with it, where no further slash follows.
pub count_strips-root :
    (d e : Text) (ds : List Text)
    → let s = shared_all d (e ∷ ds) in
      s ≢ []
      → length s + 1 < u32_mod
      → IsPlain s
      → IsRoot (terminated s)
      → (n : ℕ) × (count_strips (some (d ∷ e ∷ ds)) ≡ ok n)
        × ((rest : Text)
            → starts_slash rest ≡ false
            → stripname (terminated s ++ rest) (pos n) ≡ rest)
unfolding count_strips gather_directories
count_strips-root d e ds some_left short plain root =
    let s = shared_all d (e ∷ ds) in
    let b = add_directories (common_prefix 128 d e) ds in
    let w =
      add_directories-Holding (common_prefix 128 d e) (shared d e) ds
        (common_prefix-Holding 128 d e (omega arith)) in
    let turned : b.out ≡ reverse s = sym (reverse-reverse b.out) ∙ ap reverse w.text in
    let back : reverse (reverse s) ≡ s = reverse-reverse s in
    (
      occurrences b'/' (terminated s),
      subst
          (λ (out : Text).
            count_components (record { len = b.len; out = out })
            ≡ ok (occurrences b'/' (terminated s)))
          (sym turned)
          (count_components-ended b.len (reverse s)
            (λ empty. some_left (sym back ∙ ap reverse empty)) (rw back short) (rw back plain)),
      λ rest h. stripname-root (terminated s) rest root h,
    )
