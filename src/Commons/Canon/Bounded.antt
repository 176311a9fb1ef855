-- ===== src/Commons/Canon/Bounded.antt =====
-- canonpath in a buffer of the caller.
use perfscope.Base.{
  ℕ, zero, suc, ◌≤◌, ◌<◌, ◌≡◌, refl, ap, inl, inr, not, ◌&&◌, [], ◌∷◌, reverse, reverse-cons, arith,
  Text, text_eq, if◌then◌else◌, Bool-cases, length, length-append,
}
use perfscope.Base.Result.{ok, ◌>>=◌, bind_ok}
use perfscope.Commons.Text.{is_slash}
use perfscope.Commons.Canon.{
  own, callers, max_path, dot, dot_dot, starts_dot_dot, skip_slashes, component, after_component,
  back_up_loop, back_up, separate, put, component_step, canon_loop, trim, canonpath,
}

length-reverse : (s : Text) → length (reverse s) ≡ length s
length-reverse [] = refl
length-reverse (c ∷ s) =
    omega
      (arith, ap length (reverse-cons c s), length-append (reverse s) (c ∷ []), length-reverse s)

back_up_loop-length : (r : Text) → length (back_up_loop r) ≤ length r
unfolding back_up_loop
back_up_loop-length [] = omega arith
back_up_loop-length (c ∷ []) = omega arith
back_up_loop-length (c ∷ d ∷ r) = ground (arith, back_up_loop-length (d ∷ r))

back_up-length : (r r' : Text) → back_up r ≡ ok r' → length r' ≤ length r
unfolding back_up
back_up-length r r' h = go (back_up_loop r) refl
  where
    go : (b : Text) → back_up_loop r ≡ b → length r' ≤ length r
    go [] e = absurd (ground (arith, e))
    go (c ∷ b) e = ground (arith, e, ap length e, back_up_loop-length r)

put-length :
    (r c r' : Text) → put callers r c ≡ ok r' → (put own r c ≡ ok r') × (length r' < max_path)
unfolding put
put-length r c r' h =
    (ground arith, ground (arith, length-append (reverse c) (separate r), length-reverse c))

-- What a step or a loop does in a buffer of the caller it also does without one.
component_step-bounded :
    (r c r' : Text)
    → component_step callers r c ≡ ok r'
    → (component_step own r c ≡ ok r') × (length r < max_path → length r' < max_path)
unfolding component_step
component_step-bounded r c r' h = elim (Bool-cases (text_eq c dot)) [
  | inl e ↦ (ground arith, λ k. ground arith)
  | inr e ↦ elim (Bool-cases (text_eq c dot_dot)) [
    | inl f ↦
        let back : back_up r ≡ ok r' = ground arith in
        (ground arith, λ k. omega (arith, back_up-length r r' back))
    | inr f ↦
        let there : put callers r c ≡ ok r' = ground arith in
        let (same, fits) = put-length r c r' there in (ground (arith, same), λ k. fits)
  ]
]

canon_loop-bounded :
    (fuel : ℕ) (r name r' : Text)
    → canon_loop fuel callers r name ≡ ok r'
    → (canon_loop fuel own r name ≡ ok r') × (length r < max_path → length r' < max_path)
unfolding canon_loop
canon_loop-bounded zero r name r' h = cc
canon_loop-bounded (suc fuel) r name r' h =
    go (component (skip_slashes name)) refl h (canon_loop-bounded fuel)
  where
    go :
        (w : Text)
        → component (skip_slashes name) ≡ w
        → canon_loop (suc fuel) callers r name ≡ ok r'
        → ((r name r' : Text)
            → canon_loop fuel callers r name ≡ ok r'
            → (canon_loop fuel own r name ≡ ok r') × (length r < max_path → length r' < max_path))
        → (canon_loop (suc fuel) own r name ≡ ok r') × (length r < max_path → length r' < max_path)
    go [] e k later = (ground (arith, e), λ z. ground (arith, e))
    go (c ∷ w) e k later =
        let (mid, step, rest) =
          bind_ok _ (component_step callers r (c ∷ w)) (rw (e, canon_loop) at k) in
        let (same, fits) = component_step-bounded r (c ∷ w) mid step in
        let (same', fits') = later mid (after_component (skip_slashes name)) r' rest in
        (rw (e, canon_loop) (rw (same, ◌>>=◌) same'), λ z. fits' (fits z))

length-trim : (r : Text) → length (trim r) ≤ length r
length-trim [] = omega arith
length-trim (c ∷ []) = omega arith
length-trim (c ∷ d ∷ r) = ground arith

-- If `canonpath` returns a path in a buffer of the caller, it would return the same path in a buffer of
-- its own, and the path and its NUL take at most `max_path` characters, which is what the function
-- takes the buffer of the caller to have, whatever its size is.
pub canonpath_bounded :
    (name out : Text)
    → canonpath callers name ≡ ok out
    → (canonpath own name ≡ ok out) × (length out < max_path)
unfolding canonpath
canonpath_bounded [] out h = absurd (ground arith)
canonpath_bounded (c ∷ s) out h = elim (Bool-cases (not (is_slash c) && starts_dot_dot (c ∷ s))) [
  | inl e ↦ absurd (ground arith)
  | inr e ↦
      let begin = if is_slash c then b'/' ∷ [] else [] in
      let short : length begin < max_path = ground arith in
      let (r, run, done) =
        bind_ok (λ r. ok (reverse (trim r)))
          (canon_loop (suc (length (c ∷ s))) callers begin (c ∷ s)) (rw e at h) in
      let (same, fits) = canon_loop-bounded (suc (length (c ∷ s))) begin (c ∷ s) r run in
      let trimmed : reverse (trim r) ≡ out = ground arith in
      (
        rw e (rw (same, ◌>>=◌) done),
        omega (arith, fits short, ap length trimmed, length-reverse (trim r), length-trim r),
      )
]
