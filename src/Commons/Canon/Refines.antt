-- ===== src/Commons/Canon/Refines.antt =====
-- canonpath computes the canonical path. Its buffer holds the path of the stack, with or without a
-- slash behind the last component.
use perfscope.Base.{
  ℕ, zero, suc, ◌<◌, ◌≡◌, refl, sym, ap, ap₂, ◌∙◌, ◌≢◌, ◌⊎◌, inl, inr, Bool, true, false, not, ◌&&◌,
  List, [], ◌∷◌, ◌++◌, reverse, append_assoc, reverse-cons, reverse-append, reverse-reverse, arith,
  Text, text_eq, if◌then◌else◌, Bool-cases, length,
}
use perfscope.Base.Result.{Result, ok, err, ◌>>=◌}
use perfscope.Commons.Text.{is_slash}
use perfscope.Commons.Text.Strip.{HasNoSlash}
use perfscope.Commons.Canon.{
  CanonError, underflow, own, dot, dot_dot, starts_dot_dot, back_up_loop, back_up, separate, put,
  component_step, canon_loop, trim, canonpath,
}
use perfscope.Commons.Canon.Spec.{components, resolve_one, resolve, root, path_of, canonical}
use perfscope.Commons.Canon.Components.{Found, no_more, found, find_component}

-- The buffer of a stack, the last character first, ready for the next component ...
abbrev pub slashed : Bool → List Text → Text
slashed absolute [] = root absolute
slashed absolute (c ∷ cs) = b'/' ∷ (reverse c ++ slashed absolute cs)

-- ... and just behind its last one.
abbrev pub plain : Bool → List Text → Text
plain absolute [] = root absolute
plain absolute (c ∷ cs) = reverse c ++ slashed absolute cs

abbrev pub Holds : Bool → List Text → Text → Type 0
Holds absolute cs r = (r ≡ plain absolute cs) ⊎ (r ≡ slashed absolute cs)

-- A component is not empty and has no slash.
abbrev pub IsComponent : Text → Type 0
IsComponent c = (c ≢ []) × HasNoSlash c

abbrev pub AreComponents : List Text → Type 0
AreComponents [] = Unit {0}
AreComponents (c ∷ cs) = IsComponent c × AreComponents cs

HasNoSlash-append : (s t : Text) → HasNoSlash s → HasNoSlash t → HasNoSlash (s ++ t)
HasNoSlash-append [] t h k = k
HasNoSlash-append (c ∷ s) t h k = (h.0, HasNoSlash-append s t h.1 k)

HasNoSlash-reverse : (s : Text) → HasNoSlash s → HasNoSlash (reverse s)
HasNoSlash-reverse [] h = tt
HasNoSlash-reverse (c ∷ s) h =
    rw (reverse-cons c s)
      (HasNoSlash-append (reverse s) (c ∷ []) (HasNoSlash-reverse s h.1) (h.0, tt))

-- The text of a component from its end.
record Word (w : Text) : Type 0 where
  head : ℕ
  rest : Text
  made : w ≡ head ∷ rest
  plain_head : is_slash head ≡ false
  plain_rest : HasNoSlash rest

word : (c : Text) → IsComponent c → Word (reverse c)
word c (ne, h) = go (reverse c) refl (HasNoSlash-reverse c h)
  where
    go : (w : Text) → reverse c ≡ w → HasNoSlash w → Word w
    go [] e p = absurd (ne (sym (reverse-reverse c) ∙ ap reverse e))
    go (d ∷ w) e p = record { head = d; rest = w; made = refl; plain_head = p.0; plain_rest = p.1 }

-- Backing up over a word goes to the slash before it, or to the first character of the buffer.
back_up_loop-slash :
    (x : ℕ) (w t : Text) → HasNoSlash w → back_up_loop (x ∷ (w ++ b'/' ∷ t)) ≡ b'/' ∷ t
unfolding back_up_loop
back_up_loop-slash x [] t h = refl
back_up_loop-slash x (y ∷ w) t h = ground (arith, back_up_loop-slash y w t h.1)

back_up_loop-start :
    (x : ℕ) (w : Text)
    → is_slash x ≡ false
    → HasNoSlash w
    → (c : ℕ) × (back_up_loop (x ∷ (w ++ [])) ≡ c ∷ []) × (is_slash c ≡ false)
unfolding back_up_loop
back_up_loop-start x [] e h = (x, refl, e)
back_up_loop-start x (y ∷ w) e h =
    let (c, run, f) = back_up_loop-start y w h.0 h.1 in (c, ground (arith, run), f)

slashed_cases :
    (absolute : Bool) (cs : List Text)
    → (slashed absolute cs ≡ []) ⊎ ((t : Text) × (slashed absolute cs ≡ b'/' ∷ t))
slashed_cases true [] = inr ([], refl)
slashed_cases false [] = inl refl
slashed_cases absolute (c ∷ cs) = inr (_, refl)

back_up-Word :
    (absolute : Bool) (cs : List Text) (w : Text)
    → Word w
    → (back_up (w ++ slashed absolute cs) ≡ ok (slashed absolute cs))
      × (back_up (b'/' ∷ (w ++ slashed absolute cs)) ≡ ok (slashed absolute cs))
unfolding back_up
back_up-Word absolute cs w v = elim (slashed_cases absolute cs) [
  | inr (t, e) ↦
      let run = back_up_loop-slash v.head v.rest t v.plain_rest in
      rw (e, v.made)
        (
          ground (arith, run),
          ground (
            arith,
            run,
            back_up_loop-slash b'/' (v.head ∷ v.rest) t (v.plain_head, v.plain_rest),
          ),
        )
  | inl e ↦
      let (c, run, f) = back_up_loop-start v.head v.rest v.plain_head v.plain_rest in
      rw (e, v.made) (ground (arith, run, f), ground (arith, run, f, v.plain_head, back_up_loop))
]

-- The stack's result and the buffer's: both stop for one reason, or the buffer holds the stack.
abbrev Agrees : Bool → Result CanonError (List Text) → Result CanonError Text → Type 0
Agrees absolute (ok cs) (ok r) = Holds absolute cs r × AreComponents cs
Agrees absolute (ok cs) (err e) = ⊥
Agrees absolute (err e) (ok r) = ⊥
Agrees absolute (err e) (err f) = e ≡ f

separate-Word : (w t : Text) → Word w → separate (w ++ t) ≡ b'/' ∷ (w ++ t)
separate-Word w t v = rw v.made (ground (arith, v.plain_head))

separate-Holds :
    (absolute : Bool) (cs : List Text) (r : Text)
    → AreComponents cs
    → Holds absolute cs r
    → separate r ≡ slashed absolute cs
separate-Holds true [] r a h = ground arith
separate-Holds false [] r a h = ground arith
separate-Holds absolute (c ∷ cs) r a (inl e) = rw e (separate-Word (reverse c) _ (word c a.0))
separate-Holds absolute (c ∷ cs) r a (inr e) = rw e refl

back_up-Holds :
    (absolute : Bool) (c : Text) (cs : List Text) (r : Text)
    → IsComponent c
    → Holds absolute (c ∷ cs) r
    → back_up r ≡ ok (slashed absolute cs)
back_up-Holds absolute c cs r a (inl e) = rw e (back_up-Word absolute cs (reverse c) (word c a)).0
back_up-Holds absolute c cs r a (inr e) = rw e (back_up-Word absolute cs (reverse c) (word c a)).1

back_up-root :
    (absolute : Bool) (r : Text)
    → Holds absolute [] r
    → back_up r ≡ (if absolute then ok (root absolute) else err underflow)
unfolding back_up back_up_loop
back_up-root true r h = ground arith
back_up-root false r h = ground arith

component_step-Agrees :
    (absolute : Bool) (cs : List Text) (r c : Text)
    → AreComponents cs
    → IsComponent c
    → Holds absolute cs r
    → Agrees absolute (resolve_one absolute cs c) (component_step own r c)
unfolding component_step put
component_step-Agrees absolute cs r c a k h = elim (Bool-cases (text_eq c dot)) [
  | inl e ↦ stay cs a h e
  | inr e ↦ elim (Bool-cases (text_eq c dot_dot)) [
    | inl f ↦ up absolute cs a h e f
    | inr f ↦ down cs a h e f
  ]
]
  where
    stay :
        (cs : List Text)
        → AreComponents cs
        → Holds absolute cs r
        → text_eq c dot ≡ true
        → Agrees absolute (resolve_one absolute cs c) (component_step own r c)
    stay [] a h e = rw e (h, tt)
    stay (d ∷ ds) a h e = rw e (h, a)

    up :
        (absolute : Bool) (cs : List Text)
        → AreComponents cs
        → Holds absolute cs r
        → text_eq c dot ≡ false
        → text_eq c dot_dot ≡ true
        → Agrees absolute (resolve_one absolute cs c) (component_step own r c)
    up true [] a h e f = rw (e, f) (rw (back_up-root true r h) (inl refl, tt))
    up false [] a h e f = rw (e, f) (rw (back_up-root false r h) refl)
    up absolute (d ∷ ds) a h e f =
        rw (e, f) (rw (back_up-Holds absolute d ds r a.0 h) (inr refl, a.1))

    down :
        (cs : List Text)
        → AreComponents cs
        → Holds absolute cs r
        → text_eq c dot ≡ false
        → text_eq c dot_dot ≡ false
        → Agrees absolute (resolve_one absolute cs c) (component_step own r c)
    down [] a h e f =
        rw (e, f) (inl (ap (◌++◌ (reverse c)) (separate-Holds absolute [] r a h)), (k, tt))
    down (d ∷ ds) a h e f =
        rw (e, f) (inl (ap (◌++◌ (reverse c)) (separate-Holds absolute (d ∷ ds) r a h)), (k, a))

-- Results that agree still do behind a step that keeps them in agreement.
Agrees-bind :
    (absolute : Bool) (x : Result CanonError (List Text)) (y : Result CanonError Text)
    (f : List Text → Result CanonError (List Text)) (g : Text → Result CanonError Text)
    → Agrees absolute x y
    → ((cs : List Text) (r : Text)
        → AreComponents cs
        → Holds absolute cs r
        → Agrees absolute (f cs) (g r))
    → Agrees absolute (x >>= f) (y >>= g)
Agrees-bind absolute (ok cs) (ok r) f g h step = step cs r h.1 h.0
Agrees-bind absolute (ok cs) (err e) f g h step = absurd h
Agrees-bind absolute (err e) (ok r) f g h step = absurd h
Agrees-bind absolute (err e) (err d) f g h step = h

-- One round, over a rest of the name that the later rounds agree on.
canon_round-Agrees :
    (fuel : ℕ) (absolute : Bool) (cs : List Text) (r name : Text)
    → AreComponents cs
    → Holds absolute cs r
    → Found name
    → ((cs : List Text) (r rest : Text)
        → length rest < length name
        → AreComponents cs
        → Holds absolute cs r
        → Agrees absolute (resolve absolute cs (components rest)) (canon_loop fuel own r rest))
    → Agrees absolute (resolve absolute cs (components name)) (canon_loop (suc fuel) own r name)
unfolding canon_loop
canon_round-Agrees fuel absolute cs r name a h (no_more e k) later = rw (e, k, canon_loop) (h, a)
canon_round-Agrees fuel absolute cs r name a h (found c w e k shorter p) later =
    rw (e, k, canon_loop)
      (Agrees-bind absolute _ _ _ _ (component_step-Agrees absolute cs r (c ∷ w) a ((λ z. cc), p) h)
        (λ cs' r' a' h'. later cs' r' _ shorter a' h'))

canon_loop-Agrees :
    (fuel : ℕ) (absolute : Bool) (cs : List Text) (r name : Text)
    → length name < fuel
    → AreComponents cs
    → Holds absolute cs r
    → Agrees absolute (resolve absolute cs (components name)) (canon_loop fuel own r name)
canon_loop-Agrees zero absolute cs r name n a h = absurd (omega arith)
canon_loop-Agrees (suc fuel) absolute cs r name n a h =
    canon_round-Agrees fuel absolute cs r name a h (find_component name)
      λ cs' r' rest shorter a' h'.
        canon_loop-Agrees fuel absolute cs' r' rest (omega (arith, shorter)) a' h'

-- Without a slash at its end the buffer is the path, backwards.
trim-Word : (w t : Text) → Word w → trim (w ++ t) ≡ w ++ t
trim-Word w t v = rw v.made (tail (v.rest ++ t))
  where
    tail : (s : Text) → trim (v.head ∷ s) ≡ v.head ∷ s
    tail [] = refl
    tail (d ∷ s) = rw v.plain_head refl

trim-Holds :
    (absolute : Bool) (cs : List Text) (r : Text)
    → AreComponents cs
    → Holds absolute cs r
    → trim r ≡ plain absolute cs
trim-Holds true [] r a h = ground arith
trim-Holds false [] r a h = ground arith
trim-Holds absolute (c ∷ cs) r a (inl e) = rw e (trim-Word (reverse c) _ (word c a.0))
trim-Holds absolute (c ∷ cs) r a (inr e) = let v = word c a.0 in rw e (rw v.made refl)

reverse-root : (absolute : Bool) → reverse (root absolute) ≡ root absolute
reverse-root true = refl
reverse-root false = refl

reverse-plain :
    (absolute : Bool) (cs : List Text) → reverse (plain absolute cs) ≡ path_of absolute cs
reverse-plain absolute [] = reverse-root absolute
reverse-plain absolute (c ∷ []) =
    reverse-append (reverse c) (root absolute)
    ∙ ap₂ ◌++◌ (reverse-root absolute) (reverse-reverse c)
reverse-plain absolute (c ∷ d ∷ ds) =
    reverse-append (reverse c) (b'/' ∷ plain absolute (d ∷ ds))
    ∙ ap₂ ◌++◌ (reverse-cons b'/' (plain absolute (d ∷ ds))) (reverse-reverse c)
    ∙ append_assoc (reverse (plain absolute (d ∷ ds))) (b'/' ∷ []) c
    ∙ ap (λ x. x ++ b'/' ∷ c) (reverse-plain absolute (d ∷ ds))

result-Agrees :
    (absolute : Bool) (x : Result CanonError (List Text)) (y : Result CanonError Text)
    → Agrees absolute x y
    → (y >>= λ r. ok (reverse (trim r))) ≡ (x >>= λ stack. ok (path_of absolute stack))
result-Agrees absolute (ok cs) (ok r) (h, a) =
    ap ok (ap reverse (trim-Holds absolute cs r a h) ∙ reverse-plain absolute cs)
result-Agrees absolute (ok cs) (err e) h = absurd h
result-Agrees absolute (err e) (ok r) h = absurd h
result-Agrees absolute (err e) (err f) h = ap err (sym h)

-- With a buffer of its own, `canonpath` returns the canonical path of every name: the components
-- between the slashes without the `.` ones, each `..` taken off with the component before it, and
-- joined by single slashes. It fails on the empty name and on a relative name that begins with
-- two dots; it reads in front of its buffer exactly where a `..` of a relative name has no component
-- before it; and its loop ends.
pub canonpath-canonical : (name : Text) → canonpath own name ≡ canonical name
unfolding canonpath canonical
canonpath-canonical [] = refl
canonpath-canonical (c ∷ s) = elim (Bool-cases (not (is_slash c) && starts_dot_dot (c ∷ s))) [
  | inl e ↦ ground arith
  | inr e ↦ rw e (loop (is_slash c))
]
  where
    loop :
        (absolute : Bool)
        → (canon_loop (suc (length (c ∷ s))) own (root absolute) (c ∷ s) >>= λ r.
            ok (reverse (trim r)))
          ≡ (resolve absolute [] (components (c ∷ s)) >>= λ stack. ok (path_of absolute stack))
    loop absolute = result-Agrees absolute _ _ (
        canon_loop-Agrees (suc (length (c ∷ s))) absolute [] (root absolute) (c ∷ s) (omega arith)
          tt (inl refl))
