-- ===== src/Patch/Hunk/Ordered.antt =====
-- What `reduce` guarantees of the modifications of a hunk.
use perfscope.Base.{
  ℕ, ◌+◌, ◌-◌, ◌≤◌, ◌<◌, ◌≡◌, refl, sym, ap, subst, ◌∙◌, inl, inr, true, List, [], ◌∷◌, arith, Text,
  Bool-cases, length,
}
use perfscope.Base.Result.{ok}
use perfscope.Base.{u32_mod, dec}
use perfscope.Patch.Hunk.{Mod, Hunk, new_hunk, Reducer, last_mod, enclose, start_reducer, reduce}
use perfscope.Base.{All}
use perfscope.Commons.Scope.{Scope, includes}
use perfscope.Patch.Hunk.Merging.{old_in, new_in}
use perfscope.Patch.Hunk.Reduce.{reduce_loop_lem}
use perfscope.Patch.Hunk.Lines.{is_reducible, reduce_decides, start-Inv}
use perfscope.Patch.Hunk.Enclosing.{Chained, scopes, rep_scopes, reduce_loop-chain}

old_in-le-length : (s : Text) → old_in s ≤ length s
old_in-le-length [] = omega arith
old_in-le-length (c ∷ s) = ground (arith, old_in-le-length s)

new_in-le-length : (s : Text) → new_in s ≤ length s
new_in-le-length [] = omega arith
new_in-le-length (c ∷ s) = ground (arith, new_in-le-length s)

-- A hunk whose line numbers, with those of its sequence added, do not wrap.
pub record FitsWord (start rep_start : ℕ) (seq : Text) : Type 0 where
  pub rep_pos : 0 < rep_start
  pub old : start + length seq < u32_mod
  pub new : rep_start + length seq < u32_mod

abbrev last_scope : Scope → List Scope → Scope
last_scope s [] = s
last_scope s (t ∷ ss) = last_scope t ss

last_mod-scopes : (m : Mod) (ms : List Mod) → (last_mod m ms).scope ≡ last_scope m.scope (scopes ms)
last_mod-scopes m [] = refl
last_mod-scopes m (n ∷ ms) = last_mod-scopes n ms

last_mod-rep_scopes :
    (m : Mod) (ms : List Mod) → (last_mod m ms).rep_scope ≡ last_scope m.rep_scope (rep_scopes ms)
last_mod-rep_scopes m [] = refl
last_mod-rep_scopes m (n ∷ ms) = last_mod-rep_scopes n ms

end-le-last :
    (s : Scope) (ss : List Scope) (hi : ℕ) → Chained s.end ss hi → s.end ≤ (last_scope s ss).end
end-le-last s [] hi c = omega arith
end-le-last s (t ∷ ss) hi c = omega (arith, c.0, c.1, end-le-last t ss hi c.2)

-- All scopes of a chain lie between the begin of the first and the end of the last.
chain_inside :
    (b : ℕ) (s : Scope) (ss : List Scope) (lo hi : ℕ)
    → b ≤ s.begin
    → Chained lo (s ∷ ss) hi
    → All (λ x. includes (record { begin = b; end = (last_scope s ss).end }) x ≡ true) (s ∷ ss)
unfolding includes
chain_inside b s [] lo hi h c = (ground arith, tt)
chain_inside b s (t ∷ ss) lo hi h c = (
  ground (arith, end-le-last s (t ∷ ss) hi c.2),
  chain_inside b t ss s.end hi (omega (arith, c.1, c.2)) c.2,
)

both :
    (e r : Scope) (ms : List Mod)
    → All (λ x. includes e x ≡ true) (scopes ms)
    → All (λ x. includes r x ≡ true) (rep_scopes ms)
    → All (λ (m : Mod). (includes e m.scope ≡ true) × (includes r m.rep_scope ≡ true)) ms
both e r [] h k = tt
both e r (m ∷ ms) h k = ((h.0, k.0), both e r ms h.1 k.1)

-- The run of the loop behind a successful `reduce`.
reduced :
    (start rep_start : ℕ) (seq : Text) (h : Hunk)
    → reduce (new_hunk start rep_start seq) ≡ ok h
    → FitsWord start rep_start seq
    → (r : Reducer) × (h ≡ enclose (new_hunk start rep_start seq) r.mods)
      × Chained (start - 1) (scopes r.mods) (start - 1 + old_in seq)
      × Chained (rep_start - 1) (rep_scopes r.mods) (rep_start - 1 + new_in seq)
unfolding reduce new_hunk
reduced start rep_start [] h e f = absurd (ground arith)
reduced start rep_start (c ∷ s) h e f =
    let g = new_hunk start rep_start (c ∷ s) in
    let valid : is_reducible g ≡ true = accepted in
    let (r, run, ran) = reduce_loop_lem (start_reducer g) (c ∷ s) (ground arith) (start-Inv g) in
    let pos : 0 < start = ground arith in
    let d : dec start ≡ start - 1 = omega (arith, f.old) in
    let rd : dec rep_start ≡ rep_start - 1 = omega (arith, f.new, f.rep_pos) in
    let l : r.line ≡ start - 1 + old_in (c ∷ s) =
      ground (arith, ran.old, d, f.old, old_in-le-length (c ∷ s)) in
    let p : r.repline ≡ rep_start - 1 + new_in (c ∷ s) =
      ground (arith, ran.new, rd, f.new, f.rep_pos, new_in-le-length (c ∷ s)) in
    let (old, new) =
      reduce_loop-chain (start - 1) (rep_start - 1) (start_reducer g) r (c ∷ s) run (ground arith)
        (start-Inv g)
        (record {
          old = omega (arith, d);
          new = omega (arith, rd);
          room = ground (arith, d, f.old, old_in-le-length (c ∷ s));
          rep_room = ground (arith, rd, f.new, f.rep_pos, new_in-le-length (c ∷ s));
        }) in
    (r, ground (arith, run), rw (← l) old, rw (← p) new)
  where
    accepted : is_reducible (new_hunk start rep_start (c ∷ s)) ≡ true
    accepted = elim (Bool-cases (is_reducible (new_hunk start rep_start (c ∷ s)))) [
      | inl t ↦ t
      | inr t ↦ absurd (ground (arith, (reduce_decides (new_hunk start rep_start (c ∷ s))).1 t))
    ]

enclose-mods : (h : Hunk) (ms : List Mod) → (enclose h ms).mods ≡ ms
unfolding enclose
enclose-mods h [] = refl
enclose-mods h (m ∷ ms) = refl

enclose-includes :
    (h : Hunk) (ms : List Mod) (lo rep_lo hi rep_hi : ℕ)
    → Chained lo (scopes ms) hi
    → Chained rep_lo (rep_scopes ms) rep_hi
    → All
        (λ (m : Mod).
          (includes (enclose h ms).enclosing_scope m.scope ≡ true)
          × (includes (enclose h ms).rep_enclosing_scope m.rep_scope ≡ true))
        ms
unfolding enclose
enclose-includes h [] lo rep_lo hi rep_hi c d = tt
enclose-includes h (m ∷ ms) lo rep_lo hi rep_hi c d =
    both _ _ (m ∷ ms)
      (subst
        (λ (s : Scope).
          All (λ x. includes (record { begin = m.scope.begin; end = s.end }) x ≡ true)
            (scopes (m ∷ ms)))
        (sym (last_mod-scopes m ms))
        (chain_inside m.scope.begin m.scope (scopes ms) lo hi (omega arith) c))
      (subst
        (λ (s : Scope).
          All (λ x. includes (record { begin = m.rep_scope.begin; end = s.end }) x ≡ true)
            (rep_scopes (m ∷ ms)))
        (sym (last_mod-rep_scopes m ms))
        (chain_inside m.rep_scope.begin m.rep_scope (rep_scopes ms) rep_lo rep_hi (omega arith) d))

-- If `reduce` succeeds on a hunk whose line numbers do not wrap, the ranges of its modifications
-- follow one another in the old and in the new file: each range begins no later than it ends and
-- no earlier than the one before it ends, and all lie between the line before the hunk and the
-- last line that the control sequence accounts for in that file.
pub reduce-Chained :
    (start rep_start : ℕ) (seq : Text) (h : Hunk)
    → FitsWord start rep_start seq
    → reduce (new_hunk start rep_start seq) ≡ ok h
    → Chained (start - 1) (scopes h.mods) (start - 1 + old_in seq)
      × Chained (rep_start - 1) (rep_scopes h.mods) (rep_start - 1 + new_in seq)
reduce-Chained start rep_start seq h f e =
    let (r, made, old, new) = reduced start rep_start seq h e f in
    let same : h.mods ≡ r.mods =
      ap (λ (x : Hunk). x.mods) made ∙ enclose-mods (new_hunk start rep_start seq) r.mods in
    rw same (old, new)

-- If `reduce` succeeds on a hunk whose line numbers do not wrap, the two enclosing scopes include
-- the old and the new range of every modification of the hunk.
pub reduce_encloses :
    (start rep_start : ℕ) (seq : Text) (h : Hunk)
    → FitsWord start rep_start seq
    → reduce (new_hunk start rep_start seq) ≡ ok h
    → All
        (λ (m : Mod).
          (includes h.enclosing_scope m.scope ≡ true)
          × (includes h.rep_enclosing_scope m.rep_scope ≡ true))
        h.mods
reduce_encloses start rep_start seq h f e =
    let (r, made, old, new) = reduced start rep_start seq h e f in
    let g = new_hunk start rep_start seq in
    rw made (
      rw (enclose-mods g r.mods) (
        enclose-includes g r.mods (start - 1) (rep_start - 1) (start - 1 + old_in seq)
          (rep_start - 1 + new_in seq) old new))
