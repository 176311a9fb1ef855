-- ===== src/Tools/Analyze/Endless.antt =====
-- A function whose last line is not known, at the end of the vector.
use perfscope.Base.{
  ℕ, zero, suc, ◌≤◌, ◌<◌, ◌≡◌, refl, ap, inl, inr, Bool, true, false, ◌||◌, List, [], ◌∷◌, some,
  arith, Bool-cases, ltb, ◌==◌, if◌then◌else◌,
}
use perfscope.Base.Result.{ok, err}
use perfscope.Commons.Scope.{Scope}
use perfscope.Patch.Hunk.{Mod, Hunk}
use perfscope.Mapper.Matcher.{Subprogram, Matcher, in_file, match_function}
use perfscope.Mapper.Instructions.{Instruction}
use perfscope.Tools.Analyze.{
  out_of_fuel, Analysis, is_del, skip_mods, run_mods, same_function, go_on, run_function, on_match,
  round, hunk_loop, analyze_hunk,
}

-- The last subprogram of the vector, without a last line.
pub record IsUnended (m : Matcher) (s : Subprogram) (f : ℕ) : Type 0 where
  pub ready : m.initialized ≡ true
  pub within : in_file m s ≡ true
  pub unended : s.lastline ≡ 0
  pub named : s.function ≡ some f

match_function-unended :
    (m : Matcher) (s : Subprogram) (f : ℕ) (passed : List Subprogram) (scope : Scope)
    (multiple : Bool)
    → IsUnended m s f
    → scope.begin ≤ scope.end
    → match_function m (record { passed = passed; rest = s ∷ [] }) scope multiple
      ≡ some (record {
        result = some f;
        position = record { passed = passed; rest = s ∷ [] };
        scope = scope;
        multiple = multiple;
      })
unfolding match_function
match_function-unended m s f passed scope multiple w h =
    let proper : ltb scope.end scope.begin ≡ false = ground arith in
    let zero_line : (s.lastline == 0) ≡ true = ground (arith, w.unended) in
    rw (w.ready, proper, w.within, zero_line)
      (ap
        (λ g. some (record {
          result = g;
          position = record { passed = passed; rest = s ∷ [] };
          scope = scope;
          multiple = multiple;
        }))
        w.named)

-- A modification that is not skipped stays the first.
skip_mods-head :
    (s : Subprogram) (mods : List Mod) (h : Mod) (hs : List Mod)
    → skip_mods s mods ≡ h ∷ hs
    → skip_mods s (h ∷ hs) ≡ h ∷ hs
unfolding skip_mods
skip_mods-head s [] h hs e = absurd (cc e)
skip_mods-head s (k ∷ ks) h hs e =
    elim (Bool-cases (is_del k || ltb k.rep_scope.end s.linenumber)) [
      | inl t ↦ skip_mods-head s ks h hs (rw t at e)
      | inr t ↦
          let same : k ∷ ks ≡ h ∷ hs = rw t at e in
          let first : h ≡ k = cc same in
          let test : (is_del h || ltb h.rep_scope.end s.linenumber) ≡ false = rw first t in rw test
    ]

round-unended :
    (m : Matcher) (insts : ℕ → List Instruction) (s : Subprogram) (f : ℕ) (a : Analysis)
    (passed : List Subprogram) (scope : Scope) (mods : List Mod) (h : Mod) (hs : List Mod)
    → IsUnended m s f
    → scope.begin ≤ scope.end
    → a.position ≡ record { passed = passed; rest = s ∷ [] }
    → skip_mods s mods ≡ h ∷ hs
    → 0 < h.rep_scope.begin
    → (a' : Analysis) × (round m insts a scope true mods ≡ ok (go_on a' scope true (h ∷ hs)))
      × (a'.position ≡ record { passed = passed; rest = s ∷ [] })
unfolding round on_match run_function run_mods
round-unended m insts s f a passed scope mods h hs w p e k b =
    let behind : ltb s.lastline h.rep_scope.begin ≡ true = ground (arith, w.unended) in
    let found = match_function-unended m s f passed scope true w p in
    (
      record a {
        position = record { passed = passed; rest = s ∷ [] };
        prevfunc = some f;
        fi = if same_function a.prevfunc f then a.fi else insts f;
        insignificant = false;
      },
      rw (round, e, found, k, behind) refl,
      refl,
    )

hunk_loop-endless :
    (fuel : ℕ) (m : Matcher) (insts : ℕ → List Instruction) (s : Subprogram) (f : ℕ) (a : Analysis)
    (passed : List Subprogram) (scope : Scope) (mods : List Mod) (h : Mod) (hs : List Mod)
    → IsUnended m s f
    → scope.begin ≤ scope.end
    → a.position ≡ record { passed = passed; rest = s ∷ [] }
    → skip_mods s mods ≡ h ∷ hs
    → 0 < h.rep_scope.begin
    → hunk_loop fuel m insts a scope true mods ≡ err out_of_fuel
unfolding hunk_loop
hunk_loop-endless zero m insts s f a passed scope mods h hs w p e k b = refl
hunk_loop-endless (suc fuel) m insts s f a passed scope mods h hs w p e k b =
    let (a', run, e') = round-unended m insts s f a passed scope mods h hs w p e k b in
    rw (hunk_loop, run)
      (hunk_loop-endless fuel m insts s f a' passed scope (h ∷ hs) h hs w p e'
        (skip_mods-head s mods h hs k) b)

-- Let the matcher be initialized, and let the iterator have come to the last subprogram of the vector,
-- which is one of the file of the patch, has a function that is not null, and has no known last line.
-- If the enclosing scope of the hunk does not end before it begins, and the first modification that
-- is no deletion and ends at or behind the subprogram's first line begins behind line 0, then the
-- loop over the functions of the hunk never ends: no number of rounds is enough.
pub analyze_hunk-endless :
    (fuel : ℕ) (m : Matcher) (insts : ℕ → List Instruction) (s : Subprogram) (f : ℕ) (a : Analysis)
    (passed : List Subprogram) (hunk : Hunk) (h : Mod) (hs : List Mod)
    → IsUnended m s f
    → hunk.rep_enclosing_scope.begin ≤ hunk.rep_enclosing_scope.end
    → a.position ≡ record { passed = passed; rest = s ∷ [] }
    → skip_mods s hunk.mods ≡ h ∷ hs
    → 0 < h.rep_scope.begin
    → analyze_hunk fuel m insts a hunk ≡ err out_of_fuel
unfolding analyze_hunk
analyze_hunk-endless fuel m insts s f a passed hunk h hs w p e k b =
    hunk_loop-endless fuel m insts s f a passed hunk.rep_enclosing_scope hunk.mods h hs w p e k b
