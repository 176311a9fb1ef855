-- ===== src/Mapper/Instructions/Safe.antt =====
-- The loop over a modification on any function, whatever the order of its lines.
use perfscope.Base.{
  ℕ, zero, suc, ◌+◌, ◌≤◌, ◌<◌, ◌≡◌, ◌⊎◌, refl, inl, inr, true, List, [], ◌∷◌, Option, none, some,
  arith, All, Bool-cases, ltb, leb, length, ◌==◌,
}
use perfscope.Commons.Scope.{Scope}
use perfscope.Mapper.Instructions.{
  Instruction, get_inst_line, Stop, at, passed, exhausted, scan, Step, settle, match_instruction,
  gather, match_instructions,
}
use perfscope.Mapper.Instructions.Range.{in_range}

-- An instruction that a scan stops at lies in the scope, and fewer stand behind it.
abbrev Taken : Scope → List Instruction → Stop → Type 0
Taken scope fi (at i is) = (in_range scope i ≡ true) × (length is < length fi)
Taken scope fi (passed is) = Unit {0}
Taken scope fi exhausted = Unit {0}

Taken-cons :
    (scope : Scope) (i : Instruction) (fi : List Instruction) (s : Stop)
    → Taken scope fi s
    → Taken scope (i ∷ fi) s
Taken-cons scope i fi (at k ks) w = (w.0, omega (arith, w.1))
Taken-cons scope i fi (passed ks) w = tt
Taken-cons scope i fi exhausted w = tt

scan-Taken :
    (scope : Scope) (fi : List Instruction)
    → scope.begin ≤ scope.end
    → Taken scope fi (scan scope fi)
unfolding scan
scan-Taken scope [] h = tt
scan-Taken scope (i ∷ is) h =
    let l = get_inst_line i in
    let next = Taken-cons scope i is (scan scope is) (scan-Taken scope is h) in
    elim (Bool-cases (l == 0)) [
      | inl z ↦ rw (scan, z) next
      | inr z ↦ elim (Bool-cases (l == scope.begin)) [
        | inl e ↦ rw (scan, z, e) (ground (arith, z, e, h), omega arith)
        | inr e ↦ elim (Bool-cases (ltb scope.begin l)) [
          | inr f ↦ rw (scan, z, e, f) next
          | inl f ↦ elim (Bool-cases (leb l scope.end)) [
            | inl g ↦ rw (scan, z, e, f, g) (ground (arith, z, f, g), omega arith)
            | inr g ↦ rw (scan, z, e, f, g) tt
          ]
        ]
      ]
    ]

-- A call gives nothing, or an instruction in the scope, which begins there from now on.
abbrev Moved : Scope → List Instruction → Step → Type 0
Moved scope fi s =
    (s.inst ≡ none)
    ⊎ ((i : Instruction) × (s.inst ≡ some i)
        × (in_range scope i ≡ true)
        × (s.scope ≡ record scope { begin = get_inst_line i })
        × (length s.fi < length fi))

settle-Moved :
    (scope : Scope) (fi : List Instruction) (s : Stop)
    → Taken scope fi s
    → Moved scope fi (settle scope s)
settle-Moved scope fi (at i is) w = inr (i, refl, w.0, refl, w.1)
settle-Moved scope fi (passed is) w = inl refl
settle-Moved scope fi exhausted w = inl refl

match_instruction-Moved :
    (fi : List Instruction) (scope : Scope) → Moved scope fi (match_instruction fi scope)
unfolding match_instruction
match_instruction-Moved fi scope = elim (Bool-cases (ltb scope.end scope.begin)) [
  | inl e ↦ rw e (inl refl)
  | inr e ↦ rw e (settle-Moved scope fi (scan scope fi) (scan-Taken scope fi (ground (arith, e))))
]

in_range-later :
    (scope : Scope) (low : ℕ) (is : List Instruction)
    → scope.begin ≤ low
    → All (λ i. in_range (record scope { begin = low }) i ≡ true) is
    → All (λ i. in_range scope i ≡ true) is
in_range-later scope low [] h w = tt
in_range-later scope low (i ∷ is) h w = (ground (arith, w.0), in_range-later scope low is h w.1)

abbrev pub Gathers : Scope → Option (List Instruction × List Instruction) → Type 0
Gathers scope o =
    (r : List Instruction × List Instruction) × (o ≡ some r)
    × All (λ i. in_range scope i ≡ true) r.0

gather-Gathers :
    (fuel : ℕ) (fi : List Instruction) (scope : Scope)
    → length fi < fuel
    → Gathers scope (gather fuel fi scope)
unfolding gather
gather-Gathers zero fi scope h = absurd (omega arith)
gather-Gathers (suc fuel) fi scope h =
    let s = match_instruction fi scope in
    elim (match_instruction-Moved fi scope) [
      | inl e ↦ (([], s.fi), rw (gather, e), tt)
      | inr (i, e, inside, moved, shorter) ↦
          let (r, run, all) =
            gather-Gathers fuel s.fi (record scope { begin = get_inst_line i }) (omega arith) in
          (
            (i ∷ r.0, r.1),
            rw (gather, e, moved, run),
            (inside, in_range-later scope (get_inst_line i) r.0 (ground (arith, inside)) all),
          )
    ]

-- On any function and any scope the loop over the modification ends, and all that it gathers has a
-- known line in the scope.
pub match_instructions-in_range :
    (fi : List Instruction) (scope : Scope) → Gathers scope (match_instructions fi scope)
unfolding match_instructions
match_instructions-in_range fi scope = gather-Gathers (length fi + 1) fi scope (omega arith)
