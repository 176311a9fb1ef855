-- ===== src/Mapper/Instructions/Range.antt =====
-- Which instructions a modification gets.
use perfscope.Base.{
  ℕ, zero, suc, ◌+◌, ◌≤◌, ◌<◌, ◌≡◌, refl, ap, ◌∙◌, inl, inr, Bool, true, false, ◌&&◌, not, List, [],
  ◌∷◌, Option, none, some, arith, Bool-cases, ltb, leb, length, ◌==◌, if◌then◌else◌,
}
use perfscope.Commons.Scope.{Scope}
use perfscope.Mapper.Instructions.{
  Instruction, get_inst_line, Stop, at, passed, exhausted, scan, Step, settle, match_instruction,
  gather, match_instructions,
}

-- The line is known and lies in the scope.
abbrev pub in_range : Scope → Instruction → Bool
in_range scope i = let l = get_inst_line i in not (l == 0) && leb scope.begin l && leb l scope.end

abbrev pub select : Scope → List Instruction → List Instruction
select scope [] = []
select scope (i ∷ is) = let rest = select scope is in if in_range scope i then i ∷ rest else rest

-- The known lines never fall, from `low` on.
abbrev pub Rising : ℕ → List Instruction → Type 0
Rising low [] = Unit {0}
Rising low (i ∷ is) =
    let l = get_inst_line i in if l == 0 then Rising low is else (low ≤ l) × Rising l is

-- The instructions from the first one behind the scope on.
abbrev pub beyond : Scope → List Instruction → List Instruction
beyond scope [] = []
beyond scope (i ∷ is) =
    let rest = beyond scope is in if ltb scope.end (get_inst_line i) then i ∷ is else rest

select-behind :
    (scope : Scope) (low : ℕ) (is : List Instruction)
    → Rising low is
    → scope.end < low
    → select scope is ≡ []
select-behind scope low [] w h = refl
select-behind scope low (i ∷ is) w h = elim (Bool-cases (get_inst_line i == 0)) [
  | inl z ↦ let rest = select-behind scope low is (rw z at w) h in ground (arith, rest, z)
  | inr z ↦
      let known : (low ≤ get_inst_line i) × Rising (get_inst_line i) is = rw z at w in
      let rest = select-behind scope (get_inst_line i) is known.1 (omega (arith, known.0)) in
      ground (arith, rest, z, known.0)
]

-- A later begin changes nothing where no line lies before it.
select-begin :
    (scope : Scope) (low : ℕ) (is : List Instruction)
    → Rising low is
    → scope.begin ≤ low
    → select (record scope { begin = low }) is ≡ select scope is
select-begin scope low is w h = go low is w (omega arith)
  where
    go :
        (l : ℕ) (ks : List Instruction)
        → Rising l ks
        → low ≤ l
        → select (record scope { begin = low }) ks ≡ select scope ks
    go l [] v k = refl
    go l (i ∷ ks) v k = elim (Bool-cases (get_inst_line i == 0)) [
      | inl z ↦ let rest = go l ks (rw z at v) k in ground (arith, rest, z, h)
      | inr z ↦
          let known : (l ≤ get_inst_line i) × Rising (get_inst_line i) ks = rw z at v in
          let rest = go (get_inst_line i) ks known.1 (omega (arith, known.0)) in
          ground (arith, rest, z, h, known.0)
    ]

-- What a scan says of the instructions that it stops in.
abbrev Scanned : Scope → List Instruction → Stop → Type 0
Scanned scope fi (at i is) =
    (in_range scope i ≡ true)
    × (select scope fi ≡ i ∷ select scope is)
    × (beyond scope fi ≡ beyond scope is)
    × Rising (get_inst_line i) is
    × (length is < length fi)
Scanned scope fi (passed is) = (select scope fi ≡ []) × (beyond scope fi ≡ is)
Scanned scope fi exhausted = (select scope fi ≡ []) × (beyond scope fi ≡ [])

-- An instruction in front of the scope.
Scanned-skip :
    (scope : Scope) (i : Instruction) (is : List Instruction) (s : Stop)
    → in_range scope i ≡ false
    → ltb scope.end (get_inst_line i) ≡ false
    → Scanned scope is s
    → Scanned scope (i ∷ is) s
Scanned-skip scope i is (at k ks) r b w = (w.0, rw r w.1, rw b w.2, w.3, omega (arith, w.4))
Scanned-skip scope i is (passed ks) r b w = (rw r w.0, rw b w.1)
Scanned-skip scope i is exhausted r b w = (rw r w.0, rw b w.1)

Scanned-take :
    (scope : Scope) (i : Instruction) (is : List Instruction)
    → in_range scope i ≡ true
    → Rising (get_inst_line i) is
    → Scanned scope (i ∷ is) (at i is)
Scanned-take scope i is r k =
    let inside : ltb scope.end (get_inst_line i) ≡ false = ground (arith, r) in
    (r, rw r, rw inside, k, omega arith)

Scanned-stop :
    (scope : Scope) (i : Instruction) (is : List Instruction)
    → ltb scope.end (get_inst_line i) ≡ true
    → Rising (get_inst_line i) is
    → Scanned scope (i ∷ is) (passed (i ∷ is))
Scanned-stop scope i is b k =
    let outside : in_range scope i ≡ false = ground (arith, b) in
    (rw outside (select-behind scope (get_inst_line i) is k (ground (arith, b))), rw b)

-- A round at an instruction whose line is known.
scan-known :
    (scope : Scope) (i : Instruction) (is : List Instruction)
    → (get_inst_line i == 0) ≡ false
    → Rising (get_inst_line i) is
    → scope.begin ≤ scope.end
    → Scanned scope is (scan scope is)
    → Scanned scope (i ∷ is) (scan scope (i ∷ is))
unfolding scan
scan-known scope i is z k h next =
    let l = get_inst_line i in
    elim (Bool-cases (l == scope.begin)) [
      | inl e ↦ rw (scan, z, e) (Scanned-take scope i is (ground (arith, z, e, h)) k)
      | inr e ↦ elim (Bool-cases (ltb scope.begin l)) [
        | inr f ↦
            rw (scan, z, e, f)
              (Scanned-skip scope i is (scan scope is) (ground (arith, e, f))
                (ground (arith, e, f, h)) next)
        | inl f ↦ elim (Bool-cases (leb l scope.end)) [
          | inl g ↦ rw (scan, z, e, f, g) (Scanned-take scope i is (ground (arith, z, f, g)) k)
          | inr g ↦ rw (scan, z, e, f, g) (Scanned-stop scope i is (ground (arith, g)) k)
        ]
      ]
    ]

scan-Scanned :
    (scope : Scope) (low : ℕ) (fi : List Instruction)
    → Rising low fi
    → scope.begin ≤ scope.end
    → Scanned scope fi (scan scope fi)
unfolding scan
scan-Scanned scope low [] w h = (refl, refl)
scan-Scanned scope low (i ∷ is) w h = elim (Bool-cases (get_inst_line i == 0)) [
  | inl z ↦
      rw (scan, z)
        (Scanned-skip scope i is (scan scope is) (ground (arith, z)) (ground (arith, z))
          (scan-Scanned scope low is (rw z at w) h))
  | inr z ↦
      let known : (low ≤ get_inst_line i) × Rising (get_inst_line i) is = rw z at w in
      scan-known scope i is z known.1 h (scan-Scanned scope (get_inst_line i) is known.1 h)
]

abbrev prepend :
    Instruction
    → Option (List Instruction × List Instruction)
    → Option (List Instruction × List Instruction)
prepend i o = elim o [ none ↦ none | some r ↦ some (i ∷ r.0, r.1) ]

-- The round of the loop behind a call.
abbrev follow : ℕ → Step → Option (List Instruction × List Instruction)
follow fuel s = elim s.inst [
  | none ↦ some ([], s.fi)
  | some i ↦ prepend i (gather fuel s.fi s.scope)
]

follow_lem :
    (fuel : ℕ) (scope : Scope) (fi : List Instruction) (s : Stop)
    → Scanned scope fi s
    → ((i : Instruction) (is : List Instruction)
        → in_range scope i ≡ true
        → Rising (get_inst_line i) is
        → length is < length fi
        → gather fuel is (record scope { begin = get_inst_line i })
          ≡ some (select scope is, beyond scope is))
    → follow fuel (settle scope s) ≡ some (select scope fi, beyond scope fi)
follow_lem fuel scope fi (at i is) w again = ap (prepend i) (again i is w.0 w.3 w.4) ∙ cc (w.1, w.2)
follow_lem fuel scope fi (passed is) w again = rw (w.0, w.1)
follow_lem fuel scope fi exhausted w again = rw (w.0, w.1)

match_instruction-scan :
    (scope : Scope) (fi : List Instruction)
    → scope.begin ≤ scope.end
    → match_instruction fi scope ≡ settle scope (scan scope fi)
unfolding match_instruction
match_instruction-scan scope fi h =
    let proper : ltb scope.end scope.begin ≡ false = ground arith in rw proper

gather_lem :
    (fuel : ℕ) (fi : List Instruction) (scope : Scope) (low : ℕ)
    → Rising low fi
    → scope.begin ≤ scope.end
    → length fi < fuel
    → gather fuel fi scope ≡ some (select scope fi, beyond scope fi)
unfolding gather
gather_lem zero fi scope low w h f = absurd (omega arith)
gather_lem (suc fuel) fi scope low w h f =
    ap (follow fuel) (match_instruction-scan scope fi h)
    ∙ follow_lem fuel scope fi (scan scope fi) (scan-Scanned scope low fi w h) (λ i is r k n.
      gather_lem fuel is (record scope { begin = get_inst_line i }) (get_inst_line i) k
        (ground (arith, r)) (omega arith)
      ∙ ap (λ taken. some (taken, beyond scope is))
          (select-begin scope (get_inst_line i) is k (ground (arith, r))))

-- For a range of lines that is not empty and a function whose known lines never fall, the loop over
-- the modification ends, and gathers in order exactly the instructions whose line is known and lies
-- in the range; the iterator is left at the first instruction behind the range.
pub match_instructions-select :
    (fi : List Instruction) (scope : Scope)
    → Rising 0 fi
    → scope.begin ≤ scope.end
    → match_instructions fi scope ≡ some (select scope fi, beyond scope fi)
unfolding match_instructions
match_instructions-select fi scope w h = gather_lem (length fi + 1) fi scope 0 w h (omega arith)
