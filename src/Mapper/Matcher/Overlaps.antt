-- ===== src/Mapper/Matcher/Overlaps.antt =====
-- The subprogram that matchFunction gives lies over the scope, and those it passes end before it.
use perfscope.Base.{
  ◌+◌, ◌≤◌, ◌<◌, ◌≡◌, ◌≢◌, refl, sym, ap, ◌∙◌, ◌⊎◌, inl, inr, Bool, true, false, ◌&&◌, List, [],
  ◌∷◌, ◌++◌, append_assoc, All, Option, none, some, arith, ltb, ◌==◌, if◌then◌else◌, Bool-cases,
  inc, u32_mod,
}
use perfscope.Commons.Scope.{Scope}
use perfscope.Mapper.Matcher.{
  Subprogram, Matcher, Position, in_file, fill, reaches, Search, reached, last_one, ended,
  assert_failed, search_at, search, Match, is_behind, rest_of_scope, conclude, match_function,
}

-- The subprogram ends in front of the scope, or it ends on the scope's first line without having begun
-- there.
abbrev pub EndsBefore : Scope → Subprogram → Type 0
EndsBefore scope s =
    (s.lastline < scope.begin) ⊎ ((s.lastline ≡ scope.begin) × (s.linenumber ≢ s.lastline))

-- The entries between two positions end before the scope.
abbrev pub Skips : Scope → List Subprogram → List Subprogram → Type 0
Skips scope passed passed' =
    (new : List Subprogram) × (passed' ≡ new ++ passed) × All (EndsBefore scope) new

-- The subprograms stand in the order of their first lines, as the matcher sorts them.
abbrev pub Ascending : List Subprogram → Type 0
Ascending [] = Unit {0}
Ascending (s ∷ []) = Unit {0}
Ascending (s ∷ n ∷ rest) =
    (s.linenumber ≤ n.linenumber) × (n.linenumber < u32_mod) × Ascending (n ∷ rest)

abbrev Found : Scope → List Subprogram → Search → Type 0
Found scope passed (reached passed' s _) = (reaches s scope ≡ true) × Skips scope passed passed'
Found scope passed (last_one passed' s) = (s.lastline ≡ 0) × Skips scope passed passed'
Found scope passed (ended position) = Skips scope passed (position.passed)
Found scope passed assert_failed = ⊥

reaches-EndsBefore : (scope : Scope) (s : Subprogram) → reaches s scope ≡ false → EndsBefore scope s
reaches-EndsBefore scope s h = elim (Bool-cases (ltb s.lastline scope.begin)) [
  | inl e ↦ inl (ground arith)
  | inr e ↦ inr (ground arith, λ k. ground (arith, k))
]

Skips-cons :
    (scope : Scope) (passed passed' : List Subprogram) (s : Subprogram)
    → EndsBefore scope s
    → Skips scope (s ∷ passed) passed'
    → Skips scope passed passed'
Skips-cons scope passed passed' s h (new, e, w) =
    (new ++ s ∷ [], e ∙ sym (append_assoc new (s ∷ []) passed), go new w)
  where
    go : (ts : List Subprogram) → All (EndsBefore scope) ts → All (EndsBefore scope) (ts ++ s ∷ [])
    go [] _ = (h, tt)
    go (t ∷ ts) a = (a.0, go ts a.1)

Found-cons :
    (scope : Scope) (passed : List Subprogram) (s : Subprogram) (found : Search)
    → EndsBefore scope s
    → Found scope (s ∷ passed) found
    → Found scope passed found
Found-cons scope passed s (reached passed' t _) h (r, w) =
    (r, Skips-cons scope passed passed' s h w)
Found-cons scope passed s (last_one passed' t) h (r, w) = (r, Skips-cons scope passed passed' s h w)
Found-cons scope passed s (ended position) h w = Skips-cons scope passed position.passed s h w
Found-cons scope passed s assert_failed h w = absurd w

search_at-Found :
    (scope : Scope) (passed : List Subprogram) (s : Subprogram) (rest : List Subprogram)
    (next : Search)
    → Found scope (s ∷ passed) next
    → Found scope passed (search_at scope passed s rest next)
search_at-Found scope passed s rest next w = elim (Bool-cases (reaches s scope)) [
  | inl e ↦ rw e (e, ([], refl, tt))
  | inr e ↦ rw e (Found-cons scope passed s next (reaches-EndsBefore scope s e) w)
]

fill_fits :
    (s n : Subprogram)
    → s.linenumber ≤ n.linenumber
    → n.linenumber < u32_mod
    → s.linenumber ≤ (fill s n).lastline
fill_fits s n h k = elim (Bool-cases (s.linenumber == n.linenumber)) [
  | inl e ↦ rw e h
  | inr e ↦ rw e (ground arith)
]

search-Found :
    (m : Matcher) (scope : Scope) (passed rest : List Subprogram)
    → Ascending rest
    → Found scope passed (search m scope passed rest)
unfolding search
search-Found m scope passed [] a = ([], refl, tt)
search-Found m scope passed (s ∷ []) a = elim (Bool-cases (in_file m s)) [
  | inr e ↦ rw (search, e) ([], refl, tt)
  | inl e ↦ elim (Bool-cases (s.lastline == 0)) [
    | inl f ↦ rw (search, e, f) (ground (arith, f), ([], refl, tt))
    | inr f ↦
        rw (search, e, f)
          (search_at-Found scope passed s [] (search m scope (s ∷ passed) [])
            (search-Found m scope (s ∷ passed) [] tt))
  ]
]
search-Found m scope passed (s ∷ n ∷ rest) a =
    let t = if s.lastline == 0 then fill s n else s in
    let more =
      search_at-Found scope passed t (n ∷ rest) (search m scope (t ∷ passed) (n ∷ rest))
        (search-Found m scope (t ∷ passed) (n ∷ rest) a.2) in
    elim (Bool-cases (in_file m s)) [
      | inr e ↦ rw (search, e) ([], refl, tt)
      | inl e ↦ elim (Bool-cases (s.lastline == 0 && ltb t.lastline t.linenumber)) [
        | inl f ↦ absurd (ground (arith, fill_fits s n a.0 a.1, f))
        | inr f ↦ rw (search, e, f) more
      ]
    ]

-- The subprogram lies over the scope, and what is left of the scope is what lies behind it.
pub record Overlaps (s : Subprogram) (scope left : Scope) : Type 0 where
  pub starts : s.linenumber ≤ scope.end
  pub ends : scope.begin ≤ s.lastline
  pub remains :
      ((scope.end ≤ s.lastline) × (left ≡ scope))
      ⊎ ((s.lastline < scope.end) × (left ≡ record scope { begin = s.lastline + 1 }))

-- What a call can give back.
pub data Outcome (scope : Scope) (r : Match) : Type 0 where
  no_function : r.result ≡ none → r.scope ≡ scope → Outcome scope r
  unknown_end :
      (s : Subprogram)
      → r.position.rest ≡ s ∷ []
      → s.lastline ≡ 0
      → r.result ≡ s.function
      → r.scope ≡ scope
      → Outcome scope r
  over :
      (s : Subprogram) (after : List Subprogram)
      → r.position.rest ≡ s ∷ after
      → r.result ≡ s.function
      → r.multiple ≡ false
      → Overlaps s scope r.scope
      → Outcome scope r

abbrev pub Decides : Scope → List Subprogram → Option Match → Type 0
Decides scope passed answer =
    (r : Match) × (answer ≡ some r) × Outcome scope r × Skips scope passed (r.position.passed)

reached-Overlaps :
    (s : Subprogram) (scope : Scope)
    → scope.end < u32_mod
    → reaches s scope ≡ true
    → is_behind s scope ≡ false
    → Overlaps s scope (rest_of_scope s scope)
reached-Overlaps s scope bound r b = record {
  starts = ground arith;
  ends = ground arith;
  remains = elim (Bool-cases (ltb s.lastline scope.end)) [
    | inl e ↦
        let next : inc s.lastline ≡ s.lastline + 1 = ground arith in
        inr (ground arith, rw e (ap (λ n. record scope { begin = n }) next))
    | inr e ↦ inl (ground arith, rw e refl)
  ];
}

conclude-Decides :
    (scope : Scope) (multiple : Bool) (passed : List Subprogram) (found : Search)
    → scope.end < u32_mod
    → Found scope passed found
    → Decides scope passed (conclude scope multiple found)
unfolding conclude
conclude-Decides scope multiple passed (ended position) h w = (_, refl, no_function refl refl, w)
conclude-Decides scope multiple passed (last_one passed' s) h (z, w) =
    (_, refl, unknown_end s refl z refl refl, w)
conclude-Decides scope multiple passed assert_failed h w = absurd w
conclude-Decides scope multiple passed (reached passed' s rest) h (e, w) =
    elim (Bool-cases (is_behind s scope)) [
      | inl b ↦ rw (conclude, b) (_, refl, no_function refl refl, w)
      | inr b ↦
          rw (conclude, b) (_, refl, over s rest refl refl refl (reached-Overlaps s scope h e b), w)
    ]

-- On subprograms in the order of their first lines, for a scope whose end is an unsigned of 32 bits,
-- matchFunction never fails its assertion. It gives back no function and leaves the scope; or the
-- last subprogram of the vector, whose last line is not known, and leaves the scope; or a
-- subprogram that begins no later than the scope ends and ends no earlier than the scope begins, and
-- then the scope keeps what lies behind the subprogram if anything does, and the flag for several
-- functions is false even so. Every subprogram that it has walked past ends in front of the scope, or
-- ends on the scope's first line and has another first line than that.
pub match_function-Decides :
    (m : Matcher) (position : Position) (scope : Scope) (multiple : Bool)
    → Ascending position.rest
    → scope.end < u32_mod
    → Decides scope position.passed (match_function m position scope multiple)
unfolding match_function
match_function-Decides m position scope multiple a h = elim (Bool-cases m.initialized) [
  | inr e ↦ rw (match_function, e) (_, refl, no_function refl refl, ([], refl, tt))
  | inl e ↦ elim (Bool-cases (ltb scope.end scope.begin)) [
    | inl f ↦ rw (match_function, e, f) (_, refl, no_function refl refl, ([], refl, tt))
    | inr f ↦
        rw (match_function, e, f)
          (conclude-Decides scope multiple position.passed
            (search m scope position.passed position.rest) h
            (search-Found m scope position.passed position.rest a))
  ]
]
