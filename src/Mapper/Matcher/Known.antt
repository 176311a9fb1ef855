-- ===== src/Mapper/Matcher/Known.antt =====
-- matchFunction on subprograms whose last lines are all known.
use perfscope.Base.{
  ℕ, ◌<◌, ◌≡◌, ◌⊎◌, refl, inl, inr, Bool, false, List, [], ◌∷◌, Option, none, some, arith, All,
  Bool-cases, ltb, ◌==◌,
}
use perfscope.Commons.Scope.{Scope}
use perfscope.Mapper.Matcher.{
  Subprogram, Matcher, Position, in_file, reaches, Search, reached, last_one, ended, assert_failed,
  search_at, search, Match, is_behind, conclude, match_function,
}

abbrev pub IsKnown : Subprogram → Type 0
IsKnown s = 0 < s.lastline

abbrev KnownSearch : Search → Type 0
KnownSearch (reached _ s rest) = IsKnown s × All IsKnown rest
KnownSearch (last_one _ _) = ⊥
KnownSearch (ended position) = All IsKnown position.rest
KnownSearch assert_failed = ⊥

search_at-Known :
    (scope : Scope) (passed : List Subprogram) (s : Subprogram) (rest : List Subprogram)
    (next : Search)
    → IsKnown s
    → All IsKnown rest
    → KnownSearch next
    → KnownSearch (search_at scope passed s rest next)
search_at-Known scope passed s rest next k w n = elim (Bool-cases (reaches s scope)) [
  | inl e ↦ rw e (k, w)
  | inr e ↦ rw e n
]

search-Known :
    (m : Matcher) (scope : Scope) (passed rest : List Subprogram)
    → All IsKnown rest
    → KnownSearch (search m scope passed rest)
unfolding search
search-Known m scope passed [] w = tt
search-Known m scope passed (s ∷ []) w =
    let known : (s.lastline == 0) ≡ false = ground (arith, w.0) in
    elim (Bool-cases (in_file m s)) [
      | inr e ↦ rw (search, e) w
      | inl e ↦
          rw (search, e, known)
            (search_at-Known scope passed s [] (search m scope (s ∷ passed) []) w.0 tt
              (search-Known m scope (s ∷ passed) [] tt))
    ]
search-Known m scope passed (s ∷ n ∷ rest) w =
    let known : (s.lastline == 0) ≡ false = ground (arith, w.0) in
    elim (Bool-cases (in_file m s)) [
      | inr e ↦ rw (search, e) w
      | inl e ↦
          rw (search, e, known)
            (search_at-Known scope passed s (n ∷ rest) (search m scope (s ∷ passed) (n ∷ rest)) w.0
              w.1 (search-Known m scope (s ∷ passed) (n ∷ rest) w.1))
    ]

-- No function, or the one at the iterator, and then the flag for several functions is false.
pub record Matched (r : Match) : Type 0 where
  pub known : All IsKnown r.position.rest
  pub single : (r.result ≡ none) ⊎ (r.multiple ≡ false)
  pub at_iterator :
      (f : ℕ)
      → r.result ≡ some f
      → (s : Subprogram) × (after : List Subprogram) × (r.position.rest ≡ s ∷ after)
        × (s.function ≡ some f)

abbrev pub Matches : Option Match → Type 0
Matches o = (r : Match) × (o ≡ some r) × Matched r

conclude-Matches :
    (scope : Scope) (multiple : Bool) (found : Search)
    → KnownSearch found
    → Matches (conclude scope multiple found)
unfolding conclude
conclude-Matches scope multiple (ended position) w =
    (_, refl, record { known = w; single = inl refl; at_iterator = λ f k. absurd (cc k) })
conclude-Matches scope multiple (last_one _ _) w = absurd w
conclude-Matches scope multiple assert_failed w = absurd w
conclude-Matches scope multiple (reached passed s rest) w = elim (Bool-cases (is_behind s scope)) [
  | inl e ↦
      rw (conclude, e)
        (_, refl, record { known = w; single = inl refl; at_iterator = λ f k. absurd (cc k) })
  | inr e ↦
      rw (conclude, e)
        (_, refl, record { known = w; single = inr refl; at_iterator = λ f k. (s, rest, refl, k) })
]

pub match_function-Matches :
    (m : Matcher) (position : Position) (scope : Scope) (multiple : Bool)
    → All IsKnown position.rest
    → Matches (match_function m position scope multiple)
unfolding match_function
match_function-Matches m position scope multiple w = elim (Bool-cases m.initialized) [
  | inr e ↦
      rw (match_function, e)
        (_, refl, record { known = w; single = inl refl; at_iterator = λ f k. absurd (cc k) })
  | inl e ↦ elim (Bool-cases (ltb scope.end scope.begin)) [
    | inl f ↦
        rw (match_function, e, f)
          (_, refl, record { known = w; single = inl refl; at_iterator = λ f k. absurd (cc k) })
    | inr f ↦
        rw (match_function, e, f)
          (conclude-Matches scope multiple (search m scope position.passed position.rest)
            (search-Known m scope position.passed position.rest w))
  ]
]
