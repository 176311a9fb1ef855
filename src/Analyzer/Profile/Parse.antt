-- ===== src/Analyzer/Profile/Parse.antt =====
-- What a profile that was read answers: the lines of a segment are found under its type.
use perfscope.Base.{
  ℕ, ◌≡◌, refl, ap, ◌∙◌, inl, inr, Bool, false, not, ◌&&◌, ◌||◌, List, [], ◌∷◌, ◌++◌, some, arith,
  Text, text_eq, Bool-cases, Option-cases,
}
use perfscope.Analyzer.Profile.{
  SpeFuncType, invalidtype, type_eq, from_spe_type_name, Profile, push_back, empty_profile, sort,
  binary_search, segment_mark, Mode, body, want_type, want_end, Parser, parse_body, parse_line,
  parse_loop, parse_profile,
}
use perfscope.Analyzer.Profile.Order.{contains}
use perfscope.Analyzer.Profile.Search.{binary_search-sort}

-- A segment of a profile: its type and its lines.
pub record Segment : Type 0 where
  pub type : SpeFuncType
  pub name : Text
  pub lines : List Text

-- The type is spelled as the parser reads it, and no line is the mark.
abbrev pub IsLine : Text → Type 0
IsLine l = text_eq l segment_mark ≡ false

abbrev pub AreLines : List Text → Type 0
AreLines [] = Unit {0}
AreLines (l ∷ ls) = IsLine l × AreLines ls

pub record IsSegment (s : Segment) : Type 0 where
  pub named : from_spe_type_name s.name ≡ s.type
  pub valid : type_eq s.type invalidtype ≡ false
  pub lines : AreLines s.lines

abbrev pub AreSegments : List Segment → Type 0
AreSegments [] = Unit {0}
AreSegments (s ∷ ss) = IsSegment s × AreSegments ss

-- The lines of a profile file.
abbrev pub print_segment : Segment → List Text
print_segment s = segment_mark ∷ s.name ∷ segment_mark ∷ s.lines

abbrev pub print_profile : List Segment → List Text
print_profile [] = []
print_profile (s ∷ ss) = print_segment s ++ print_profile ss

-- A line that is not empty is a name.
abbrev holds_name : List Text → Text → Bool
holds_name ls v = not (text_eq v []) && contains ls v

-- A name stands in a segment of the type.
abbrev pub listed : List Segment → SpeFuncType → Text → Bool
listed [] t v = false
listed (s ∷ ss) t v = type_eq t s.type && holds_name s.lines v || listed ss t v

contains-append :
    (xs ys : List Text) (v : Text) → contains (xs ++ ys) v ≡ (contains xs v || contains ys v)
contains-append [] ys v = refl
contains-append (x ∷ xs) ys v = ground (arith, contains-append xs ys v)

-- What `q` has gathered beyond `p`.
record Adds (p : Profile) (t : SpeFuncType) (ls : List Text) (q : Profile) : Type 0 where
  adds :
      (u : SpeFuncType) (v : Text)
      → contains (q u) v ≡ (contains (p u) v || type_eq u t && holds_name ls v)

parse_loop-append :
    (p q : Parser) (ls ms : List Text)
    → parse_loop p ls ≡ some q
    → parse_loop p (ls ++ ms) ≡ parse_loop q ms
unfolding parse_loop
parse_loop-append p q [] ms h = let same : p ≡ q = cc h in ap (λ r. parse_loop r ms) same
parse_loop-append p q (l ∷ ls) ms h = elim (Option-cases (parse_line p l)) [
  | inl e ↦ absurd (cc (rw (e, parse_loop) at h))
  | inr (r, e) ↦ rw (e, parse_loop) (parse_loop-append r q ls ms (rw (e, parse_loop) at h))
]

push_back-contains :
    (p : Profile) (t u : SpeFuncType) (l v : Text)
    → contains (push_back p t l u) v ≡ (contains (p u) v || type_eq u t && text_eq l v)
push_back-contains p t u l v = elim (Bool-cases (type_eq u t)) [
  | inl e ↦ rw e (contains-append (p u) (l ∷ []) v ∙ ground arith)
  | inr e ↦ rw e (ground arith)
]

abbrev parser_at : Mode → SpeFuncType → Profile → Parser
parser_at m t p = record { mode = m; type = t; profile = p }

parse_line-line :
    (p : Profile) (t : SpeFuncType) (c : ℕ) (l : Text)
    → type_eq t invalidtype ≡ false
    → IsLine (c ∷ l)
    → parse_line (parser_at body t p) (c ∷ l) ≡ some (parser_at body t (push_back p t (c ∷ l)))
unfolding parse_line parse_body
parse_line-line p t c l n a = rw (a, n)

parse_line-blank :
    (p : Profile) (t : SpeFuncType) → parse_line (parser_at body t p) [] ≡ some (parser_at body t p)
unfolding parse_line parse_body
parse_line-blank p t = refl

holds_name-blank : (ls : List Text) (v : Text) → holds_name ([] ∷ ls) v ≡ holds_name ls v
holds_name-blank ls [] = refl
holds_name-blank ls (d ∷ v) = refl

holds_name-line :
    (c : ℕ) (l : Text) (ls : List Text) (v : Text)
    → holds_name ((c ∷ l) ∷ ls) v ≡ (text_eq (c ∷ l) v || holds_name ls v)
holds_name-line c l ls [] = refl
holds_name-line c l ls (d ∷ v) = refl

lines-Adds :
    (p : Profile) (t : SpeFuncType) (ls : List Text)
    → type_eq t invalidtype ≡ false
    → AreLines ls
    → (q : Profile) × (parse_loop (parser_at body t p) ls ≡ some (parser_at body t q))
      × Adds p t ls q
unfolding parse_loop
lines-Adds p t [] n a = (p, refl, record { adds = λ u v. ground arith })
lines-Adds p t ([] ∷ ls) n a =
    let (q, run, w) = lines-Adds p t ls n a.1 in
    (
      q,
      rw (parse_loop, parse_line-blank p t) run,
      record { adds = λ u v. rw (holds_name-blank ls v) (w.adds u v) },
    )
lines-Adds p t ((c ∷ l) ∷ ls) n a =
    let (q, run, w) = lines-Adds (push_back p t (c ∷ l)) t ls n a.1 in
    (
      q,
      rw (parse_loop, parse_line-line p t c l n a.0) run,
      record {
        adds = λ u v.
            w.adds u v
            ∙ ground (arith, push_back-contains p t u (c ∷ l) v, holds_name-line c l ls v);
      },
    )

parse_line-name :
    (p : Profile) (t : SpeFuncType) (s : Segment)
    → IsSegment s
    → parse_line (parser_at want_type t p) s.name ≡ some (parser_at want_end s.type p)
unfolding parse_line
parse_line-name p t s w = rw (w.named, w.valid)

parse_line-mark :
    (p : Profile) (t : SpeFuncType)
    → (parse_line (parser_at body t p) segment_mark ≡ some (parser_at want_type t p))
      × (parse_line (parser_at want_end t p) segment_mark ≡ some (parser_at body t p))
unfolding parse_line parse_body
parse_line-mark p t = (refl, refl)

head-type :
    (p : Profile) (t : SpeFuncType) (s : Segment)
    → IsSegment s
    → parse_loop (parser_at body t p) (segment_mark ∷ s.name ∷ segment_mark ∷ [])
      ≡ some (parser_at body s.type p)
unfolding parse_loop
head-type p t s w =
    let (opened, _) = parse_line-mark p t in
    let (_, closed) = parse_line-mark p s.type in
    rw (parse_loop, opened, parse_line-name p t s w, closed)

segment-Adds :
    (p : Profile) (t : SpeFuncType) (s : Segment)
    → IsSegment s
    → (q : Profile) × (parse_loop (parser_at body t p) (print_segment s)
        ≡ some (parser_at body s.type q))
      × Adds p s.type s.lines q
segment-Adds p t s w =
    let (q, run, added) = lines-Adds p s.type s.lines w.valid w.lines in
    (
      q,
      parse_loop-append (parser_at body t p) (parser_at body s.type p)
            (segment_mark ∷ s.name ∷ segment_mark ∷ []) s.lines (head-type p t s w)
          ∙ run,
      added,
    )

profile-Adds :
    (p : Profile) (t : SpeFuncType) (ss : List Segment)
    → AreSegments ss
    → (q : Profile) × (u : SpeFuncType) × (parse_loop (parser_at body t p) (print_profile ss)
        ≡ some (parser_at body u q))
      × ((k : SpeFuncType) (v : Text) → contains (q k) v ≡ (contains (p k) v || listed ss k v))
unfolding parse_loop
profile-Adds p t [] a = (p, t, refl, λ k v. ground arith)
profile-Adds p t (s ∷ ss) a =
    let (q, run, w) = segment-Adds p t s a.0 in
    let (r, u, run_rest, w_rest) = profile-Adds q s.type ss a.1 in
    (
      r,
      u,
      parse_loop-append (parser_at body t p) (parser_at body s.type q) (print_segment s)
            (print_profile ss) run
          ∙ run_rest,
      λ k v. w_rest k v ∙ ground (arith, w.adds k v),
    )

-- A profile file made of segments whose type is spelled as one of the types and whose lines are
-- not the mark is accepted, and the evaluator's binary search in the vector of a type
-- then finds exactly the names that stand in a segment of that type, in whatever order.
pub parse_profile-listed :
    (ss : List Segment)
    → AreSegments ss
    → (q : Profile) × (parse_profile empty_profile (print_profile ss) ≡ some q)
      × ((t : SpeFuncType) (v : Text) → binary_search (q t) v ≡ listed ss t v)
unfolding parse_profile
parse_profile-listed ss a =
    let (q, u, run, w) = profile-Adds empty_profile invalidtype ss a in
    (λ t. sort (q t), rw (parse_profile, run) refl, λ t v. binary_search-sort (q t) v ∙ w t v)
