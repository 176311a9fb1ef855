-- ===== src/Tools/Profiler/Read.antt =====
-- What the profiler writes is what the evaluator's parser reads.
use perfscope.Base.{
  ℕ, zero, suc, ◌≤◌, ◌<◌, ◌≡◌, refl, ap, ◌∙◌, ◌⊎◌, inl, inr, Bool, false, List, [], ◌∷◌, ◌++◌, map,
  Option, none, some, arith, Text, codes, text_eq, length, take, print_lines, append-nil, IsOneLine,
  All, Bool-cases,
}
use perfscope.Analyzer.Profile.{
  expcall, freqcall, segment_mark, SpeFuncType, Profile, empty_profile, binary_search, parse_file,
  from_spe_type_name,
}
use perfscope.Analyzer.Profile.Parse.{Segment, AreLines, print_profile, listed}
use perfscope.Analyzer.Profile.File.{Fit, parse_file-listed}
use perfscope.Mapper.Target.Sorting.{length-sort_by, sort_by-All}
use perfscope.Tools.Profiler.{
  Func, Rated, Options, is_llvm_function, unset, rate_cost, rate_hot, compare_rated, limit,
  print_rows, ranked, print_section, join, static_profile,
}

print_rows-take :
    (k : ℕ) (rs : List Rated)
    → k ≤ length rs
    → print_rows false k rs ≡ some (map (λ (r : Rated). r.name) (take k rs))
unfolding print_rows
print_rows-take zero rs h = refl
print_rows-take (suc k) [] h = absurd (omega arith)
print_rows-take (suc k) (r ∷ rs) h = rw (print_rows, print_rows-take k rs (omega arith)) refl

print_rows-none :
    (detail : Bool) (k : ℕ) (rs : List Rated) → length rs < k → print_rows detail k rs ≡ none
unfolding print_rows
print_rows-none detail zero rs h = absurd (omega arith)
print_rows-none detail (suc k) [] h = refl
print_rows-none detail (suc k) (r ∷ rs) h =
    rw (print_rows, print_rows-none detail k rs (omega arith)) refl

-- The names that a section shows.
abbrev pub shown : ℕ → List Rated → List Text
shown k rs = map (λ (r : Rated). r.name) (take k rs)

abbrev pub dear_calls : ℕ → List Func → Segment
dear_calls k fs = record {
  type = expcall;
  name = codes "EXPCALL";
  lines = shown k (ranked rate_cost fs);
}

abbrev pub frequent_calls : ℕ → List Func → Segment
frequent_calls k fs = record {
  type = freqcall;
  name = codes "FREQCALL";
  lines = shown k (ranked rate_hot fs);
}

-- A demangled name is a line of the profile: it fits in the parser's buffer and is not the mark.
abbrev pub IsName : Text → Type 0
IsName s = IsOneLine s × (length s < 255) × (text_eq s segment_mark ≡ false)

abbrev pub HasName : Rated → Type 0
HasName r = IsName r.name

unset-HasName : HasName unset
unset-HasName = (tt, omega arith, refl)

rate_cost-HasName : (f : Func) → IsName f.demangled → HasName (rate_cost f)
rate_cost-HasName f w = elim (Bool-cases (is_llvm_function f)) [
  | inl e ↦ rw e unset-HasName
  | inr e ↦ rw e w
]

rate_hot-HasName : (f : Func) → IsName f.demangled → HasName (rate_hot f)
rate_hot-HasName f w = elim (Bool-cases (is_llvm_function f)) [
  | inl e ↦ rw e unset-HasName
  | inr e ↦ rw e w
]

map-All :
    (rate : Func → Rated) (fs : List Func)
    → ((f : Func) → IsName f.demangled → HasName (rate f))
    → All (λ (f : Func). IsName f.demangled) fs
    → All HasName (map rate fs)
map-All rate [] named w = tt
map-All rate (f ∷ fs) named w = (named f w.0, map-All rate fs named w.1)

shown-AreLines : (k : ℕ) (rs : List Rated) → All HasName rs → AreLines (shown k rs)
shown-AreLines zero rs w = tt
shown-AreLines (suc k) [] w = tt
shown-AreLines (suc k) (r ∷ rs) w = (w.0.2, shown-AreLines k rs w.1)

shown-Fit :
    (k : ℕ) (rs : List Rated) (ls : List Text) → All HasName rs → Fit ls → Fit (shown k rs ++ ls)
shown-Fit zero rs ls w f = f
shown-Fit (suc k) [] ls w f = f
shown-Fit (suc k) (r ∷ rs) ls w f = ((w.0.0, w.0.1), shown-Fit k rs ls w.1 f)

length-map-Rated : (rate : Func → Rated) (fs : List Func) → length (map rate fs) ≡ length fs
length-map-Rated rate [] = refl
length-map-Rated rate (f ∷ fs) = ap suc (length-map-Rated rate fs)

length-ranked : (rate : Func → Rated) (fs : List Func) → length (ranked rate fs) ≡ length fs
length-ranked rate fs = length-sort_by compare_rated (map rate fs) ∙ length-map-Rated rate fs

ranked-Names :
    (rate : Func → Rated) (fs : List Func)
    → ((f : Func) → IsName f.demangled → HasName (rate f))
    → All (λ (f : Func). IsName f.demangled) fs
    → All HasName (ranked rate fs)
ranked-Names rate fs named w =
    sort_by-All compare_rated HasName (map rate fs) (map-All rate fs named w)

module _ (o : Options) (f : Func) (fs : List Func) where
  abbrev pub cost_limit : ℕ
  cost_limit = limit o.printall o.topk_cost (length (f ∷ fs))

  abbrev pub hot_limit : ℕ
  hot_limit = limit o.printall o.topk_hot (length (f ∷ fs))

  abbrev pub sections : List Segment
  sections = dear_calls cost_limit (f ∷ fs) ∷ frequent_calls hot_limit (f ∷ fs) ∷ []

  sections-Fit :
      All HasName (ranked rate_cost (f ∷ fs))
      → All HasName (ranked rate_hot (f ∷ fs))
      → Fit (print_profile sections)
  sections-Fit dear frequent =
      let first : Fit (segment_mark ∷ codes "EXPCALL" ∷ segment_mark ∷ []) = ground arith in
      let second : Fit (segment_mark ∷ codes "FREQCALL" ∷ segment_mark ∷ []) = ground arith in
      (
        first.0,
        (
          first.1.0,
          (
            first.1.1.0,
            shown-Fit cost_limit (ranked rate_cost (f ∷ fs)) _ dear (
              second.0,
              (
                second.1.0,
                (second.1.1.0, shown-Fit hot_limit (ranked rate_hot (f ∷ fs)) [] frequent tt),
              ),
            ),
          ),
        ),
      )

  -- A profile without details, of a module whose demangled names are lines of it: where neither limit
  -- exceeds the number of the functions, the parser accepts what the profiler writes, and the
  -- evaluator's binary search then finds among the expensive and the frequent functions exactly the
  -- names that the two sections show.
  pub static_profile-listed :
      o.detail ≡ false
      → cost_limit ≤ length (f ∷ fs)
      → hot_limit ≤ length (f ∷ fs)
      → All (λ (g : Func). IsName g.demangled) (f ∷ fs)
      → (text : Text) × (q : Profile) × (static_profile o (f ∷ fs) ≡ some text)
        × (parse_file empty_profile text ≡ some q)
        × ((t : SpeFuncType) (v : Text) → binary_search (q t) v ≡ listed sections t v)
  unfolding static_profile from_spe_type_name
  static_profile-listed plain costs hots named =
      let dear = ranked-Names rate_cost (f ∷ fs) rate_cost-HasName named in
      let frequent = ranked-Names rate_hot (f ∷ fs) rate_hot-HasName named in
      let (q, run, w) =
        parse_file-listed sections
          (
            record {
              named = refl;
              valid = refl;
              lines = shown-AreLines cost_limit (ranked rate_cost (f ∷ fs)) dear;
            },
            (
              record {
                named = refl;
                valid = refl;
                lines = shown-AreLines hot_limit (ranked rate_hot (f ∷ fs)) frequent;
              },
              tt,
            ),
          )
          (sections-Fit dear frequent) in
      (
        print_lines (print_profile sections),
        q,
        rw
            (
              static_profile,
              plain,
              print_rows-take cost_limit (ranked rate_cost (f ∷ fs))
                  (omega (arith, length-ranked rate_cost (f ∷ fs))),
              print_rows-take hot_limit (ranked rate_hot (f ∷ fs))
                  (omega (arith, length-ranked rate_hot (f ∷ fs))),
              append-nil (shown hot_limit (ranked rate_hot (f ∷ fs))),
            )
            refl,
        run,
        w,
      )

  -- Where a limit exceeds the number of the functions, the profiler reads behind its array.
  pub static_profile_overrun :
      (length (f ∷ fs) < cost_limit) ⊎ (length (f ∷ fs) < hot_limit)
      → static_profile o (f ∷ fs) ≡ none
  unfolding static_profile
  static_profile_overrun (inl h) =
      rw
        (
          static_profile,
          print_rows-none o.detail cost_limit (ranked rate_cost (f ∷ fs))
              (omega (arith, length-ranked rate_cost (f ∷ fs))),
        )
        refl
  static_profile_overrun (inr h) =
      join_none
        (print_section (codes "EXPCALL")
          (print_rows o.detail cost_limit (ranked rate_cost (f ∷ fs))))
        (print_section (codes "FREQCALL")
          (print_rows o.detail hot_limit (ranked rate_hot (f ∷ fs))))
        (ap (print_section (codes "FREQCALL")) (
          print_rows-none o.detail hot_limit (ranked rate_hot (f ∷ fs))
            (omega (arith, length-ranked rate_hot (f ∷ fs)))))
    where
      join_none : (a b : Option (List Text)) → b ≡ none → join a b ≡ none
      join_none none b e = refl
      join_none (some a) b e = ap (join (some a)) e
