-- ===== src/Examples/Profiles.antt =====
-- A profile of three segments, read and searched.
use perfscope.Base.{print_lines, arith, ◌≡◌, refl, List, [], ◌∷◌, some, Text, codes}
use perfscope.Analyzer.Profile.{
  SpeFuncType, syscall, freqcall, from_spe_type_name, Profile, empty_profile, binary_search,
  parse_file,
}
use perfscope.Analyzer.Profile.Parse.{Segment, AreSegments, print_profile, listed}
use perfscope.Analyzer.Profile.File.{Fit, parse_file-listed}

abbrev system_calls : Segment
system_calls = record {
  type = syscall;
  name = codes "SYSCALL";
  lines = codes "write" ∷ codes "read" ∷ [];
}

abbrev hot_calls : Segment
hot_calls = record { type = freqcall; name = codes "FREQCALL"; lines = codes "lookup" ∷ [] }

abbrev more_calls : Segment
more_calls = record { type = syscall; name = codes "SYSCALL"; lines = codes "open" ∷ [] }

abbrev segments : List Segment
segments = system_calls ∷ hot_calls ∷ more_calls ∷ []

segments-AreSegments : AreSegments segments
unfolding from_spe_type_name
segments-AreSegments = (
  record { named = refl; valid = refl; lines = (refl, (refl, tt)) },
  (
    record { named = refl; valid = refl; lines = (refl, tt) },
    (record { named = refl; valid = refl; lines = (refl, tt) }, tt),
  ),
)

segments-Fit : Fit (print_profile segments)
segments-Fit = ground arith

parse_file-listed_example :
    (q : Profile) × (parse_file empty_profile (print_lines (print_profile segments)) ≡ some q)
    × ((t : SpeFuncType) (v : Text) → binary_search (q t) v ≡ listed segments t v)
parse_file-listed_example = parse_file-listed segments segments-AreSegments segments-Fit
