-- ===== src/Mapper/Target/Slide.antt =====
-- Where resetTarget leaves the iterator.
use perfscope.Base.{
  ◌≡◌, ◌⊎◌, Bool, true, false, List, [], ◌∷◌, ◌++◌, reverse, All, Text, none, length, ◌==◌,
}
use perfscope.Base.Result.{Result, ok}
use perfscope.Commons.Canon.{own, canonpath, pathneq}
use perfscope.Commons.Text.{stripname}
use perfscope.Mapper.Matcher.{Subprogram, Matcher, Position, debugname}
use perfscope.Mapper.Target.{init_name, match_compile_unit, sp_end}

-- The subprogram is one of the target file.
abbrev pub is_target : Matcher → Subprogram → Bool
is_target m s = pathneq (debugname s) m.patchname m.debugstrips

abbrev pub StartsAt : Matcher → List Subprogram → Type 0
StartsAt m [] = Unit {0}
StartsAt m (s ∷ _) = is_target m s ≡ true

-- The iterator stands in the vector, at the first subprogram of the target or at the end.
pub record Slid (m : Matcher) (sps : List Subprogram) (p : Position) : Type 0 where
  pub whole : reverse p.passed ++ p.rest ≡ sps
  pub skipped : All (λ s. is_target m s ≡ false) p.passed
  pub starts : StartsAt m p.rest

-- The names of the matcher are those of the target.
pub record Named (m : Matcher) (target : Text) : Type 0 where
  pub canonical : canonpath own target ≡ ok m.filename
  pub stripped : m.patchname ≡ stripname m.filename m.patchstrips
  pub nonempty : (length m.patchname == 0) ≡ false

-- What init_name leaves alone.
pub record Kept (m m' : Matcher) : Type 0 where
  pub sps : m'.sps ≡ m.sps
  pub cus : m'.cus ≡ m.cus
  pub processed : m'.processed ≡ m.processed

-- The iterator is at the end for a reason, or the matcher is ready and the iterator at the target.
abbrev pub Placed : Type 0 → Text → Position × Matcher → Type 0
Placed Reason target r =
    ((r.0 ≡ sp_end r.1.sps) × (Reason ⊎ (r.1.processed ≡ false)))
    ⊎ (Slid r.1 r.1.sps r.0 × Named r.1 target × (r.1.initialized ≡ true))

-- What stops resetTarget in front of the vector: a target that is no name, or no compile unit.
abbrev pub Refused : Matcher → Text → Type 0
Refused m target =
    ((init_name m target).0 ≡ false) ⊎ ((match_compile_unit (init_name m target).1 target).0 ≡ none)
