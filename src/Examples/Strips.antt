-- ===== src/Examples/Strips.antt =====
-- The roots of small projects.
use perfscope.Base.{ℕ, ◌≡◌, refl, inl, inr, false, [], ◌∷◌, ◌++◌, some, arith, Text, codes}
use perfscope.Base.Int.{pos}
use perfscope.Base.Result.{ok, err}
use perfscope.Commons.Text.{starts_slash, stripname, endswith}
use perfscope.Commons.Text.Count.{occurrences}
use perfscope.Commons.Strips.{before_start, count_strips}
use perfscope.Commons.Strips.Root.{count_strips-root}

-- The directories share /home/p/.
abbrev library : Text
library = codes "/home/p/lib"

abbrev binaries : Text
binaries = codes "/home/p/bin"

count_strips-root_example :
    (n : ℕ) × (count_strips (some (library ∷ binaries ∷ [])) ≡ ok n)
    × ((rest : Text)
        → starts_slash rest ≡ false
        → stripname (codes "/home/p/" ++ rest) (pos n) ≡ rest)
unfolding endswith occurrences
count_strips-root_example =
    count_strips-root library binaries [] (λ e. cc e) (omega arith) (refl, refl)
      (
        refl,
        inl refl,
        (
          refl,
          inr (omega arith),
          (
            refl,
            inr (omega arith),
            (
              refl,
              inr (omega arith),
              (
                refl,
                inr (omega arith),
                (refl, inl refl, (refl, inr (omega arith), (refl, inl refl, tt))),
              ),
            ),
          ),
        ),
      )

-- A character that two components share counts as one more component.
lib_count : count_strips (some (codes "/p/lib1" ∷ codes "/p/lib2" ∷ [])) ≡ ok 3
unfolding count_strips
lib_count = refl

-- Nothing is shared.
no_root : count_strips (some (codes "/p" ∷ codes "q" ∷ [])) ≡ err before_start
unfolding count_strips
no_root = refl
