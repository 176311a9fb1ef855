-- ===== src/Examples/Numbers.antt =====
-- Line numbers on both sides of the bound.
use perfscope.Base.{arith, ◌≡◌, ◌++◌, refl, if◌then◌else◌, ltb, u32_mod, codes}
use perfscope.Base.Result.{ok, err}
use perfscope.Patch.Number.{parse_int, too_big, invalid_number, decimal, parse_int-decimal}

parse_int-decimal_example : parse_int (codes "4294967296" ++ codes ",3") ≡ (
    if ltb (decimal 0 (codes "4294967296")) u32_mod
    then ok (decimal 0 (codes "4294967296"), codes ",3")
    else err too_big)
parse_int-decimal_example = parse_int-decimal (codes "4294967296") (codes ",3") (ground arith) refl

parse_int-bounds :
    (parse_int (codes "4294967295,3") ≡ ok (4294967295, codes ",3"))
    × (parse_int (codes "4294967296,3") ≡ err too_big)
    × (parse_int (codes "12+3") ≡ err invalid_number)
unfolding parse_int
parse_int-bounds = (refl, refl, refl)
