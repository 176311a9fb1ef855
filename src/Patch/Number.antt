-- ===== src/Patch/Number.antt =====
-- parseInt of lib/parser/PatchIRDecoder/PatchDecoder.cpp, which reads a line number up to a comma.
-- syntaxError ends the program.
use perfscope.Base.{
  ℕ, ◌+◌, ◌-◌, ◌*◌, ◌/◌, ◌%◌, ◌≤◌, ◌<◌, ◌≡◌, refl, Bool, true, false, not, ◌&&◌, [], ◌∷◌, ◌++◌,
  arith, Text, ltb, leb, ◌==◌, if◌then◌else◌, Bool-cases, inl, inr, u32_mod,
}
use perfscope.Base.Result.{Result, ok, err}

pub data NumberError : Type 0 where
  invalid_number too_big : NumberError

abbrev pub is_digit : ℕ → Bool
is_digit c = leb b'0' c && leb c b'9'

-- The number so far, and the text from `ss` on.
pub parse_int_loop : ℕ → Text → Result NumberError (ℕ × Text)
parse_int_loop num [] = ok (num, [])
parse_int_loop num (c ∷ ss) =
    let lineno = (num * 10 + (c - b'0')) % u32_mod in
    let rest = parse_int_loop lineno ss in
    if c == b','
    then ok (num, c ∷ ss)
    else if not (is_digit c)
    then err invalid_number
    else if lineno / 10 == num
    then rest
    else err too_big

unfoldable pub parse_int : Text → Result NumberError (ℕ × Text)
unfolding parse_int_loop
parse_int s = parse_int_loop 0 s

-- The number that digits spell behind a number already read, without a bound.
abbrev pub decimal : ℕ → Text → ℕ
decimal num [] = num
decimal num (c ∷ ds) = decimal (num * 10 + (c - b'0')) ds

abbrev pub AreDigits : Text → Type 0
AreDigits [] = Unit {0}
AreDigits (c ∷ ds) = (is_digit c ≡ true) × AreDigits ds

-- The text ends, or a comma follows.
abbrev pub ends_number : Text → Bool
ends_number [] = true
ends_number (c ∷ _) = c == b','

decimal_mono : (num : ℕ) (ds : Text) → num ≤ decimal num ds
decimal_mono num [] = omega arith
decimal_mono num (c ∷ ds) = omega (arith, decimal_mono (num * 10 + (c - b'0')) ds)

-- The test of the source is exact: a number that wraps fails it.
overflow_test :
    (num n : ℕ)
    → num < u32_mod
    → n < 10
    → ((num * 10 + n) % u32_mod / 10 == num) ≡ ltb (num * 10 + n) u32_mod
overflow_test num n h k = ground arith

parse_int_loop-decimal :
    (num : ℕ) (ds rest : Text)
    → num < u32_mod
    → AreDigits ds
    → ends_number rest ≡ true
    → parse_int_loop num (ds ++ rest)
      ≡ (if ltb (decimal num ds) u32_mod then ok (decimal num ds, rest) else err too_big)
unfolding parse_int_loop
parse_int_loop-decimal num [] [] h a e =
    let fits : ltb num u32_mod ≡ true = ground arith in rw fits refl
parse_int_loop-decimal num [] (c ∷ rest) h a e =
    let fits : ltb num u32_mod ≡ true = ground arith in rw (parse_int_loop, e, fits) refl
parse_int_loop-decimal num (c ∷ ds) rest h a e =
    let m = num * 10 + (c - b'0') in
    let test = overflow_test num (c - b'0') h (ground (arith, a.0)) in
    let comma : (c == b',') ≡ false = ground (arith, a.0) in
    elim (Bool-cases (ltb m u32_mod)) [
      | inl f ↦
          let whole : m % u32_mod ≡ m = ground arith in
          rw (parse_int_loop, comma, a.0, test, f, whole)
            (parse_int_loop-decimal m ds rest (ground arith) a.1 e)
      | inr f ↦
          let over : ltb (decimal m ds) u32_mod ≡ false = ground (arith, decimal_mono m ds) in
          rw (parse_int_loop, comma, a.0, test, f, over)
    ]

-- On digits that the end of the text or a comma follows, parseInt gives the number that they spell
-- and the text from the comma on if the number fits in 32 bits, and reports it as too big if it does
-- not: the test after each digit finds every overflow and nothing else.
pub parse_int-decimal :
    (ds rest : Text)
    → AreDigits ds
    → ends_number rest ≡ true
    → parse_int (ds ++ rest)
      ≡ (if ltb (decimal 0 ds) u32_mod then ok (decimal 0 ds, rest) else err too_big)
unfolding parse_int
parse_int-decimal ds rest a e = parse_int_loop-decimal 0 ds rest (omega arith) a e
