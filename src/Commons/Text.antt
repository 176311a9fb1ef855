-- ===== src/Commons/Text.antt =====
-- The string functions of lib/commons/handy.cc. A pointer into a string is the suffix that it
-- points to; `none` is a null pointer.
pub mod Strip
pub mod Ends
pub mod Count
use perfscope.Base.{
  ℕ, zero, suc, ◌+◌, ◌-◌, ◌*◌, ◌%◌, ◌^◌, Bool, true, false, not, ◌&&◌, ◌||◌, List, [], ◌∷◌, ◌++◌,
  Option, none, some, Text, text_eq, codes, ltb, leb, ◌==◌, if◌then◌else◌, length, take, drop,
  get_or, u32_mod,
}
use perfscope.Base.Int.{ℤ, pos, negsuc, ◌-ℤ◌}

-- ISSLASH
abbrev pub is_slash : ℕ → Bool
is_slash c = c == b'/'

-- ISSLASH(*s)
abbrev pub starts_slash : Text → Bool
starts_slash [] = false
starts_slash (c ∷ s) = is_slash c

abbrev pub is_neg : ℤ → Bool
is_neg (pos _) = false
is_neg (negsuc _) = true

abbrev pub is_zero : ℤ → Bool
is_zero (pos n) = n == 0
is_zero (negsuc _) = false

-- The inner `while` moves on to the last slash of a run, where the count falls.
pub strip_loop : ℤ → Text → ℤ → Text → Text
unfolding ◌-ℤ◌
strip_loop strips p left [] = p
strip_loop strips p left (c ∷ s) = elim (is_slash c && not (starts_slash s)) [
  | false ↦ strip_loop strips p left s
  | true ↦ elim (is_neg strips) [
    | true ↦ elim (is_zero left) [ true ↦ s | false ↦ strip_loop strips s left s ]
    | false ↦
        let left' = left -ℤ pos 1 in
        let p' = if is_neg left' then p else s in
        elim (is_zero left') [ true ↦ p' | false ↦ strip_loop strips p' left' s ]
  ]
]

unfoldable pub stripname : Text → ℤ → Text
unfolding strip_loop
stripname name strips = if is_zero strips then name else strip_loop strips name strips name

pub strnchr : Text → ℕ → ℕ → Option Text
strnchr s zero ch = none
strnchr [] (suc n) ch = none
strnchr (c ∷ s) (suc n) ch = if ch == c then some (c ∷ s) else strnchr s n ch

pub lastof_from : Option Text → Text → ℕ → Option Text
lastof_from p [] ch = p
lastof_from p (c ∷ s) ch = lastof_from (if c == ch then some (c ∷ s) else p) s ch

pub lastof : Text → ℕ → Option Text
unfolding lastof_from
lastof s ch = lastof_from none s ch

-- `limited` is `sn > 0`; `cnt` is an unsigned.
pub count_from : Bool → ℕ → ℕ → Text → ℕ → ℕ
count_from limited n cnt [] ch = cnt
count_from limited n cnt (c ∷ s) ch =
    let rest = count_from limited (n - 1) (if ch == c then (cnt + 1) % u32_mod else cnt) s ch in
    if limited && n == 0 then cnt else rest

unfoldable pub countnchr : Text → ℕ → ℕ → ℕ
unfolding count_from
countnchr s n ch = count_from (ltb 0 n) n 0 s ch

unfoldable pub endswith : Text → Text → Bool
endswith s ending =
    if ltb (length s) (length ending)
    then false
    else text_eq (drop (length s - length ending) s) ending

unfoldable pub pendswith : Text → Text → Bool
unfolding endswith
pendswith s ending =
    endswith s ending
    && (length s == length ending
        || starts_slash ending
        || is_slash (get_or s (length s - length ending - 1) 0))

-- `buf` holds `len` bytes, and `out` is what was written to it, the last first.
pub record Buffer : Type 0 where
  pub len : ℕ
  pub out : Text

-- Double the buffer when `pos` has reached its end.
abbrev pub reserve : Buffer → Buffer
reserve b = if leb b.len (length b.out) then record b { len = b.len * 2 } else b

pub common_from : Buffer → Text → Text → Buffer
common_from b [] t = reserve b
common_from b (c ∷ s) [] = reserve b
common_from b (c ∷ s) (d ∷ t) =
    let r = reserve b in
    let rest = common_from (record r { out = c ∷ r.out }) s t in if c == d then rest else reserve b

unfoldable pub common_prefix : ℕ → Text → Text → Buffer
unfolding common_from
common_prefix len s t = common_from (record { len = len; out = [] }) s t

-- SOURCE_SUFFIX with SUFFIX_LEN
abbrev pub suffixes : List (Text × ℕ)
suffixes =
    (codes ".c", 1)
    ∷ (codes ".cc", 2)
    ∷ (codes ".cpp", 3)
    ∷ (codes ".C", 1)
    ∷ (codes ".hpp", 3)
    ∷ []

pub src2obj_from : List (Text × ℕ) → Text → Option Text
unfolding endswith
src2obj_from [] name = none
src2obj_from ((suffix, slen) ∷ rest) name =
    if endswith name suffix
    then some (take (length name - slen) name ++ b'o' ∷ [])
    else src2obj_from rest name

-- The name that `src2obj` writes; `none` is its null pointer.
unfoldable pub src2obj : Text → Option Text
unfolding src2obj_from
src2obj name = src2obj_from suffixes name
