-- ===== src/Commons/Text/Count.antt =====
-- countnchr and common_prefix of lib/commons/handy.cc against recursive descriptions.
use perfscope.Base.{
  ℕ, zero, suc, ◌+◌, ◌-◌, ◌%◌, ◌≤◌, ◌<◌, ◌≡◌, refl, sym, ap, ap₂, subst, ◌∙◌, ◌≢◌, inl, inr, true,
  false, [], ◌∷◌, ◌++◌, reverse, append-nil, append_assoc, reverse-cons, arith, Text, ◌==◌,
  if◌then◌else◌, Bool-cases, length, take,
}
use perfscope.Base.{u32_mod}
use perfscope.Commons.Text.{count_from, countnchr, Buffer, reserve, common_from, common_prefix}

-- How often a character stands in a text.
unfoldable pub occurrences : ℕ → Text → ℕ
occurrences ch [] = 0
occurrences ch (c ∷ s) = (if ch == c then 1 else 0) + occurrences ch s

count_from-all :
    (cnt n ch : ℕ) (s : Text)
    → cnt < u32_mod
    → count_from false n cnt s ch ≡ (cnt + occurrences ch s) % u32_mod
unfolding count_from occurrences
count_from-all cnt n ch [] h = omega arith
count_from-all cnt n ch (c ∷ s) h =
    ground
      (arith, count_from-all ((cnt + 1) % u32_mod) (n - 1) ch s, count_from-all cnt (n - 1) ch s)

count_from-limited :
    (cnt n ch : ℕ) (s : Text)
    → cnt < u32_mod
    → count_from true n cnt s ch ≡ (cnt + occurrences ch (take n s)) % u32_mod
unfolding count_from occurrences
count_from-limited cnt zero ch [] h = omega arith
count_from-limited cnt (suc n) ch [] h = omega arith
count_from-limited cnt zero ch (c ∷ s) h = omega arith
count_from-limited cnt (suc n) ch (c ∷ s) h =
    let same : suc n - 1 ≡ n = omega arith in
    rw same
      (ground (arith, count_from-limited (if ch == c then (cnt + 1) % u32_mod else cnt) n ch s))

-- `countnchr` counts the occurrences among the first `n` characters, and among all of them where
-- `n` is 0, modulo the width of an unsigned.
pub countnchr-occurrences :
    (s : Text) (n ch : ℕ)
    → (countnchr s 0 ch ≡ occurrences ch s % u32_mod)
      × (countnchr s (suc n) ch ≡ occurrences ch (take (suc n) s) % u32_mod)
unfolding countnchr
countnchr-occurrences s n ch =
    (ground (arith, count_from-all 0 0 ch s), ground (arith, count_from-limited 0 (suc n) ch s))

-- The texts do not begin with the same character.
abbrev pub Diverges : Text → Text → Type 0
Diverges [] t = Unit {0}
Diverges (c ∷ s) [] = Unit {0}
Diverges (c ∷ s) (d ∷ t) = c ≢ d

-- `p` is a prefix of both texts, and no longer one is.
pub record LongestCommon (s t p : Text) : Type 0 where
  pub left : Text
  pub right : Text
  pub of_left : s ≡ p ++ left
  pub of_right : t ≡ p ++ right
  pub longest : Diverges left right

-- The buffer's text, and room for it and the terminating NUL.
pub record Holds (b r : Buffer) (s t : Text) : Type 0 where
  pub prefix : Text
  pub common : LongestCommon s t prefix
  pub text : reverse r.out ≡ reverse b.out ++ prefix
  pub room : length r.out < r.len

reserve_room :
    (b : Buffer) → 0 < b.len → length b.out ≤ b.len → length (reserve b).out < (reserve b).len
reserve_room b h k = ground arith

stop-Holds :
    (b : Buffer) (s t : Text)
    → Diverges s t
    → 0 < b.len
    → length b.out ≤ b.len
    → Holds b (reserve b) s t
stop-Holds b s t d h k = record {
  prefix = [];
  common = record { left = s; right = t; of_left = refl; of_right = refl; longest = d };
  text = ground (arith, append-nil (reverse b.out));
  room = reserve_room b h k;
}

common_from-Holds :
    (b : Buffer) (s t : Text) → 0 < b.len → length b.out ≤ b.len → Holds b (common_from b s t) s t
unfolding common_from
common_from-Holds b [] t h k = stop-Holds b [] t tt h k
common_from-Holds b (c ∷ s) [] h k = stop-Holds b (c ∷ s) [] tt h k
common_from-Holds b (c ∷ s) (d ∷ t) h k =
    let r = reserve b in
    let next : Buffer = record r { out = c ∷ r.out } in
    let rest = common_from-Holds next s t (ground arith) (ground (arith, reserve_room b h k)) in
    elim (Bool-cases (c == d)) [
      | inr e ↦ rw (e, common_from) (stop-Holds b (c ∷ s) (d ∷ t) (ground arith) h k)
      | inl e ↦ rw (e, common_from) (longer rest (ground arith))
    ]
  where
    same_out : (reserve b).out ≡ b.out
    same_out = ground arith

    longer :
        {r : Buffer}
        → Holds (record (reserve b) { out = c ∷ (reserve b).out }) r s t
        → c ≡ d
        → Holds b r (c ∷ s) (d ∷ t)
    longer hold e = record {
      prefix = c ∷ hold.prefix;
      common = record {
        left = hold.common.left;
        right = hold.common.right;
        of_left = ap (◌∷◌ c) hold.common.of_left;
        of_right = ap₂ ◌∷◌ (sym e) hold.common.of_right;
        longest = hold.common.longest;
      };
      text =
          hold.text
          ∙ (rw (same_out, reverse-cons c b.out)
              (append_assoc (reverse b.out) (c ∷ []) hold.prefix));
      room = hold.room;
    }

-- `common_prefix` writes the longest common prefix of the two texts, and with a buffer that is not
-- empty every character and the terminating NUL fall inside the buffer as it has grown.
pub common_prefix-LongestCommon :
    (len : ℕ) (s t : Text)
    → 0 < len
    → LongestCommon s t (reverse (common_prefix len s t).out)
      × (length (common_prefix len s t).out < (common_prefix len s t).len)
unfolding common_prefix
common_prefix-LongestCommon len s t h =
    let empty : Buffer = record { len = len; out = [] } in
    let hold = common_from-Holds empty s t h (omega arith) in
    (subst (LongestCommon s t) (sym hold.text) hold.common, hold.room)
