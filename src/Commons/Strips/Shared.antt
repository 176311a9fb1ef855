-- ===== src/Commons/Strips/Shared.antt =====
-- The buffer of count_strips holds what all directories begin with.
use perfscope.Base.{
  ℕ, ◌<◌, ◌≡◌, refl, sym, ap, ap₂, ◌∙◌, true, false, List, [], ◌∷◌, ◌++◌, reverse, append-nil,
  arith, Text, ◌==◌, if◌then◌else◌, length,
}
use perfscope.Commons.Text.{Buffer, common_prefix}
use perfscope.Commons.Text.Count.{Diverges, LongestCommon, common_prefix-LongestCommon}
use perfscope.Commons.Strips.{add_directories}

-- What two texts begin with.
abbrev pub shared : Text → Text → Text
shared [] t = []
shared (c ∷ s) [] = []
shared (c ∷ s) (d ∷ t) = if c == d then c ∷ shared s t else []

abbrev pub shared_all : Text → List Text → Text
shared_all s [] = s
shared_all s (t ∷ ts) = shared_all (shared s t) ts

diverging : (s t : Text) → Diverges s t → shared s t ≡ []
diverging [] t d = refl
diverging (c ∷ s) [] d = refl
diverging (c ∷ s) (e ∷ t) d = let other : (c == e) ≡ false = ground (arith, d) in rw other refl

shared_prefix : (p s t : Text) → shared (p ++ s) (p ++ t) ≡ p ++ shared s t
shared_prefix [] s t = refl
shared_prefix (c ∷ p) s t =
    let same : (c == c) ≡ true = ground arith in rw same (ap (◌∷◌ c) (shared_prefix p s t))

LongestCommon-shared : (s t p : Text) → LongestCommon s t p → p ≡ shared s t
LongestCommon-shared s t p w = sym (
    ap₂ shared w.of_left w.of_right
    ∙ shared_prefix p w.left w.right
    ∙ ap (λ r. p ++ r) (diverging w.left w.right w.longest)
    ∙ append-nil p)

-- The buffer holds a text and its NUL.
pub record Holding (b : Buffer) (s : Text) : Type 0 where
  pub text : reverse b.out ≡ s
  pub room : length b.out < b.len

pub common_prefix-Holding :
    (len : ℕ) (s t : Text) → 0 < len → Holding (common_prefix len s t) (shared s t)
common_prefix-Holding len s t h =
    let (common, room) = common_prefix-LongestCommon len s t h in
    record { text = LongestCommon-shared s t _ common; room = room }

pub add_directories-Holding :
    (b : Buffer) (s : Text) (ts : List Text)
    → Holding b s
    → Holding (add_directories b ts) (shared_all s ts)
unfolding add_directories
add_directories-Holding b s [] w = w
add_directories-Holding b s (t ∷ ts) w = rw w.text (
    add_directories-Holding (common_prefix b.len s t) (shared s t) ts
      (common_prefix-Holding b.len s t (omega (arith, w.room))))
