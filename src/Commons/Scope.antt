-- ===== src/Commons/Scope.antt =====
-- include/commons/Scope.h: a range of source lines, both ends included.
use perfscope.Base.{ℕ, ◌≤◌, Bool, ◌&&◌, leb}

pub record Scope : Type 0 where
  pub begin : ℕ
  pub end : ℕ

abbrev pub no_scope : Scope
no_scope = record { begin = 0; end = 0 }

unfoldable pub includes : Scope → Scope → Bool
includes self another = leb self.begin another.begin && leb another.end self.end

unfoldable pub intersects : Scope → Scope → Bool
intersects self another = leb self.begin another.end && leb another.begin self.end

-- A line of the range.
abbrev pub Covers : Scope → ℕ → Type 0
Covers s l = (s.begin ≤ l) × (l ≤ s.end)
