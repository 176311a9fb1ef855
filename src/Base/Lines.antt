-- ===== src/Base/Lines.antt =====
-- Files of lines: each line with its end.
use mathlib.Core.Path.{◌≡◌}
use mathlib.Core.Bool.{false}
use mathlib.Core.List.{List, [], ◌∷◌, ◌++◌}
use perfscope.Base.Codes.{Text}
use perfscope.Base.Tests.{◌==◌}

-- No character ends the line.
abbrev pub IsOneLine : Text → Type 0
IsOneLine [] = Unit {0}
IsOneLine (c ∷ s) = ((c == b'\n') ≡ false) × IsOneLine s

-- Every line with its end.
abbrev pub print_lines : List Text → Text
print_lines [] = []
print_lines (l ∷ ls) = l ++ b'\n' ∷ print_lines ls
