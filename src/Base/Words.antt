-- ===== src/Base/Words.antt =====
-- Unsigned 32-bit counters.
use Prim.Native.Nat.{ℕ, ◌+◌, ◌-◌, ◌%◌, ◌^◌}

abbrev pub u32_mod : ℕ
u32_mod = 2 ^ 32

-- `n++` and `n--` on an unsigned.
abbrev pub inc : ℕ → ℕ
inc n = (n + 1) % u32_mod

abbrev pub dec : ℕ → ℕ
dec n = (n + u32_mod - 1) % u32_mod
