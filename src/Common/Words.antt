-- ===== src/Common/Words.antt =====
-- 32-bit arithmetic. A `uint` or `int` is its bit pattern, a number below 2 ^ 32.
use Prim.Native.Nat.{ℕ, ◌+◌, ◌-◌, ◌*◌, ◌/◌, ◌%◌, ◌^◌}
use mathlib.Core.Bool.{Bool}
use osn_mp.Common.Tests.{ltb, ◌==◌, if◌then◌else◌}

abbrev pub word : ℕ
word = 2 ^ 32

abbrev pub u32 : ℕ → ℕ
u32 n = n % word

abbrev pub add32 : ℕ → ℕ → ℕ
add32 a b = u32 (a + b)

abbrev pub sub32 : ℕ → ℕ → ℕ
sub32 a b = u32 (a + word - b)

abbrev pub mul32 : ℕ → ℕ → ℕ
mul32 a b = u32 (a * b)

-- `divuw` of RISC-V, which gives all ones for a zero divisor (C leaves that case undefined).
abbrev pub div32 : ℕ → ℕ → ℕ
div32 a b = if b == 0 then word - 1 else a / b

-- `a < b` where both patterns are read as `int`.
abbrev pub signed_lt : ℕ → ℕ → Bool
signed_lt a b = ltb (u32 (a + 2 ^ 31)) (u32 (b + 2 ^ 31))

-- The pattern of -1.
abbrev pub minus_one : ℕ
minus_one = word - 1
