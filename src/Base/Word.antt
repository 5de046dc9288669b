-- ===== src/Base/Word.antt =====
-- Fixed-width unsigned integers of C: casts, shifts and the complement, as functions on ℕ.
use Prim.Native.Nat.{ℕ, ◌-◌, ◌*◌, ◌/◌, ◌%◌, ◌^◌}

abbrev pub u8 : ℕ → ℕ
u8 n = n % 2 ^ 8

abbrev pub u32 : ℕ → ℕ
u32 n = n % 2 ^ 32

-- `x << k` on a 32-bit operand.
abbrev pub shl32 : ℕ → ℕ → ℕ
shl32 x k = u32 (x * 2 ^ k)

abbrev pub shr : ℕ → ℕ → ℕ
shr x k = x / 2 ^ k

-- `~x` on a 32-bit operand.
abbrev pub complement32 : ℕ → ℕ
complement32 x = 2 ^ 32 - 1 - u32 x
