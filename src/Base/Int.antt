-- ===== src/Base/Int.antt =====
-- `int` of C: the integers over the native numbers, with the tests and casts that the code uses.
-- No `int` of the program leaves the 32-bit range, so no wrap is written.
use Prim.Native.Nat.{ℕ, ◌-◌, ◌%◌, ◌^◌}
use mathlib.Core.Path.{◌≡◌}
use mathlib.Core.Logic.{◌↔◌}
use mathlib.Core.Bool.{Bool, true, false}
use native.Mathlib.Omega.{arith}
use lzamp.Base.Tests.{◌==◌}

-- `negsuc n` is -(n + 1).
pub data ℤ : Type 0 where
  pos : ℕ → ℤ
  negsuc : ℕ → ℤ

infix 50 ◌==ℤ◌
abbrev pub ◌==ℤ◌ : ℤ → ℤ → Bool
pos m ==ℤ pos n = m == n
pos m ==ℤ negsuc n = false
negsuc m ==ℤ pos n = false
negsuc m ==ℤ negsuc n = m == n

-- `(uint32_t)i`.
abbrev pub to_u32 : ℤ → ℕ
to_u32 (pos n) = n % 2 ^ 32
to_u32 (negsuc n) = 2 ^ 32 - 1 - n % 2 ^ 32

-- The C truth value of an `int`.
abbrev pub is_nonzero : ℤ → Bool
is_nonzero (pos n) = elim (n == 0) [ true ↦ false | false ↦ true ]
is_nonzero (negsuc n) = true

pub ==ℤ_iff : (i j : ℤ) → ((i ==ℤ j) ≡ true) ↔ (i ≡ j)
==ℤ_iff (pos m) (pos n) = ground arith
==ℤ_iff (pos m) (negsuc n) = ground arith
==ℤ_iff (negsuc m) (pos n) = ground arith
==ℤ_iff (negsuc m) (negsuc n) = ground arith
