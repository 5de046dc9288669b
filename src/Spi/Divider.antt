-- ===== src/Spi/Divider.antt =====
-- The clock dividers of the SPI and of the I2C controller.
use lzamp.Base.{
  ℕ, ◌+◌, ◌-◌, ◌*◌, ◌/◌, ◌%◌, ◌^◌, ◌≤◌, ◌<◌, ◌≡◌, subst, sym, some, none, arith, u32, ltb, ◌==◌,
  if◌then◌else◌, bit_and,
}
use lzamp.Base.Bits.{bit_and-one}
use lzamp.Spi.{spi_divider}
use native.Mathlib.Nat.{lt-div-mul-add, mul-le-mul_right, le_trans}

-- Rounding up a quotient, in words that do not overflow.
pub round_up : (i f : ℕ) → 0 < f → i + f < 2 ^ 32 → i ≤ u32 (u32 (i + f) + 2 ^ 32 - 1) / f * f
round_up i f pos_f small =
    let same : u32 (u32 (i + f) + 2 ^ 32 - 1) ≡ i + f - 1 = omega arith in
    let bound = lt-div-mul-add {a = i + f - 1} {b = f} pos_f in
    subst (λ n. i ≤ n / f * f) (sym same) (omega (arith, bound))

divider_of_rounded :
    (r d : ℕ)
    → (let floored = if ltb r 2 then 2 else r in
        let even = if bit_and floored 1 == 1 then floored + 1 else floored in
        if ltb 65534 even then none else some even)
      ≡ some d
    → (r ≤ d) × (2 ≤ d) × (d ≤ 65534) × (d % 2 ≡ 0)
divider_of_rounded r d e = ground (arith, bit_and-one r, bit_and-one 2)

-- A divider that `lzamp_rk3588_spi_init` accepts is even, from 2 to 65534, and never makes the SPI
-- clock faster than the frequency asked for, if the two frequencies sum up to less than 2 ^ 32.
pub spi_divider_lem :
    (input_hz frequency_hz divider : ℕ)
    → 0 < frequency_hz
    → input_hz + frequency_hz < 2 ^ 32
    → spi_divider input_hz frequency_hz ≡ some divider
    → (input_hz ≤ divider * frequency_hz) × (2 ≤ divider) × (divider ≤ 65534) × (divider % 2 ≡ 0)
unfolding spi_divider
spi_divider_lem i f d pos_f small e =
    let r = u32 (u32 (i + f) + 2 ^ 32 - 1) / f in
    let (above, two, most, even) = divider_of_rounded r d e in
    (le_trans (round_up i f pos_f small) (mul-le-mul_right f above), two, most, even)
