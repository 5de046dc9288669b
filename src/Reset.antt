-- ===== src/Reset.antt =====
-- zephyr/drivers/rk3588_reset.c: the reset pulse of a peripheral. The rows of `reset_lines` are
-- register and bit; a null controller or table is `none`.
use lzamp.Base.{
  ℕ, ◌+◌, ◌*◌, Bool, true, false, Option, none, some, List, [], ◌∷◌, if◌then◌else◌, bit_or, shl32,
}
use lzamp.Base.Int.{ℤ, pos, negsuc}
use lzamp.Mmio.{MmioOps}
use lzamp.Peripheral.{Peripheral}

abbrev pub softrst_con : ℕ → ℕ
softrst_con n = 0xa00 + n * 4

pub record Reset (W : Type 0) : Type 0 where
  pub cru_base : ℕ
  pub ops : Option (MmioOps W)

-- The word for one line.
unfoldable pub reset_word : ℕ → Bool → ℕ
reset_word bit asserted =
    let mask = shl32 1 bit in bit_or (shl32 mask 16) (if asserted then mask else 0)

module _ {W : Type 0} (ops : MmioOps W) (cru_base : ℕ) where
  unfoldable pub write_lines : List (ℕ × ℕ) → Bool → W → W
  unfolding reset_word
  write_lines [] asserted w = w
  write_lines ((register, bit) ∷ rest) asserted w =
      write_lines rest asserted
        (ops.write32 (reset_word bit asserted) (cru_base + softrst_con register) w)

-- `none` is the `default` case.
unfoldable pub reset_lines : Peripheral → Option (List (ℕ × ℕ))
reset_lines Peripheral.uart5 = some ((12, 6) ∷ (13, 9) ∷ [])
reset_lines Peripheral.uart7 = some ((12, 8) ∷ (13, 15) ∷ [])
reset_lines Peripheral.i2c7 = some ((10, 14) ∷ (11, 6) ∷ [])
reset_lines Peripheral.spi0 = some ((14, 6) ∷ (14, 11) ∷ [])
reset_lines Peripheral.pwm1 = some ((15, 3) ∷ (15, 4) ∷ [])
reset_lines Peripheral.saradc = some ((11, 14) ∷ [])
reset_lines Peripheral.unknown = none

abbrev pub pulse_us : Peripheral → ℕ
pulse_us Peripheral.saradc = 10
pulse_us Peripheral.uart5 = 2
pulse_us Peripheral.uart7 = 2
pulse_us Peripheral.i2c7 = 2
pulse_us Peripheral.spi0 = 2
pulse_us Peripheral.pwm1 = 2
pulse_us Peripheral.unknown = 2

module _ {W : Type 0} where
  unfoldable pub reset_init : Reset W → ℕ → Option (MmioOps W) → ℤ × Reset W
  reset_init reset cru_base none = (negsuc 0, reset)
  reset_init reset cru_base (some ops) = (pos 0, record { cru_base = cru_base; ops = some ops })

  unfoldable pub pulse_lines :
      Option (MmioOps W) → ℕ → Peripheral → Option (List (ℕ × ℕ)) → W → ℤ × W
  unfolding write_lines
  pulse_lines none cru_base p found w = (negsuc 0, w)
  pulse_lines (some ops) cru_base p none w = (negsuc 0, w)
  pulse_lines (some ops) cru_base p (some lines) w =
      let asserted = write_lines ops cru_base lines true w in
      let held = ops.delay_us (pulse_us p) asserted in
      let released = write_lines ops cru_base lines false held in (pos 0, ops.delay_us 2 released)

  unfoldable pub reset_pulse : Reset W → Peripheral → W → ℤ × W
  unfolding pulse_lines
  reset_pulse reset p w = pulse_lines reset.ops reset.cru_base p (reset_lines p) w
