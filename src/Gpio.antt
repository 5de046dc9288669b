-- ===== src/Gpio.antt =====
-- zephyr/drivers/gpio3_polling.c and gpio3_polling.h: the three GPIO3 lines the firmware owns.
-- The driver's table of functions has `read32` and `write32` of `MmioOps` only. A null table is
-- `none`. A call gives its result, the device after it and the world after it.
pub mod Mask
pub mod Directions
mod Examples
use lzamp.Base.{
  ℕ, ◌+◌, ◌-◌, ◌*◌, ◌≡◌, refl, Bool, true, false, not, ◌||◌, Option, none, some, List, [], ◌∷◌,
  if◌then◌else◌, ◌==◌, ltb, bit_and, bit_or, shl32, shr, complement32,
}
use lzamp.Base.Int.{ℤ, pos, negsuc, is_nonzero}
use lzamp.Mmio.{MmioOps}

abbrev pub gpio3_pd1 : ℕ
gpio3_pd1 = 25

abbrev pub gpio3_pd4 : ℕ
gpio3_pd4 = 28

abbrev pub gpio3_pd5 : ℕ
gpio3_pd5 = 29

abbrev pub gpio3_ok : ℤ
gpio3_ok = pos 0

abbrev pub gpio3_invalid : ℤ
gpio3_invalid = negsuc 0

abbrev pub gpio3_not_output : ℤ
gpio3_not_output = negsuc 1

abbrev pub gpio_dr_high_offset : ℕ
gpio_dr_high_offset = 0x04

abbrev pub gpio_ddr_high_offset : ℕ
gpio_ddr_high_offset = 0x0c

abbrev pub gpio_ext_port_offset : ℕ
gpio_ext_port_offset = 0x70

abbrev gpio3_d_iomux_low_offset : ℕ
gpio3_d_iomux_low_offset = 0x8078

abbrev gpio3_d_iomux_high_offset : ℕ
gpio3_d_iomux_high_offset = 0x807c

pub record Gpio (W : Type 0) : Type 0 where
  pub gpio_base : ℕ
  pub ioc_base : ℕ
  pub ops : Option (MmioOps W)
  pub output_mask : ℕ

abbrev pub line_is_owned : ℕ → Bool
line_is_owned line = line == gpio3_pd1 || line == gpio3_pd4 || line == gpio3_pd5

unfoldable pub masked_word : ℕ → ℤ → ℕ
masked_word line value =
    let bit = line - 16 in
    let word = shl32 1 (bit + 16) in if is_nonzero value then bit_or word (shl32 1 bit) else word

module _ {W : Type 0} where
  abbrev pub write_masked_bit : MmioOps W → Gpio W → ℕ → ℕ → ℤ → W → W
  write_masked_bit ops device offset line value w =
      ops.write32 (masked_word line value) (device.gpio_base + offset) w

  unfoldable pub select_gpio_function : MmioOps W → Gpio W → ℕ → W → W
  select_gpio_function ops device line w =
      let low = ltb line gpio3_pd4 in
      let offset = if low then gpio3_d_iomux_low_offset else gpio3_d_iomux_high_offset in
      let bit = if low then (line - 24) * 4 else (line - 28) * 4 in
      ops.write32 (shl32 0xf (bit + 16)) (device.ioc_base + offset) w

  unfoldable pub gpio3_init : Gpio W → ℕ → ℕ → Option (MmioOps W) → ℤ × Gpio W
  gpio3_init device gpio_base ioc_base none = (gpio3_invalid, device)
  gpio3_init device gpio_base ioc_base (some ops) = (
    gpio3_ok,
    record { gpio_base = gpio_base; ioc_base = ioc_base; ops = some ops; output_mask = 0 },
  )

  unfoldable pub with_mask : Gpio W → ℕ → Gpio W
  with_mask device mask = record device { output_mask = mask }

  unfoldable pub configure_input_via : Option (MmioOps W) → Gpio W → ℕ → W → ℤ × Gpio W × W
  unfolding select_gpio_function masked_word with_mask
  configure_input_via none device line w = (gpio3_invalid, device, w)
  configure_input_via (some ops) device line w =
      if not (line_is_owned line) then (gpio3_invalid, device, w) else (
        gpio3_ok,
        with_mask device (bit_and device.output_mask (complement32 (shl32 1 line))),
        write_masked_bit ops device gpio_ddr_high_offset line (pos 0)
            (select_gpio_function ops device line w),
      )

  unfoldable pub configure_input : Gpio W → ℕ → W → ℤ × Gpio W × W
  unfolding configure_input_via
  configure_input device line w = configure_input_via device.ops device line w

  unfoldable pub configure_output_via : Option (MmioOps W) → Gpio W → ℕ → ℤ → W → ℤ × Gpio W × W
  unfolding select_gpio_function masked_word with_mask
  configure_output_via none device line initial_value w = (gpio3_invalid, device, w)
  configure_output_via (some ops) device line initial_value w =
      if not (line_is_owned line)
      then (gpio3_invalid, device, w)
      else let routed = select_gpio_function ops device line w in
        let level = if is_nonzero initial_value then pos 1 else pos 0 in
        let driven = write_masked_bit ops device gpio_dr_high_offset line level routed in
        (
          gpio3_ok,
          with_mask device (bit_or device.output_mask (shl32 1 line)),
          write_masked_bit ops device gpio_ddr_high_offset line (pos 1) driven,
        )

  unfoldable pub configure_output : Gpio W → ℕ → ℤ → W → ℤ × Gpio W × W
  unfolding configure_output_via
  configure_output device line initial_value w =
      configure_output_via device.ops device line initial_value w

  unfoldable pub gpio_set_via : Option (MmioOps W) → Gpio W → ℕ → ℤ → W → ℤ × W
  unfolding masked_word
  gpio_set_via none device line value w = (gpio3_invalid, w)
  gpio_set_via (some ops) device line value w =
      if not (line_is_owned line)
      then (gpio3_invalid, w)
      else if bit_and device.output_mask (shl32 1 line) == 0
      then (gpio3_not_output, w)
      else (
        gpio3_ok,
        write_masked_bit ops device gpio_dr_high_offset line
            (if is_nonzero value then pos 1 else pos 0) w,
      )

  unfoldable pub gpio_set : Gpio W → ℕ → ℤ → W → ℤ × W
  unfolding gpio_set_via
  gpio_set device line value w = gpio_set_via device.ops device line value w

  -- `none` in place of the level where `*value` is left alone.
  unfoldable pub gpio_get_via : Option (MmioOps W) → Gpio W → ℕ → W → ℤ × Option ℕ × W
  gpio_get_via none device line w = (gpio3_invalid, none, w)
  gpio_get_via (some ops) device line w =
      if not (line_is_owned line)
      then (gpio3_invalid, none, w)
      else let got = ops.read32 (device.gpio_base + gpio_ext_port_offset) w in
        (gpio3_ok, some (bit_and (shr got.0 line) 1), got.1)

  unfoldable pub gpio_get : Gpio W → ℕ → W → ℤ × Option ℕ × W
  unfolding gpio_get_via
  gpio_get device line w = gpio_get_via device.ops device line w
