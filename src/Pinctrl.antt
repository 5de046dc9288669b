-- ===== src/Pinctrl.antt =====
-- zephyr/drivers/rk3588_pinctrl.c: the pin multiplexers. A call of `mux_nibble` is a `Mux`; the
-- calls of a function stand in a row in program order. A null controller or table is `none`.
use lzamp.Base.{ℕ, ◌+◌, ◌*◌, Option, none, some, List, [], ◌∷◌, bit_or, shl32}
use lzamp.Base.Int.{ℤ, pos, negsuc}
use lzamp.Mmio.{MmioOps}

pub record Mux : Type 0 where
  pub offset : ℕ
  pub nibble : ℕ
  pub function : ℕ

abbrev pub mux_nibble : ℕ → ℕ → ℕ → Mux
mux_nibble offset nibble function = record { offset = offset; nibble = nibble; function = function }

unfoldable pub mux_word : Mux → ℕ
mux_word m =
    let shift = m.nibble * 4 in
    let mask = shl32 0xf shift in bit_or (shl32 mask 16) (shl32 m.function shift)

abbrev gpio3_c_iomux_low : ℕ
gpio3_c_iomux_low = 0x8070

abbrev gpio3_c_iomux_high : ℕ
gpio3_c_iomux_high = 0x8074

abbrev gpio3_d_iomux_low : ℕ
gpio3_d_iomux_low = 0x8078

abbrev gpio3_d_iomux_high : ℕ
gpio3_d_iomux_high = 0x807c

abbrev gpio0_d_iomux_pmu2 : ℕ
gpio0_d_iomux_pmu2 = 0x400c

abbrev gpio0_d_iomux_bus : ℕ
gpio0_d_iomux_bus = 0x8018

-- `other` is a number outside the enumeration.
pub data PinProfile : Type 0 where
  i2c7_gpio spi0 other : PinProfile

pub record Pinctrl (W : Type 0) : Type 0 where
  pub ioc_base : ℕ
  pub ops : Option (MmioOps W)

unfoldable pub uart5_muxes : List Mux
uart5_muxes = mux_nibble gpio3_c_iomux_high 0 10 ∷ mux_nibble gpio3_c_iomux_high 1 10 ∷ []

unfoldable pub uart7_muxes : List Mux
uart7_muxes = mux_nibble gpio3_c_iomux_low 0 10 ∷ mux_nibble gpio3_c_iomux_low 1 10 ∷ []

unfoldable pub profile_muxes : PinProfile → Option (List Mux)
profile_muxes PinProfile.i2c7_gpio =
    some (mux_nibble gpio3_d_iomux_low 2 9 ∷ mux_nibble gpio3_d_iomux_low 3 9 ∷ [])
profile_muxes PinProfile.spi0 = some (
    mux_nibble gpio3_d_iomux_low 1 8
    ∷ mux_nibble gpio3_d_iomux_low 2 8
    ∷ mux_nibble gpio3_d_iomux_low 3 8
    ∷ mux_nibble gpio3_d_iomux_high 0 8
    ∷ mux_nibble gpio3_d_iomux_high 1 8
    ∷ [])
profile_muxes PinProfile.other = none

unfoldable pub pwm7_muxes : List Mux
pwm7_muxes = mux_nibble gpio0_d_iomux_pmu2 0 8 ∷ mux_nibble gpio0_d_iomux_bus 0 11 ∷ []

module _ {W : Type 0} where
  unfoldable pub pinctrl_init : Pinctrl W → ℕ → Option (MmioOps W) → ℤ × Pinctrl W
  pinctrl_init pinctrl ioc_base none = (negsuc 0, pinctrl)
  pinctrl_init pinctrl ioc_base (some ops) = (pos 0, record { ioc_base = ioc_base; ops = some ops })

  unfoldable pub run_muxes : MmioOps W → ℕ → List Mux → W → W
  unfolding mux_word
  run_muxes ops base [] w = w
  run_muxes ops base (m ∷ rest) w =
      run_muxes ops base rest (ops.write32 (mux_word m) (base + m.offset) w)

  unfoldable pub route : Option (MmioOps W) → ℕ → Option (List Mux) → W → ℤ × W
  unfolding run_muxes
  route none base found w = (negsuc 0, w)
  route (some ops) base none w = (negsuc 0, w)
  route (some ops) base (some muxes) w = (pos 0, run_muxes ops base muxes w)

  unfoldable pub pinctrl_uart5 : Pinctrl W → W → ℤ × W
  unfolding route uart5_muxes
  pinctrl_uart5 pinctrl w = route pinctrl.ops pinctrl.ioc_base (some uart5_muxes) w

  unfoldable pub pinctrl_uart7 : Pinctrl W → W → ℤ × W
  unfolding route uart7_muxes
  pinctrl_uart7 pinctrl w = route pinctrl.ops pinctrl.ioc_base (some uart7_muxes) w

  unfoldable pub pinctrl_profile : Pinctrl W → PinProfile → W → ℤ × W
  unfolding route profile_muxes
  pinctrl_profile pinctrl profile w = route pinctrl.ops pinctrl.ioc_base (profile_muxes profile) w

  unfoldable pub pinctrl_pwm7 : Pinctrl W → W → ℤ × W
  unfolding route pwm7_muxes
  pinctrl_pwm7 pinctrl w = route pinctrl.ops pinctrl.ioc_base (some pwm7_muxes) w
