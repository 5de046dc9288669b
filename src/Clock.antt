-- ===== src/Clock.antt =====
-- zephyr/drivers/rk3588_peripheral_clock.c: clock gates and parents of the six peripherals.
-- A call of `hiword_update` or `gate_set` is an `Update`; the calls of a case stand in its row in
-- program order. A null `cru`, table or function is `none`.
pub mod Isolation
mod Examples
use lzamp.Base.{
  ℕ, ◌+◌, ◌*◌, ◌≡◌, refl, Bool, true, false, Option, none, some, List, [], ◌∷◌, if◌then◌else◌,
}
use lzamp.Base.Int.{ℤ, pos, negsuc}
use lzamp.Mmio.{MmioOps, Update, apply_updates}
use lzamp.Peripheral.{Peripheral}

abbrev pub clksel_con : ℕ → ℕ
clksel_con n = 0x300 + n * 4

abbrev pub clkgate_con : ℕ → ℕ
clkgate_con n = 0x800 + n * 4

abbrev pub hiword_update : ℕ → ℕ → ℕ → ℕ → Update
hiword_update offset mask shift value = record {
  offset = offset;
  mask = mask;
  shift = shift;
  value = value;
}

-- A gate bit is 1 where the clock is off.
abbrev pub gate_set : ℕ → ℕ → Bool → Update
gate_set offset bit enable = hiword_update offset 1 bit (if enable then 0 else 1)

abbrev pub uart_enable : ℕ → ℕ → ℕ → List Update
uart_enable mux_con pclk_bit sclk_bit =
    gate_set (clkgate_con 13) sclk_bit false
    ∷ hiword_update mux_con 0x3 0 0x2
    ∷ gate_set (clkgate_con 12) pclk_bit true
    ∷ gate_set (clkgate_con 13) sclk_bit true
    ∷ []

-- `none` is the `default` case.
unfoldable pub enable_updates : Peripheral → Option (List Update)
enable_updates Peripheral.uart5 = some (uart_enable (clksel_con 51) 6 9)
enable_updates Peripheral.uart7 = some (uart_enable (clksel_con 55) 8 15)
enable_updates Peripheral.i2c7 = some (
    gate_set (clkgate_con 11) 6 false
    ∷ hiword_update (clksel_con 38) 0x1 12 0x1
    ∷ gate_set (clkgate_con 10) 14 true
    ∷ gate_set (clkgate_con 11) 6 true
    ∷ [])
enable_updates Peripheral.spi0 = some (
    gate_set (clkgate_con 14) 11 false
    ∷ hiword_update (clksel_con 59) 0x3 2 0x2
    ∷ gate_set (clkgate_con 14) 6 true
    ∷ gate_set (clkgate_con 14) 11 true
    ∷ [])
enable_updates Peripheral.pwm1 = some (
    gate_set (clkgate_con 15) 4 false
    ∷ gate_set (clkgate_con 15) 5 false
    ∷ hiword_update (clksel_con 59) 0x3 12 0x2
    ∷ gate_set (clkgate_con 15) 3 true
    ∷ gate_set (clkgate_con 15) 4 true
    ∷ gate_set (clkgate_con 15) 5 true
    ∷ [])
enable_updates Peripheral.saradc = some (
    gate_set (clkgate_con 11) 15 false
    ∷ hiword_update (clksel_con 40) 0x1 14 0x1
    ∷ hiword_update (clksel_con 40) 0xff 6 23
    ∷ gate_set (clkgate_con 11) 14 true
    ∷ gate_set (clkgate_con 11) 15 true
    ∷ [])
enable_updates Peripheral.unknown = none

unfoldable pub disable_updates : Peripheral → Option (List Update)
disable_updates Peripheral.uart5 =
    some (gate_set (clkgate_con 13) 9 false ∷ gate_set (clkgate_con 12) 6 false ∷ [])
disable_updates Peripheral.uart7 =
    some (gate_set (clkgate_con 13) 15 false ∷ gate_set (clkgate_con 12) 8 false ∷ [])
disable_updates Peripheral.i2c7 =
    some (gate_set (clkgate_con 11) 6 false ∷ gate_set (clkgate_con 10) 14 false ∷ [])
disable_updates Peripheral.spi0 =
    some (gate_set (clkgate_con 14) 11 false ∷ gate_set (clkgate_con 14) 6 false ∷ [])
disable_updates Peripheral.pwm1 = some (
    gate_set (clkgate_con 15) 5 false
    ∷ gate_set (clkgate_con 15) 4 false
    ∷ gate_set (clkgate_con 15) 3 false
    ∷ [])
disable_updates Peripheral.saradc =
    some (gate_set (clkgate_con 11) 15 false ∷ gate_set (clkgate_con 11) 14 false ∷ [])
disable_updates Peripheral.unknown = none

abbrev pub clock_invalid : ℤ
clock_invalid = negsuc 0

pub record Cru (W : Type 0) : Type 0 where
  pub base : ℕ
  pub ops : Option (MmioOps W)

module _ {W : Type 0} where
  unfoldable pub cru_init : Cru W → ℕ → Option (MmioOps W) → ℤ × Cru W
  cru_init cru base none = (clock_invalid, cru)
  cru_init cru base (some ops) = (pos 0, record { base = base; ops = some ops })

  unfoldable pub run_updates : Option (MmioOps W) → ℕ → Option (List Update) → W → ℤ × W
  run_updates none base us w = (clock_invalid, w)
  run_updates (some ops) base none w = (clock_invalid, w)
  run_updates (some ops) base (some us) w = (pos 0, apply_updates ops base us w)

  unfoldable pub clock_enable : Cru W → Peripheral → W → ℤ × W
  unfolding run_updates
  clock_enable cru p w = run_updates cru.ops cru.base (enable_updates p) w

  unfoldable pub clock_disable : Cru W → Peripheral → W → ℤ × W
  unfolding run_updates
  clock_disable cru p w = run_updates cru.ops cru.base (disable_updates p) w
