-- ===== src/Peripheral.antt =====
-- The peripherals of zephyr/drivers, as the clock and the reset driver number them.
use lzamp.Base.{ℕ, Bool, ◌==◌}

-- `enum lzamp_rk3588_peripheral_clock` and `enum lzamp_rk3588_reset`: the same six peripherals in
-- the same order. `unknown` is any other number, which C lets through.
pub data Peripheral : Type 0 where
  uart5 uart7 i2c7 spi0 pwm1 saradc unknown : Peripheral

abbrev pub rank : Peripheral → ℕ
rank Peripheral.uart5 = 0
rank Peripheral.uart7 = 1
rank Peripheral.i2c7 = 2
rank Peripheral.spi0 = 3
rank Peripheral.pwm1 = 4
rank Peripheral.saradc = 5
rank Peripheral.unknown = 6

unfoldable pub same_peripheral : Peripheral → Peripheral → Bool
same_peripheral p q = rank p == rank q
