-- ===== src/I2c/Divider.antt =====
-- The bus clock of the I2C controller.
use lzamp.Base.{ℕ, ◌+◌, ◌*◌, ◌^◌, ◌≤◌, ◌<◌, arith}
use lzamp.Spi.Divider.{round_up}
use lzamp.I2c.{i2c_divider}

-- The divider that `lzamp_rk3588_i2c_init` computes never makes the bus faster than the frequency
-- asked for, of which a clock period is 16 divider steps, if the sums stay below 2 ^ 32.
pub i2c_divider_lem :
    (clock_hz bus_hz : ℕ)
    → 0 < bus_hz
    → clock_hz + 16 * bus_hz < 2 ^ 32
    → clock_hz ≤ i2c_divider clock_hz bus_hz * (16 * bus_hz)
unfolding i2c_divider
i2c_divider_lem clock_hz bus_hz pos_bus small = round_up clock_hz (16 * bus_hz) (omega arith) small
