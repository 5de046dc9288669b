-- ===== src/I2c/Examples.antt =====
-- zephyr/drivers/rk3588_i2c_polling.c: the divider from 100 MHz to 400 kHz.
use lzamp.Base.{◌*◌, ◌≤◌, arith}
use lzamp.I2c.{i2c_divider}
use lzamp.I2c.Divider.{i2c_divider_lem}

i2c_divider_lem_example : 100000000 ≤ i2c_divider 100000000 400000 * (16 * 400000)
i2c_divider_lem_example = i2c_divider_lem 100000000 400000 (ground arith) (ground arith)
