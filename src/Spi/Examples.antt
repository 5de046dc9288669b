-- ===== src/Spi/Examples.antt =====
-- 200 MHz to 15 MHz.
use lzamp.Base.{◌*◌, ◌%◌, ◌≤◌, ◌≡◌, refl, some, arith}
use lzamp.Spi.{spi_divider}
use lzamp.Spi.Divider.{spi_divider_lem}

divider_at : spi_divider 200000000 15000000 ≡ some 14
unfolding spi_divider
divider_at = refl

spi_divider_lem_example : (200000000 ≤ 14 * 15000000) × (2 ≤ 14) × (14 ≤ 65534) × (14 % 2 ≡ 0)
spi_divider_lem_example =
    spi_divider_lem 200000000 15000000 14 (ground arith) (ground arith) divider_at
