-- ===== src/Clock/Examples.antt =====
-- Clocks of a board whose bits are all set.
use lzamp.Base.{◌+◌, ◌≡◌, true, refl, some, if◌then◌else◌}
use lzamp.Mmio.Bench.{Board, board_ops, board_registers}
use lzamp.Peripheral.{Peripheral, same_peripheral}
use lzamp.Clock.{clock_enable, clock_disable, clkgate_con}
use lzamp.Clock.Isolation.{gates, listed, clock_enable-gates, clock_disable-gates}

abbrev all_off : Board
all_off = λ address k. 1

spi_gate-listed : listed (clkgate_con 14) 11 (gates Peripheral.spi0) ≡ true
unfolding listed gates
spi_gate-listed = refl

clock_enable-gates_example :
    (clock_enable (record { base = 0x1000; ops = some board_ops }) Peripheral.spi0 all_off).1
      (0x1000 + clkgate_con 14)
      11
    ≡ (if same_peripheral Peripheral.spi0 Peripheral.spi0
        then 0
        else all_off (0x1000 + clkgate_con 14) 11)
clock_enable-gates_example =
    clock_enable-gates board_ops board_registers 0x1000 Peripheral.spi0 Peripheral.spi0 all_off
      (clkgate_con 14) 11 spi_gate-listed

clock_disable-gates_example :
    (clock_disable (record { base = 0x1000; ops = some board_ops }) Peripheral.uart5 all_off).1
      (0x1000 + clkgate_con 14)
      11
    ≡ (if same_peripheral Peripheral.uart5 Peripheral.spi0
        then 1
        else all_off (0x1000 + clkgate_con 14) 11)
clock_disable-gates_example =
    clock_disable-gates board_ops board_registers 0x1000 Peripheral.uart5 Peripheral.spi0 all_off
      (clkgate_con 14) 11 spi_gate-listed
