-- ===== src/Service/Examples.antt =====
-- A service on a board, and one request.
use lzamp.Base.{◌≡◌, ◌≤◌, arith, none, some, [], false}
use lzamp.Base.Int.{to_u32}
use lzamp.Mmio.Bench.{Board, board_ops}
use lzamp.Uart.{Uart}
use lzamp.Service.{Service, Request, load_u32, encode, dispatch, inline_bytes}
use lzamp.Service.Answer.{answer_fields}

abbrev dark : Board
dark = λ address k. 0

abbrev uart : Uart Board
uart = record { base = 0x500; ops = some board_ops }

abbrev service : Service Board
service = record {
  gpio = record { gpio_base = 0x100; ioc_base = 0x9000; ops = some board_ops; output_mask = 0 };
  uart5 = some uart;
  uart7 = none;
  i2c7 = record { base = 0x700; ops = some board_ops; clock_hz = 24000000; bus_hz = 100000 };
  spi0 = record { base = 0x800; ops = some board_ops; baud_div = 24; ctrlr0 = 0x2001 };
  pwm7 = record { base = 0xa00; ops = some board_ops; clock_hz = 24000000 };
  saradc = record { base = 0xb00; ops = some board_ops };
  reset = record { cru_base = 0xc00; ops = some board_ops };
  spi_profile = false;
}

abbrev request : Request
request = record { op = 1; arg0 = 25; arg1 = 1; arg2 = 1; length = 0; bytes = [] }

answer_fields_example :
    (load_u32 (encode 77 1 (dispatch service request dark)) 0 ≡ 77)
    × (load_u32 (encode 77 1 (dispatch service request dark)) 4
        ≡ to_u32 (dispatch service request dark).status)
    × (load_u32 (encode 77 1 (dispatch service request dark)) 8 ≡ 1)
    × (load_u32 (encode 77 1 (dispatch service request dark)) 16
        ≡ (dispatch service request dark).out_length)
    × ((dispatch service request dark).out_length ≤ inline_bytes)
answer_fields_example = answer_fields service request 77 dark (ground arith) (ground arith)
