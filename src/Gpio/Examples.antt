-- ===== src/Gpio/Examples.antt =====
-- A line that was an output, then an input, then an output again.
use lzamp.Base.{◌≡◌, refl, some, List, ◌∷◌, []}
use lzamp.Base.Int.{pos}
use lzamp.Mmio.Bench.{Board, board_ops}
use lzamp.Gpio.{Gpio, gpio_set}
use lzamp.Gpio.Directions.{Call, do_calls, expected_set, gpio_set-drives}

abbrev device : Gpio Board
device = record { gpio_base = 0x100; ioc_base = 0x9000; ops = some board_ops; output_mask = 0 }

abbrev calls : List Call
calls = Call.output 28 (pos 1) ∷ Call.input 28 ∷ Call.output 25 (pos 0) ∷ []

abbrev dark : Board
dark = λ address k. 0

gpio_set-drives_example :
    gpio_set (do_calls calls (device, dark)).0 28 (pos 1) (do_calls calls (device, dark)).1
    ≡ expected_set board_ops calls
        (do_calls calls (device, dark)).0
        28
        (pos 1)
        (do_calls calls (device, dark)).1
gpio_set-drives_example = gpio_set-drives board_ops device calls 28 (pos 1) dark refl refl
