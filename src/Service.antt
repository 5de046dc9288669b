-- ===== src/Service.antt =====
-- zephyr/drivers/rk3588_peripheral_service.c: one peripheral request carried out and answered. A
-- driver refuses a null device as it refuses one without a table, so both are a device whose
-- table is `none`; a null UART, which the service tests itself, is `none`.
pub mod Answer
mod Examples
use lzamp.Base.{
  ℕ, ◌+◌, ◌-◌, ◌==◌, ltb, Bool, true, false, not, ◌||◌, Option, none, some, List, [], ◌∷◌, ◌++◌,
  if◌then◌else◌, bit_or, shl32, get_or, take, drop, replicate, length,
}
use lzamp.Base.Int.{ℤ, pos, negsuc, is_nonzero, to_u32}
use lzamp.Peripheral.{Peripheral}
use lzamp.Protocol.{Message, le32_bytes}
use lzamp.Gpio.{Gpio, configure_input, configure_output, gpio_set, gpio_get}
use lzamp.Uart.{Uart, uart_write, uart_read}
use lzamp.I2c.{I2c, i2c_write, i2c_read, i2c_write_read}
use lzamp.Spi.{Spi, spi_set_mode, spi_transfer}
use lzamp.Pwm.{Pwm, pwm_set, pwm_stop}
use lzamp.Saradc.{Saradc, saradc_read}
use lzamp.Reset.{Reset, reset_pulse}

abbrev service_timeout_us : ℕ
service_timeout_us = 100000

abbrev pub service_unavailable : ℤ
service_unavailable = negsuc 18

abbrev pub service_invalid : ℤ
service_invalid = negsuc 21

abbrev pub peripheral_request : ℕ
peripheral_request = 11

abbrev pub periph_request_bytes : ℕ
periph_request_bytes = 28

abbrev pub inline_bytes : ℕ
inline_bytes = 8

abbrev pub load_u32 : List ℕ → ℕ → ℕ
load_u32 p offset =
    bit_or
      (bit_or (bit_or (get_or p offset 0) (shl32 (get_or p (offset + 1) 0) 8))
        (shl32 (get_or p (offset + 2) 0) 16))
      (shl32 (get_or p (offset + 3) 0) 24)

pub record Service (W : Type 0) : Type 0 where
  pub gpio : Gpio W
  pub uart5 : Option (Uart W)
  pub uart7 : Option (Uart W)
  pub i2c7 : I2c W
  pub spi0 : Spi W
  pub pwm7 : Pwm W
  pub saradc : Saradc W
  pub reset : Reset W
  pub spi_profile : Bool

-- The locals of the function at the end of the switch, with the state it leaves. `bytes` is the
-- eight-byte buffer.
pub record Outcome (W : Type 0) : Type 0 where
  pub status : ℤ
  pub value : ℕ
  pub out_length : ℕ
  pub bytes : List ℕ
  pub service : Service W
  pub world : W

-- The fields of a request.
pub record Request : Type 0 where
  pub op : ℕ
  pub arg0 : ℕ
  pub arg1 : ℕ
  pub arg2 : ℕ
  pub length : ℕ
  pub bytes : List ℕ

unfoldable pub decode : List ℕ → Request
decode payload = record {
  op = load_u32 payload 0;
  arg0 = load_u32 payload 4;
  arg1 = load_u32 payload 8;
  arg2 = load_u32 payload 12;
  length = load_u32 payload 16;
  bytes = take (load_u32 payload 16) (drop 20 payload);
}

-- A buffer of eight zeroes with the received bytes at its start.
unfoldable pub buffer_of : List ℕ → List ℕ
buffer_of received = received ++ replicate (inline_bytes - length received) 0

unfoldable pub level_of : Option ℕ → ℕ
level_of none = 0
level_of (some level) = level

module _ {W : Type 0} where
  unfoldable pub outcome : Service W → ℤ → W → Outcome W
  outcome s status w = record {
    status = status;
    value = 0;
    out_length = 0;
    bytes = replicate inline_bytes 0;
    service = s;
    world = w;
  }

  unfoldable pub gpio_config : Service W → Request → W → Outcome W
  unfolding outcome
  gpio_config s r w =
      let made =
        if r.arg1 == 0
        then configure_input s.gpio r.arg0 w
        else configure_output s.gpio r.arg0 (pos r.arg2) w in
      if ltb 1 r.arg1 || ltb 1 r.arg2
      then outcome s service_invalid w
      else if s.spi_profile
      then outcome s service_unavailable w
      else outcome (record s { gpio = made.1 }) made.0 made.2

  unfoldable pub gpio_write : Service W → Request → W → Outcome W
  unfolding outcome
  gpio_write s r w =
      let made = gpio_set s.gpio r.arg0 (pos r.arg1) w in
      if ltb 1 r.arg1
      then outcome s service_invalid w
      else if s.spi_profile
      then outcome s service_unavailable w
      else outcome s made.0 made.1

  unfoldable pub gpio_read : Service W → Request → W → Outcome W
  unfolding outcome level_of
  gpio_read s r w =
      let got = gpio_get s.gpio r.arg0 w in
      if s.spi_profile
      then outcome s service_unavailable w
      else record (outcome s got.0 got.2) { value = level_of got.1 }

  unfoldable pub uart_of : Service W → ℕ → Option (Uart W)
  uart_of s number = if number == 5 then s.uart5 else if number == 7 then s.uart7 else none

  unfoldable pub write_uart : Service W → Option (Uart W) → Request → W → Outcome W
  unfolding outcome
  write_uart s none r w = outcome s service_invalid w
  write_uart s (some uart) r w =
      let made = uart_write uart r.bytes service_timeout_us w in outcome s made.0 made.1

  unfoldable pub read_uart : Service W → Option (Uart W) → Request → W → Outcome W
  unfolding outcome buffer_of
  read_uart s none r w = outcome s service_invalid w
  read_uart s (some uart) r w =
      let got = uart_read uart r.arg1 service_timeout_us w in
      if r.arg1 == 0 || ltb inline_bytes r.arg1
      then outcome s service_invalid w
      else record (outcome s got.0 got.2) { out_length = length got.1; bytes = buffer_of got.1 }

  unfoldable pub write_i2c : Service W → Request → W → Outcome W
  unfolding outcome
  write_i2c s r w =
      let made = i2c_write s.i2c7 r.arg0 r.bytes service_timeout_us w in
      if s.spi_profile
      then outcome s service_unavailable w
      else if ltb 0x7f r.arg0
      then outcome s service_invalid w
      else outcome s made.0 made.1

  -- `out_length = status ? 0U : count;`
  unfoldable pub received : Service W → ℕ → ℤ × List ℕ × W → Outcome W
  unfolding outcome buffer_of
  received s count got = record (outcome s got.0 got.2) {
    out_length = if is_nonzero got.0 then 0 else count;
    bytes = buffer_of got.1;
  }

  unfoldable pub read_i2c : Service W → Request → W → Outcome W
  unfolding outcome received
  read_i2c s r w =
      let got = i2c_read s.i2c7 r.arg0 r.arg1 service_timeout_us w in
      if s.spi_profile || ltb 0x7f r.arg0 || r.arg1 == 0 || ltb inline_bytes r.arg1
      then outcome s (if s.spi_profile then service_unavailable else service_invalid) w
      else received s r.arg1 got

  unfoldable pub write_read_i2c : Service W → Request → W → Outcome W
  unfolding outcome received
  write_read_i2c s r w =
      let got = i2c_write_read s.i2c7 r.arg0 r.bytes r.arg1 service_timeout_us w in
      if s.spi_profile
        || ltb 0x7f r.arg0
        || r.length == 0
        || ltb 3 r.length
        || r.arg1 == 0
        || ltb inline_bytes r.arg1
      then outcome s (if s.spi_profile then service_unavailable else service_invalid) w
      else received s r.arg1 got

  unfoldable pub transfer_spi : Service W → Request → W → Outcome W
  unfolding outcome received
  transfer_spi s r w =
      let ready = spi_set_mode s.spi0 r.arg1 w in
      let moded = record s { spi0 = ready.1 } in
      let got = spi_transfer ready.1 r.arg0 r.bytes service_timeout_us ready.2 in
      if not s.spi_profile || r.length == 0 || ltb 3 r.arg1
      then outcome s (if s.spi_profile then service_invalid else service_unavailable) w
      else if is_nonzero ready.0
      then outcome moded ready.0 ready.2
      else received moded r.length got

  unfoldable pub set_pwm : Service W → Request → W → Outcome W
  unfolding outcome
  set_pwm s r w =
      let made = pwm_set s.pwm7 r.arg0 r.arg1 (pos r.arg2) w in
      if ltb 1 r.arg2 then outcome s service_invalid w else outcome s made.0 made.1

  unfoldable pub stop_pwm : Service W → W → Outcome W
  unfolding outcome
  stop_pwm s w = let made = pwm_stop s.pwm7 w in outcome s made.0 made.1

  unfoldable pub read_adc : Service W → Request → W → Outcome W
  unfolding outcome level_of
  read_adc s r w =
      let pulsed = reset_pulse s.reset Peripheral.saradc w in
      let got = saradc_read s.saradc r.arg0 service_timeout_us pulsed.1 in
      if is_nonzero pulsed.0
      then outcome s pulsed.0 pulsed.1
      else record (outcome s got.0 got.2) { value = level_of got.1 }

  -- The switch on `op`.
  unfoldable pub dispatch : Service W → Request → W → Outcome W
  unfolding outcome
  dispatch s r w =
      if ltb inline_bytes r.length
      then outcome s service_invalid w
      else if r.op == 1
      then gpio_config s r w
      else if r.op == 2
      then gpio_write s r w
      else if r.op == 3
      then gpio_read s r w
      else if r.op == 4
      then write_uart s (uart_of s r.arg0) r w
      else if r.op == 5
      then read_uart s (uart_of s r.arg0) r w
      else if r.op == 6
      then write_i2c s r w
      else if r.op == 7
      then read_i2c s r w
      else if r.op == 8
      then write_read_i2c s r w
      else if r.op == 9
      then transfer_spi s r w
      else if r.op == 10
      then set_pwm s r w
      else if r.op == 11
      then stop_pwm s w
      else if r.op == 12
      then read_adc s r w
      else outcome s service_invalid w

  -- The result buffer: header, then `out_length` bytes, zeroes after them.
  unfoldable pub encode : ℕ → ℕ → Outcome W → List ℕ
  unfolding le32_bytes
  encode sequence op o =
      le32_bytes sequence
      ++ (le32_bytes (to_u32 o.status)
          ++ (le32_bytes op
              ++ (le32_bytes o.value
                  ++ (le32_bytes o.out_length
                      ++ (take o.out_length o.bytes
                          ++ replicate (inline_bytes - o.out_length) 0)))))

  -- `none` in place of the buffer where it is left alone.
  unfoldable pub execute : Service W → Message → W → ℤ × Option (List ℕ) × Service W × W
  unfolding dispatch encode decode
  execute s request w =
      let r = decode request.payload in
      let o = dispatch s r w in
      if not (request.type == peripheral_request) || not (request.length == periph_request_bytes)
      then (negsuc 0, none, s, w)
      else (pos 0, some (encode request.sequence r.op o), o.service, o.world)
