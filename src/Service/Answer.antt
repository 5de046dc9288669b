-- ===== src/Service/Answer.antt =====
-- The answer stays inside its buffer, and its fields read back.
use lzamp.Base.{
  ℕ, ◌+◌, ◌-◌, ◌==◌, ◌≤◌, ◌≡◌, ap, ap₂, ◌*◌, ◌∙◌, ltb, ◌||◌, Option, none, some, List, ◌++◌,
  Bool-cases, inl, inr, arith, ◌^◌, ◌<◌, ◌/◌, ◌%◌, bit_or, shl32, take, replicate,
}
use lzamp.Base.Bits.{bit_or-disjoint}
use lzamp.Base.Int.{ℤ, pos, negsuc, to_u32}
use lzamp.Protocol.{le32_bytes}
use lzamp.Uart.{Uart}
use lzamp.Uart.Laws.{uart_read-length}
use lzamp.Service.{
  Service, Request, load_u32, encode, Outcome, outcome, received, inline_bytes, gpio_config,
  gpio_write, gpio_read, write_uart, read_uart, uart_of, write_i2c, read_i2c, write_read_i2c,
  transfer_spi, set_pwm, stop_pwm, read_adc, dispatch,
}

module _ {W : Type 0} where
  abbrev Fits : Outcome W → Type 0
  Fits o = o.out_length ≤ inline_bytes

  gpio_config-Fits : (s : Service W) (r : Request) (w : W) → Fits (gpio_config s r w)
  unfolding gpio_config outcome
  gpio_config-Fits s r w = ground arith

  gpio_write-Fits : (s : Service W) (r : Request) (w : W) → Fits (gpio_write s r w)
  unfolding gpio_write outcome
  gpio_write-Fits s r w = ground arith

  gpio_read-Fits : (s : Service W) (r : Request) (w : W) → Fits (gpio_read s r w)
  unfolding gpio_read outcome
  gpio_read-Fits s r w = ground arith

  read_uart-Fits :
      (s : Service W) (u : Option (Uart W)) (r : Request) (w : W) → Fits (read_uart s u r w)
  unfolding read_uart outcome
  read_uart-Fits s none r w = ground arith
  read_uart-Fits s (some uart) r w = elim (Bool-cases (r.arg1 == 0 || ltb inline_bytes r.arg1)) [
    | inl h ↦ rw h (ground arith)
    | inr h ↦ rw h (let k = uart_read-length uart r.arg1 100000 w in ground arith)
  ]

  write_uart-Fits :
      (s : Service W) (u : Option (Uart W)) (r : Request) (w : W) → Fits (write_uart s u r w)
  unfolding write_uart outcome
  write_uart-Fits s none r w = ground arith
  write_uart-Fits s (some uart) r w = ground arith

  write_i2c-Fits : (s : Service W) (r : Request) (w : W) → Fits (write_i2c s r w)
  unfolding write_i2c outcome
  write_i2c-Fits s r w = ground arith

  read_i2c-Fits : (s : Service W) (r : Request) (w : W) → Fits (read_i2c s r w)
  unfolding read_i2c outcome received
  read_i2c-Fits s r w = ground arith

  write_read_i2c-Fits : (s : Service W) (r : Request) (w : W) → Fits (write_read_i2c s r w)
  unfolding write_read_i2c outcome received
  write_read_i2c-Fits s r w = ground arith

  transfer_spi-Fits :
      (s : Service W) (r : Request) (w : W) → r.length ≤ inline_bytes → Fits (transfer_spi s r w)
  unfolding transfer_spi outcome received
  transfer_spi-Fits s r w h = ground arith

  set_pwm-Fits : (s : Service W) (r : Request) (w : W) → Fits (set_pwm s r w)
  unfolding set_pwm outcome
  set_pwm-Fits s r w = ground arith

  stop_pwm-Fits : (s : Service W) (w : W) → Fits (stop_pwm s w)
  unfolding stop_pwm outcome
  stop_pwm-Fits s w = ground arith

  read_adc-Fits : (s : Service W) (r : Request) (w : W) → Fits (read_adc s r w)
  unfolding read_adc outcome
  read_adc-Fits s r w = ground arith

  -- The bytes of an answer fit the buffer, whatever the request holds and the devices return.
  pub dispatch-Fits : (s : Service W) (r : Request) (w : W) → Fits (dispatch s r w)
  unfolding dispatch outcome
  dispatch-Fits s r w = elim (Bool-cases (ltb inline_bytes r.length)) [
    | inl h ↦ rw h (ground arith)
    | inr h ↦
        let k1 = gpio_config-Fits s r w in
        let k2 = gpio_write-Fits s r w in
        let k3 = gpio_read-Fits s r w in
        let k4 = write_uart-Fits s (uart_of s r.arg0) r w in
        let k5 = read_uart-Fits s (uart_of s r.arg0) r w in
        let k6 = write_i2c-Fits s r w in
        let k7 = read_i2c-Fits s r w in
        let k8 = write_read_i2c-Fits s r w in
        let k9 = transfer_spi-Fits s r w (ground arith) in
        let k10 = set_pwm-Fits s r w in
        let k11 = stop_pwm-Fits s w in let k12 = read_adc-Fits s r w in rw h (ground arith)
  ]

-- `load_u32` reads back a word below 2 ^ 32 from the four bytes that `store_u32` writes.
pub load-store : (v : ℕ) (rest : List ℕ) → v < 2 ^ 32 → load_u32 (le32_bytes v ++ rest) 0 ≡ v
unfolding le32_bytes
load-store v rest h =
    let a = v % 2 ^ 8 in
    let b = v / 2 ^ 8 % 2 ^ 8 in
    let c = v / 2 ^ 16 % 2 ^ 8 in
    let d = v / 2 ^ 24 % 2 ^ 8 in
    let two : bit_or a (shl32 b 8) ≡ a + b * 2 ^ 8 =
      ap (bit_or a) (omega arith) ∙ bit_or-disjoint 8 a b (omega arith) in
    let three : bit_or (bit_or a (shl32 b 8)) (shl32 c 16) ≡ a + b * 2 ^ 8 + c * 2 ^ 16 =
      ap₂ bit_or two (omega arith) ∙ bit_or-disjoint 16 (a + b * 2 ^ 8) c (omega arith) in
    ap₂ bit_or three (omega arith)
    ∙ bit_or-disjoint 24 (a + b * 2 ^ 8 + c * 2 ^ 16) d (omega arith)
    ∙ omega arith

to_u32-lt : (i : ℤ) → to_u32 i < 2 ^ 32
to_u32-lt (pos n) = omega arith
to_u32-lt (negsuc n) = omega arith

-- An answer to a request with 32-bit sequence and operation numbers holds, readable from their
-- offsets, the sequence number, the status word, the operation and a byte count of at most eight,
-- whatever the request asks for and the devices return.
pub answer_fields :
    {W : Type 0} (s : Service W) (r : Request) (sequence : ℕ) (w : W)
    → sequence < 2 ^ 32
    → r.op < 2 ^ 32
    → (load_u32 (encode sequence r.op (dispatch s r w)) 0 ≡ sequence)
      × (load_u32 (encode sequence r.op (dispatch s r w)) 4 ≡ to_u32 (dispatch s r w).status)
      × (load_u32 (encode sequence r.op (dispatch s r w)) 8 ≡ r.op)
      × (load_u32 (encode sequence r.op (dispatch s r w)) 16 ≡ (dispatch s r w).out_length)
      × ((dispatch s r w).out_length ≤ inline_bytes)
unfolding encode le32_bytes
answer_fields s r sequence w hs ho =
    let o = dispatch s r w in
    let fits = dispatch-Fits s r w in
    let inline = take o.out_length o.bytes ++ replicate (inline_bytes - o.out_length) 0 in
    let after_value = le32_bytes o.out_length ++ inline in
    let after_op = le32_bytes o.value ++ after_value in
    let after_status = le32_bytes r.op ++ after_op in
    let after_sequence = le32_bytes (to_u32 o.status) ++ after_status in
    (
      load-store sequence after_sequence hs,
      load-store (to_u32 o.status) after_status (to_u32-lt o.status),
      load-store r.op after_op ho,
      load-store o.out_length inline (omega arith),
      fits,
    )
