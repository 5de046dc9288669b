-- ===== src/Uart.antt =====
-- zephyr/drivers/rk3588_uart_polling.c: set-up, bytes out and bytes in. A null table is `none`; a
-- buffer is the list of its bytes, `none` where it is null.
pub mod Laws
use lzamp.Base.{
  ℕ, zero, suc, ◌+◌, ◌*◌, ◌/◌, ◌==◌, ltb, Bool, true, false, not, ◌||◌, ◌&&◌, Option, none, some,
  List, [], ◌∷◌, if◌then◌else◌, bit_and, bit_or, shr, u8, u32,
}
use lzamp.Base.Int.{ℤ, pos, negsuc}
use lzamp.Mmio.{MmioOps, write_all}
use lzamp.Poll.{poll}

abbrev pub uart_rbr_thr_dll : ℕ
uart_rbr_thr_dll = 0x00

abbrev pub uart_lsr : ℕ
uart_lsr = 0x14

abbrev uart_ier_dlm : ℕ
uart_ier_dlm = 0x04

abbrev uart_iir_fcr : ℕ
uart_iir_fcr = 0x08

abbrev uart_lcr : ℕ
uart_lcr = 0x0c

pub record Uart (W : Type 0) : Type 0 where
  pub base : ℕ
  pub ops : Option (MmioOps W)

-- `LSR & (1 << 5)` and `LSR & (1 << 0)`.
abbrev pub thre : ℕ → Bool
thre lsr = not (bit_and lsr 0x20 == 0)

abbrev pub dr : ℕ → Bool
dr lsr = not (bit_and lsr 0x01 == 0)

-- The sums and products are those of `uint32_t`. Where `baud * 16` wraps around to 0 the source
-- divides by zero; here the quotient is then 0, which the initialisation refuses.
unfoldable pub uart_divisor : ℕ → ℕ → ℕ
uart_divisor input_hz baud = u32 (input_hz + u32 (baud * 8)) / u32 (baud * 16)

module _ {W : Type 0} where
  unfoldable pub uart_init : Uart W → ℕ → Option (MmioOps W) → ℕ → ℕ → W → ℤ × Uart W × W
  unfolding uart_divisor write_all
  uart_init uart base none input_hz baud w = (negsuc 0, uart, w)
  uart_init uart base (some ops) input_hz baud w =
      let divisor = uart_divisor input_hz baud in
      if input_hz == 0 || baud == 0 || divisor == 0 || ltb 0xffff divisor
      then (negsuc 0, uart, w)
      else (
        pos 0,
        record { base = base; ops = some ops },
        write_all ops
            ((0, base + uart_ier_dlm)
              ∷ (bit_or 0x03 0x80, base + uart_lcr)
              ∷ (bit_and divisor 0xff, base + uart_rbr_thr_dll)
              ∷ (shr divisor 8, base + uart_ier_dlm)
              ∷ (0x03, base + uart_lcr)
              ∷ (0x07, base + uart_iir_fcr)
              ∷ [])
            w,
      )

  -- The loop of the write.
  unfoldable pub write_bytes : MmioOps W → ℕ → ℕ → List ℕ → W → ℤ × W
  unfolding poll
  write_bytes ops base timeout_us [] w = (pos 0, w)
  write_bytes ops base timeout_us (byte ∷ rest) w =
      let waited = poll ops (base + uart_lsr) thre timeout_us w in
      let later =
        write_bytes ops base timeout_us rest
          (ops.write32 byte (base + uart_rbr_thr_dll) waited.1) in
      if not waited.0 then (negsuc 1, waited.1) else later

  unfoldable pub uart_write_via : Option (MmioOps W) → ℕ → List ℕ → ℕ → W → ℤ × W
  unfolding write_bytes
  uart_write_via none base bytes timeout_us w = (negsuc 0, w)
  uart_write_via (some ops) base bytes timeout_us w = write_bytes ops base timeout_us bytes w

  unfoldable pub uart_write : Uart W → List ℕ → ℕ → W → ℤ × W
  unfolding uart_write_via
  uart_write uart bytes timeout_us w = uart_write_via uart.ops uart.base bytes timeout_us w

  -- The loop of the read: the bytes taken, at most `left` of them.
  unfoldable pub read_bytes : MmioOps W → ℕ → ℕ → W → List ℕ × W
  read_bytes ops base zero w = ([], w)
  read_bytes ops base (suc left) w =
      let status = ops.read32 (base + uart_lsr) w in
      let got = ops.read32 (base + uart_rbr_thr_dll) status.1 in
      let rest = read_bytes ops base left got.1 in
      if dr status.0 then (u8 got.0 ∷ rest.0, rest.1) else ([], status.1)

  -- The list is the first `*received` bytes of `data`.
  unfoldable pub uart_read_via : Option (MmioOps W) → ℕ → ℕ → ℕ → W → ℤ × List ℕ × W
  unfolding read_bytes poll
  uart_read_via none base capacity timeout_us w = (negsuc 0, [], w)
  uart_read_via (some ops) base capacity timeout_us w =
      if capacity == 0
      then (negsuc 0, [], w)
      else let waited = poll ops (base + uart_lsr) dr timeout_us w in
        let got = read_bytes ops base capacity waited.1 in
        if not waited.0 then (negsuc 1, [], waited.1) else (pos 0, got.0, got.1)

  unfoldable pub uart_read : Uart W → ℕ → ℕ → W → ℤ × List ℕ × W
  unfolding uart_read_via
  uart_read uart capacity timeout_us w = uart_read_via uart.ops uart.base capacity timeout_us w
