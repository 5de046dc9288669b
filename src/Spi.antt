-- ===== src/Spi.antt =====
-- zephyr/drivers/rk3588_spi_polling.c: mode, and the polled full-duplex transfer. A null table or
-- buffer is `none`. Sums are those of `uint32_t`.
pub mod Divider
mod Examples
use lzamp.Base.{
  ℕ, ◌+◌, ◌-◌, ◌/◌, ◌^◌, ◌==◌, ltb, Bool, true, false, not, ◌||◌, Option, none, some, List, [], ◌∷◌,
  if◌then◌else◌, bit_and, bit_or, shl32, complement32, u8, u32, length,
}
use lzamp.Base.Int.{ℤ, pos, negsuc}
use lzamp.Mmio.{MmioOps, write_all}
use lzamp.Poll.{poll}

abbrev spi_ssienr : ℕ
spi_ssienr = 0x008

abbrev spi_ser : ℕ
spi_ser = 0x00c

abbrev spi_sr : ℕ
spi_sr = 0x024

abbrev spi_txdr : ℕ
spi_txdr = 0x400

abbrev spi_rxdr : ℕ
spi_rxdr = 0x800

abbrev cr0_cpha : ℕ
cr0_cpha = 64

abbrev cr0_cpol : ℕ
cr0_cpol = 128

pub record Spi (W : Type 0) : Type 0 where
  pub base : ℕ
  pub ops : Option (MmioOps W)
  pub baud_div : ℕ
  pub ctrlr0 : ℕ

-- An even divider of at least two; `none` where it does not fit.
unfoldable pub spi_divider : ℕ → ℕ → Option ℕ
spi_divider input_hz frequency_hz =
    let rounded = u32 (u32 (input_hz + frequency_hz) + 2 ^ 32 - 1) / frequency_hz in
    let floored = if ltb rounded 2 then 2 else rounded in
    let even = if bit_and floored 1 == 1 then floored + 1 else floored in
    if ltb 65534 even then none else some even

unfoldable pub mode_word : ℕ → ℕ → ℕ
mode_word ctrlr0 mode =
    let cleared = bit_and ctrlr0 (complement32 (bit_or cr0_cpha cr0_cpol)) in
    let phased = if bit_and mode 1 == 0 then cleared else bit_or cleared cr0_cpha in
    if bit_and mode 2 == 0 then phased else bit_or phased cr0_cpol

module _ {W : Type 0} where
  unfoldable pub set_mode_via : Option (MmioOps W) → Spi W → ℕ → W → ℤ × Spi W × W
  unfolding mode_word
  set_mode_via none spi mode w = (negsuc 0, spi, w)
  set_mode_via (some ops) spi mode w = if ltb 3 mode then (negsuc 0, spi, w) else (
    pos 0,
    record spi { ctrlr0 = mode_word spi.ctrlr0 mode },
    ops.write32 0 (spi.base + spi_ssienr) w,
  )

  unfoldable pub spi_set_mode : Spi W → ℕ → W → ℤ × Spi W × W
  unfolding set_mode_via
  spi_set_mode spi mode w = set_mode_via spi.ops spi mode w

  unfoldable pub init_with : Spi W → ℕ → MmioOps W → Option ℕ → ℕ → W → ℤ × Spi W × W
  unfolding set_mode_via write_all
  init_with spi base ops none mode w = (negsuc 0, spi, w)
  init_with spi base ops (some divider) mode w =
      set_mode_via (some ops)
        (record {
          base = base;
          ops = some ops;
          baud_div = divider;
          ctrlr0 = bit_or 0x1 (shl32 1 13);
        })
        mode
        (write_all ops
          ((0, base + spi_ssienr) ∷ (0, base + 0x02c) ∷ (0, base + 0x03c) ∷ (1, base + 0x038) ∷ [])
          w)

  unfoldable pub spi_init : Spi W → ℕ → Option (MmioOps W) → ℕ → ℕ → ℕ → W → ℤ × Spi W × W
  unfolding init_with spi_divider
  spi_init spi base none input_hz frequency_hz mode w = (negsuc 0, spi, w)
  spi_init spi base (some ops) input_hz frequency_hz mode w =
      if input_hz == 0 || frequency_hz == 0 || ltb 3 mode
      then (negsuc 0, spi, w)
      else init_with spi base ops (spi_divider input_hz frequency_hz) mode w

  -- `wait_status(spi, mask, 0, timeout_us)`.
  unfoldable pub wait_clear : MmioOps W → ℕ → ℕ → ℕ → W → Bool × W
  unfolding poll
  wait_clear ops base mask timeout_us w =
      poll ops (base + spi_sr) (λ sr. bit_and sr mask == 0) timeout_us w

  -- One byte each way: `none` after a time-out.
  unfoldable pub exchange : MmioOps W → ℕ → ℕ → ℕ → W → Option ℕ × W
  unfolding wait_clear
  exchange ops base timeout_us byte w =
      let ready = wait_clear ops base 2 timeout_us w in
      let sent = ops.write32 byte (base + spi_txdr) ready.1 in
      let full = wait_clear ops base 8 timeout_us sent in
      let got = ops.read32 (base + spi_rxdr) full.1 in
      if not ready.0
      then (none, ready.1)
      else if not full.0
      then (none, full.1)
      else (some (u8 got.0), got.1)

  -- The loop: the bytes received, and whether no wait ran out. The bytes to send are `tx`, or
  -- zeroes.
  unfoldable pub exchange_all : MmioOps W → ℕ → ℕ → List ℕ → W → Bool × List ℕ × W
  unfolding exchange
  exchange_all ops base timeout_us [] w = (true, [], w)
  exchange_all ops base timeout_us (byte ∷ later) w =
      let one = exchange ops base timeout_us byte w in
      let rest = exchange_all ops base timeout_us later one.1 in
      elim one.0 [ none ↦ (false, [], one.1) | some got ↦ (rest.0, got ∷ rest.1, rest.2) ]

  unfoldable pub transfer_via : Option (MmioOps W) → Spi W → ℕ → List ℕ → ℕ → W → ℤ × List ℕ × W
  unfolding exchange_all wait_clear write_all
  transfer_via none spi chip_select tx timeout_us w = (negsuc 0, [], w)
  transfer_via (some ops) spi chip_select tx timeout_us w =
      if ltb 1 chip_select || length tx == 0 || ltb 65535 (length tx)
      then (negsuc 0, [], w)
      else let base = spi.base in
        let ready =
          write_all ops
            ((0, base + spi_ssienr)
              ∷ (spi.ctrlr0, base + 0x000)
              ∷ (length tx - 1, base + 0x004)
              ∷ (spi.baud_div, base + 0x010)
              ∷ (0, base + 0x014)
              ∷ (0, base + 0x018)
              ∷ (shl32 1 chip_select, base + spi_ser)
              ∷ (1, base + spi_ssienr)
              ∷ [])
            w in
        let run = exchange_all ops base timeout_us tx ready in
        let idle = wait_clear ops base 1 timeout_us run.2 in
        let done = if run.0 then idle else (false, run.2) in
        let off = write_all ops ((0, base + spi_ssienr) ∷ (0, base + spi_ser) ∷ []) done.1 in
        (if done.0 then pos 0 else negsuc 1, run.1, off)

  -- `tx` and `rx` are both buffers of `length` bytes, as the firmware calls it; the list is what
  -- `rx` receives.
  unfoldable pub spi_transfer : Spi W → ℕ → List ℕ → ℕ → W → ℤ × List ℕ × W
  unfolding transfer_via
  spi_transfer spi chip_select tx timeout_us w =
      transfer_via spi.ops spi chip_select tx timeout_us w
