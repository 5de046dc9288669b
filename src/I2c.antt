-- ===== src/I2c.antt =====
-- zephyr/drivers/rk3588_i2c_polling.c: polled transfers as the bus master. A null table is `none`;
-- a buffer is the list of its bytes. Sums are those of `uint32_t`.
pub mod Divider
pub mod Reads
mod Examples
use lzamp.Base.{
  ℕ, zero, suc, ◌+◌, ◌-◌, ◌*◌, ◌/◌, ◌%◌, ◌^◌, ◌==◌, ltb, not, ◌||◌, ◌&&◌, Option, none, some, List,
  [], ◌∷◌, if◌then◌else◌, bit_and, bit_or, shl32, shr, complement32, u32, length,
}
use lzamp.Base.Int.{ℤ, pos, negsuc, is_nonzero}
use lzamp.Mmio.{MmioOps, write_all}

abbrev i2c_con : ℕ
i2c_con = 0x000

abbrev i2c_ien : ℕ
i2c_ien = 0x018

abbrev i2c_ipd : ℕ
i2c_ipd = 0x01c

abbrev int_mbtf : ℕ
int_mbtf = 4

abbrev int_mbrf : ℕ
int_mbrf = 8

abbrev int_stop : ℕ
int_stop = 32

abbrev int_nak : ℕ
int_nak = 64

abbrev int_all : ℕ
int_all = 0xfff

abbrev addr_valid : ℕ → ℕ
addr_valid n = shl32 1 (24 + n)

pub record I2c (W : Type 0) : Type 0 where
  pub base : ℕ
  pub ops : Option (MmioOps W)
  pub clock_hz : ℕ
  pub bus_hz : ℕ

-- How many turns the loop of `wait_ipd` takes at most: it counts down by five.
abbrev pub turns : ℕ → ℕ
turns timeout_us = (timeout_us + 4) / 5

-- The result of a wait, the last `ipd` read, and the world.
module _ {W : Type 0} (ops : MmioOps W) (base desired : ℕ) where
  unfoldable pub wait_turns : ℕ → ℕ → W → ℤ × ℕ × W
  wait_turns zero last w = (negsuc 1, last, w)
  wait_turns (suc left) last w =
      let got = ops.read32 (base + i2c_ipd) w in
      let ipd = got.0 in
      let rest = wait_turns left ipd (ops.delay_us 5 got.1) in
      if not (bit_and ipd int_nak == 0)
      then (negsuc 2, ipd, ops.write32 (bit_and ipd int_all) (base + i2c_ipd) got.1)
      else if not (bit_and ipd desired == 0)
      then (pos 0, ipd, got.1)
      else rest

  unfoldable pub wait_ipd : ℕ → W → ℤ × ℕ × W
  unfolding wait_turns
  wait_ipd timeout_us w = wait_turns (turns timeout_us) 0 w

module _ {W : Type 0} (ops : MmioOps W) (base : ℕ) where
  unfoldable pub stop_bus : ℕ → W → ℤ × W
  unfolding wait_ipd write_all
  stop_bus timeout_us w =
      let enabled = ops.write32 (bit_or int_stop int_nak) (base + i2c_ien) w in
      let got = ops.read32 (base + i2c_con) enabled in
      let con = bit_and (bit_or got.0 0x10) (complement32 0x8) in
      let asked = ops.write32 con (base + i2c_con) got.1 in
      let waited = wait_ipd ops base int_stop timeout_us asked in
      let off = (0, base + i2c_ien) ∷ (0, base + i2c_con) ∷ [] in
      if is_nonzero waited.0
      then (negsuc 1, write_all ops off waited.2)
      else (pos 0, write_all ops ((bit_and waited.1 int_all, base + i2c_ipd) ∷ off) waited.2)

  -- `if (stop_bus(...) && !ret) ret = -2; return ret;`
  unfoldable pub finish : ℤ → ℕ → W → ℤ × W
  unfolding stop_bus
  finish ret timeout_us w =
      let stopped = stop_bus timeout_us w in
      (if is_nonzero stopped.0 && not (is_nonzero ret) then negsuc 1 else ret, stopped.1)

  -- The words of the transmit buffer: the address byte, then the data, four bytes to a word.
  unfoldable pub tx_words : List ℕ → ℕ → List (ℕ × ℕ)
  tx_words [] address = []
  tx_words (a ∷ []) address = (a, address) ∷ []
  tx_words (a ∷ b ∷ []) address = (bit_or a (shl32 b 8), address) ∷ []
  tx_words (a ∷ b ∷ c ∷ []) address = (bit_or (bit_or a (shl32 b 8)) (shl32 c 16), address) ∷ []
  tx_words (a ∷ b ∷ c ∷ d ∷ rest) address =
      (bit_or (bit_or (bit_or a (shl32 b 8)) (shl32 c 16)) (shl32 d 24), address)
      ∷ tx_words rest (address + 4)

  unfoldable pub fill_tx : ℕ → List ℕ → W → W
  unfolding write_all tx_words
  fill_tx address bytes w = write_all ops (tx_words (shl32 address 1 ∷ bytes) (base + 0x100)) w

  -- The bytes of the receive buffer from `index` on: a word is read at every fourth.
  unfoldable pub rx_bytes : ℕ → ℕ → ℕ → W → List ℕ × W
  rx_bytes zero index word w = ([], w)
  rx_bytes (suc left) index word w =
      let fresh = ops.read32 (base + 0x200 + index / 4 * 4) w in
      let now = if index % 4 == 0 then fresh else (word, w) in
      let rest = rx_bytes left (index + 1) now.0 now.1 in
      (bit_and (shr now.0 (index % 4 * 8)) 0xff ∷ rest.0, rest.1)

-- `reg_address` of a prefix, from `index` on.
unfoldable pub prefix_word : List ℕ → ℕ → ℕ → ℕ
prefix_word [] index acc = acc
prefix_word (byte ∷ rest) index acc =
    prefix_word rest (index + 1) (bit_or (bit_or acc (shl32 byte (index * 8))) (addr_valid index))

unfoldable pub i2c_divider : ℕ → ℕ → ℕ
i2c_divider clock_hz bus_hz = u32 (u32 (clock_hz + 16 * bus_hz) + 2 ^ 32 - 1) / (16 * bus_hz)

module _ {W : Type 0} where
  unfoldable pub i2c_init : I2c W → ℕ → Option (MmioOps W) → ℕ → ℕ → W → ℤ × I2c W × W
  unfolding i2c_divider write_all
  i2c_init i2c base none clock_hz bus_hz w = (negsuc 0, i2c, w)
  i2c_init i2c base (some ops) clock_hz bus_hz w =
      let divider = i2c_divider clock_hz bus_hz in
      if clock_hz == 0 || bus_hz == 0 || ltb 400000 bus_hz || divider == 0 || ltb 65536 divider
      then (negsuc 0, i2c, w)
      else (
        pos 0,
        record { base = base; ops = some ops; clock_hz = clock_hz; bus_hz = bus_hz },
        write_all ops
            ((0, base + i2c_con)
              ∷ (0, base + i2c_ien)
              ∷ (int_all, base + i2c_ipd)
              ∷ (bit_or (shl32 (divider - 1) 16) (divider - 1), base + 0x004)
              ∷ [])
            w,
      )

  unfoldable pub write_via : Option (MmioOps W) → ℕ → ℕ → List ℕ → ℕ → W → ℤ × W
  unfolding write_all fill_tx wait_ipd finish
  write_via none base address bytes timeout_us w = (negsuc 0, w)
  write_via (some ops) base address bytes timeout_us w =
      if ltb 0x7f address || length bytes == 0 || ltb 31 (length bytes)
      then (negsuc 0, w)
      else let filled = fill_tx ops base address bytes (ops.write32 int_all (base + i2c_ipd) w) in
        let started =
          write_all ops
            ((bit_or int_mbtf int_nak, base + i2c_ien)
              ∷ (bit_or (bit_or 0x1 0x8) 0x40, base + i2c_con)
              ∷ (length bytes + 1, base + 0x010)
              ∷ [])
            filled in
        let waited = wait_ipd ops base int_mbtf timeout_us started in
        let cleared =
          if is_nonzero waited.0
          then waited.2
          else ops.write32 (bit_and waited.1 int_all) (base + i2c_ipd) waited.2 in
        finish ops base waited.0 timeout_us cleared

  unfoldable pub i2c_write : I2c W → ℕ → List ℕ → ℕ → W → ℤ × W
  unfolding write_via
  i2c_write i2c address bytes timeout_us w = write_via i2c.ops i2c.base address bytes timeout_us w

  unfoldable pub start_read : MmioOps W → ℕ → ℕ → List ℕ → ℕ → W → W
  unfolding write_all prefix_word
  start_read ops base address prefix count w =
      write_all ops
        ((int_all, base + i2c_ipd)
          ∷ (bit_or (bit_or (shl32 address 1) 1) (addr_valid 0), base + 0x008)
          ∷ (prefix_word prefix 0 0, base + 0x00c)
          ∷ (bit_or int_mbrf int_nak, base + i2c_ien)
          ∷ (bit_or (bit_or (bit_or (bit_or 0x1 0x2) 0x8) 0x20) 0x40, base + i2c_con)
          ∷ (count, base + 0x014)
          ∷ [])
        w

  -- The transfer of a request that passed the checks. The list is what reaches `data`; a transfer
  -- that fails leaves it alone.
  unfoldable pub read_frame : MmioOps W → ℕ → ℕ → List ℕ → ℕ → ℕ → W → ℤ × List ℕ × W
  unfolding start_read wait_ipd finish rx_bytes
  read_frame ops base address prefix count timeout_us w =
      let started = start_read ops base address prefix count w in
      let waited = wait_ipd ops base int_mbrf timeout_us started in
      let got = rx_bytes ops base count 0 0 waited.2 in
      let failed = is_nonzero waited.0 in
      let cleared =
        if failed
        then waited.2
        else ops.write32 (bit_and waited.1 int_all) (base + i2c_ipd) got.1 in
      let ended = finish ops base waited.0 timeout_us cleared in
      (ended.0, if failed then [] else got.0, ended.1)

  unfoldable pub read_common : Option (MmioOps W) → ℕ → ℕ → List ℕ → ℕ → ℕ → W → ℤ × List ℕ × W
  unfolding read_frame
  read_common none base address prefix count timeout_us w = (negsuc 0, [], w)
  read_common (some ops) base address prefix count timeout_us w =
      if ltb 0x7f address || count == 0 || ltb 32 count || ltb 3 (length prefix)
      then (negsuc 0, [], w)
      else read_frame ops base address prefix count timeout_us w

  unfoldable pub i2c_read : I2c W → ℕ → ℕ → ℕ → W → ℤ × List ℕ × W
  unfolding read_common
  i2c_read i2c address count timeout_us w =
      read_common i2c.ops i2c.base address [] count timeout_us w

  unfoldable pub i2c_write_read : I2c W → ℕ → List ℕ → ℕ → ℕ → W → ℤ × List ℕ × W
  unfolding read_common
  i2c_write_read i2c address prefix count timeout_us w =
      if length prefix == 0
      then (negsuc 0, [], w)
      else read_common i2c.ops i2c.base address prefix count timeout_us w
