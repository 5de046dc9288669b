-- ===== src/I2c/Reads.antt =====
-- What a successful read hands out.
use lzamp.Base.{
  ℕ, zero, suc, ◌+◌, ◌≡◌, refl, ap, Bool-cases, inl, inr, true, false, some, none, Option, List, [],
  if_both, arith, length, ltb, ◌==◌, ◌||◌, if◌then◌else◌, bit_and,
}
use lzamp.Base.Int.{ℤ, negsuc, is_nonzero}
use lzamp.Mmio.{MmioOps}
use lzamp.I2c.{
  I2c, i2c_read, read_common, rx_bytes, finish, stop_bus, read_frame, start_read, wait_ipd,
  int_mbrf, int_all, i2c_ipd,
}

rx_bytes-length :
    {W : Type 0} (ops : MmioOps W) (base left index word : ℕ) (w : W)
    → length (rx_bytes ops base left index word w).0 ≡ left
unfolding rx_bytes
rx_bytes-length ops base zero index word w = refl
rx_bytes-length ops base (suc left) index word w =
    ap suc (rx_bytes-length ops base left (index + 1) _ _)

finish-fails :
    {W : Type 0} (ops : MmioOps W) (base : ℕ) (ret : ℤ) (timeout_us : ℕ) (w : W)
    → is_nonzero ret ≡ true
    → is_nonzero (finish ops base ret timeout_us w).0 ≡ true
unfolding finish
finish-fails ops base ret timeout_us w h =
    elim (Bool-cases (is_nonzero (stop_bus ops base timeout_us w).0)) [
      | inl s ↦ rw (s, h) h
      | inr s ↦ rw s h
    ]

-- Bytes are handed out exactly where the wait did not fail.
handed_out :
    {W : Type 0} (ops : MmioOps W) (base : ℕ) (ret : ℤ) (timeout_us count : ℕ) (w : W)
    (got : List ℕ)
    → length got ≡ count
    → is_nonzero (finish ops base ret timeout_us w).0 ≡ false
    → length (if is_nonzero ret then [] else got) ≡ count
handed_out ops base ret timeout_us count w got n ok = elim (Bool-cases (is_nonzero ret)) [
  | inl failed ↦ let no = finish-fails ops base ret timeout_us w failed in cc
  | inr fine ↦ rw fine n
]

read_frame-length :
    {W : Type 0} (ops : MmioOps W) (base address : ℕ) (prefix : List ℕ) (count timeout_us : ℕ)
    (w : W)
    → is_nonzero (read_frame ops base address prefix count timeout_us w).0 ≡ false
    → length (read_frame ops base address prefix count timeout_us w).1 ≡ count
unfolding read_frame
read_frame-length ops base address prefix count timeout_us w h =
    let waited =
      wait_ipd ops base int_mbrf timeout_us (start_read ops base address prefix count w) in
    let got = rx_bytes ops base count 0 0 waited.2 in
    let cleared =
      if is_nonzero waited.0
      then waited.2
      else ops.write32 (bit_and waited.1 int_all) (base + i2c_ipd) got.1 in
    handed_out ops base waited.0 timeout_us count cleared got.0
      (rx_bytes-length ops base count 0 0 waited.2) h

read_common-length :
    {W : Type 0} (ops : Option (MmioOps W)) (base address : ℕ) (prefix : List ℕ)
    (count timeout_us : ℕ) (w : W)
    → is_nonzero (read_common ops base address prefix count timeout_us w).0 ≡ false
    → length (read_common ops base address prefix count timeout_us w).1 ≡ count
unfolding read_common
read_common-length none base address prefix count timeout_us w h = ground arith
read_common-length {W} (some ops) base address prefix count timeout_us w h =
    if_both (λ (r : ℤ × List ℕ × W). is_nonzero r.0 ≡ false → length r.1 ≡ count)
      (ltb 0x7f address || count == 0 || ltb 32 count || ltb 3 (length prefix)) (negsuc 0, [], w)
      (read_frame ops base address prefix count timeout_us w) (λ bad e. ground arith)
      (λ good e. read_frame-length ops base address prefix count timeout_us w e) h

-- A `lzamp_rk3588_i2c_read` that returns 0 has stored exactly the number of bytes asked for.
i2c_read-length :
    {W : Type 0} (i2c : I2c W) (address count timeout_us : ℕ) (w : W)
    → is_nonzero (i2c_read i2c address count timeout_us w).0 ≡ false
    → length (i2c_read i2c address count timeout_us w).1 ≡ count
unfolding i2c_read
i2c_read-length i2c address count timeout_us w h =
    read_common-length i2c.ops i2c.base address [] count timeout_us w h
