-- ===== src/Saradc.antt =====
-- zephyr/drivers/rk3588_saradc.c: one conversion of the ADC. A null table is `none`; `*sample` is
-- `none` where it is left alone.
use lzamp.Base.{
  ℕ, ◌+◌, ◌*◌, ◌==◌, leb, not, Option, none, some, [], ◌∷◌, if◌then◌else◌, bit_and, bit_or, shl32,
}
use lzamp.Base.Int.{ℤ, pos, negsuc}
use lzamp.Mmio.{MmioOps, write_all}
use lzamp.Poll.{poll}

abbrev end_int_en : ℕ
end_int_en = 0x104

abbrev end_int_st : ℕ
end_int_st = 0x110

abbrev saradc_data : ℕ → ℕ
saradc_data channel = 0x120 + channel * 4

pub record Saradc (W : Type 0) : Type 0 where
  pub base : ℕ
  pub ops : Option (MmioOps W)

module _ {W : Type 0} where
  unfoldable pub saradc_init : Saradc W → ℕ → Option (MmioOps W) → W → ℤ × Saradc W × W
  unfolding write_all
  saradc_init adc base none w = (negsuc 0, adc, w)
  saradc_init adc base (some ops) w = (
    pos 0,
    record { base = base; ops = some ops },
    write_all ops ((0x20, base + 0x004) ∷ (0x0c, base + 0x00c) ∷ (1, base + end_int_st) ∷ []) w,
  )

  -- The writes that start a conversion.
  unfoldable pub saradc_start : MmioOps W → ℕ → ℕ → W → W
  unfolding write_all
  saradc_start ops base channel w =
      write_all ops
        ((1, base + end_int_st)
          ∷ (bit_or (shl32 1 16) 1, base + end_int_en)
          ∷ (
            bit_or (shl32 (bit_or (bit_or 0x10 0x20) 0xf) 16) (bit_or (bit_or 0x10 0x20) channel),
            base + 0x000,
          )
          ∷ [])
        w

  -- The sample, after the conversion is complete.
  unfoldable pub saradc_finish : MmioOps W → ℕ → ℕ → W → ℤ × Option ℕ × W
  unfolding write_all
  saradc_finish ops base channel w =
      let got = ops.read32 (base + saradc_data channel) w in
      (
        pos 0,
        some (bit_and got.0 0xfff),
        write_all ops ((1, base + end_int_st) ∷ (shl32 1 16, base + end_int_en) ∷ []) got.1,
      )

  unfoldable pub saradc_read_via : Option (MmioOps W) → ℕ → ℕ → ℕ → W → ℤ × Option ℕ × W
  unfolding saradc_start saradc_finish poll
  saradc_read_via none base channel timeout_us w = (negsuc 0, none, w)
  saradc_read_via (some ops) base channel timeout_us w =
      if leb 8 channel
      then (negsuc 0, none, w)
      else let waited =
          poll ops (base + end_int_st) (λ st. not (bit_and st 1 == 0)) timeout_us
            (saradc_start ops base channel w) in
        if not waited.0 then (negsuc 1, none, waited.1) else saradc_finish ops base channel waited.1

  unfoldable pub saradc_read : Saradc W → ℕ → ℕ → W → ℤ × Option ℕ × W
  unfolding saradc_read_via
  saradc_read adc channel timeout_us w = saradc_read_via adc.ops adc.base channel timeout_us w
