-- ===== src/Pwm.antt =====
-- zephyr/drivers/rk3588_pwm.c: period and duty cycle of a channel. A null table is `none`; the
-- products are below 2 ^ 64, where the source computes in `uint64_t`.
pub mod Bounds
use lzamp.Base.{
  ℕ, ◌+◌, ◌*◌, ◌/◌, ◌==◌, ltb, Bool, true, false, not, ◌||◌, Option, none, some, List, [], ◌∷◌,
  if◌then◌else◌, bit_and, bit_or, complement32, u32,
}
use lzamp.Base.Int.{ℤ, pos, negsuc, is_nonzero}
use lzamp.Mmio.{MmioOps, write_all}

abbrev pub pwm_period : ℕ
pwm_period = 0x04

abbrev pub pwm_duty : ℕ
pwm_duty = 0x08

abbrev pub pwm_ctrl : ℕ
pwm_ctrl = 0x0c

abbrev pwm_enable : ℕ
pwm_enable = 1

abbrev pwm_continuous : ℕ
pwm_continuous = 2

abbrev pwm_duty_positive : ℕ
pwm_duty_positive = 8

abbrev pwm_inactive_positive : ℕ
pwm_inactive_positive = 16

abbrev pwm_lock : ℕ
pwm_lock = 64

pub record Pwm (W : Type 0) : Type 0 where
  pub base : ℕ
  pub ops : Option (MmioOps W)
  pub clock_hz : ℕ

unfoldable pub ticks : ℕ → ℕ → ℕ
ticks clock_hz ns = (clock_hz * ns + 500000000) / 1000000000

-- The ticks of the period and of the duty cycle; `none` is a refused request.
unfoldable pub pwm_ticks : ℕ → ℕ → ℕ → Option (ℕ × ℕ)
unfolding ticks
pwm_ticks clock_hz period_ns duty_ns =
    if period_ns == 0 || ltb period_ns duty_ns
    then none
    else let period_ticks = ticks clock_hz period_ns in
      let duty_ticks = ticks clock_hz duty_ns in
      if period_ticks == 0 || ltb 0xffffffff period_ticks || ltb period_ticks duty_ticks
      then none
      else some (period_ticks, duty_ticks)

module _ {W : Type 0} where
  unfoldable pub pwm_stop_via : Option (MmioOps W) → ℕ → W → ℤ × W
  pwm_stop_via none base w = (negsuc 0, w)
  pwm_stop_via (some ops) base w =
      let got = ops.read32 (base + pwm_ctrl) w in
      (pos 0, ops.write32 (bit_and got.0 (complement32 pwm_enable)) (base + pwm_ctrl) got.1)

  unfoldable pub pwm_stop : Pwm W → W → ℤ × W
  unfolding pwm_stop_via
  pwm_stop pwm w = pwm_stop_via pwm.ops pwm.base w

  unfoldable pub pwm_init : Pwm W → ℕ → Option (MmioOps W) → ℕ → W → ℤ × Pwm W × W
  unfolding pwm_stop_via
  pwm_init pwm base none clock_hz w = (negsuc 0, pwm, w)
  pwm_init pwm base (some ops) clock_hz w =
      if clock_hz == 0
      then (negsuc 0, pwm, w)
      else let stopped = pwm_stop_via (some ops) base w in
        (stopped.0, record { base = base; ops = some ops; clock_hz = clock_hz }, stopped.1)

  unfoldable pub pwm_start : MmioOps W → ℕ → ℕ → ℕ → ℤ → W → W
  unfolding write_all
  pwm_start ops base period_ticks duty_ticks inverted w =
      let got = ops.read32 (base + pwm_ctrl) w in
      let locked = bit_or got.0 pwm_lock in
      let set =
        write_all ops
          ((locked, base + pwm_ctrl)
            ∷ (u32 period_ticks, base + pwm_period)
            ∷ (u32 duty_ticks, base + pwm_duty)
            ∷ [])
          got.1 in
      let cleared =
        bit_and locked
          (complement32 (bit_or (bit_or pwm_duty_positive pwm_inactive_positive) pwm_lock)) in
      let running = bit_or cleared (bit_or pwm_enable pwm_continuous) in
      let ctrl =
        bit_or running (if is_nonzero inverted then pwm_inactive_positive else pwm_duty_positive) in
      ops.write32 ctrl (base + pwm_ctrl) (ops.delay_us 1 set)

  unfoldable pub pwm_set_via : Option (MmioOps W) → ℕ → Option (ℕ × ℕ) → ℤ → W → ℤ × W
  unfolding pwm_start
  pwm_set_via none base found inverted w = (negsuc 0, w)
  pwm_set_via (some ops) base none inverted w = (negsuc 0, w)
  pwm_set_via (some ops) base (some (period_ticks, duty_ticks)) inverted w =
      (pos 0, pwm_start ops base period_ticks duty_ticks inverted w)

  unfoldable pub pwm_set : Pwm W → ℕ → ℕ → ℤ → W → ℤ × W
  unfolding pwm_set_via pwm_ticks
  pwm_set pwm period_ns duty_ns inverted w =
      pwm_set_via pwm.ops pwm.base (pwm_ticks pwm.clock_hz period_ns duty_ns) inverted w
