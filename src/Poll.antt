-- ===== src/Poll.antt =====
-- The polling loops of zephyr/drivers: read a register until a test holds, with a budget.
use lzamp.Base.{ℕ, zero, suc, Bool, true, false, if◌then◌else◌}
use lzamp.Mmio.{MmioOps}

-- `while (timeout_us--) { if (test(read32(address))) ...; delay_us(1); }`: whether the test held
-- before the budget ran out, and the world then.
module _ {W : Type 0} (ops : MmioOps W) (address : ℕ) (test : ℕ → Bool) where
  unfoldable pub poll : ℕ → W → Bool × W
  poll zero w = (false, w)
  poll (suc left) w =
      let got = ops.read32 address w in
      let rest = poll left (ops.delay_us 1 got.1) in if test got.0 then (true, got.1) else rest
