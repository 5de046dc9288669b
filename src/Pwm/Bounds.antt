-- ===== src/Pwm/Bounds.antt =====
-- zephyr/drivers/rk3588_pwm.c: which requests the PWM driver accepts, and the numbers it programs.
use lzamp.Base.{ℕ, ◌+◌, ◌*◌, ◌≤◌, ◌<◌, ◌^◌, ◌≡◌, ◌⊎◌, Option, none, some}

-- `n` ticks are the time `ns` rounded to the nearest tick, where a tick takes 10 ^ 9 / `clock_hz` ns.
abbrev pub IsNearest : ℕ → ℕ → ℕ → Type 0
IsNearest clock_hz ns n =
    (n * 1000000000 ≤ clock_hz * ns + 500000000)
    × (clock_hz * ns + 500000000 < n * 1000000000 + 1000000000)

-- What the driver may answer to a request.
abbrev pub TickAnswer : ℕ → ℕ → ℕ → Option (ℕ × ℕ) → Type 0
TickAnswer clock_hz period_ns duty_ns none =
    ((period_ns ≡ 0) ⊎ (period_ns < duty_ns))
    ⊎ ((clock_hz * period_ns < 500000000)
        ⊎ (2 ^ 32 * 1000000000 ≤ clock_hz * period_ns + 500000000))
TickAnswer clock_hz period_ns duty_ns (some (period, duty)) =
    (0 < period_ns)
    × (duty_ns ≤ period_ns)
    × IsNearest clock_hz period_ns period
    × IsNearest clock_hz duty_ns duty
    × (0 < period)
    × (period < 2 ^ 32)
    × (duty ≤ period)
