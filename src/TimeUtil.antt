-- ===== src/TimeUtil.antt =====
-- impl/freertos/timeutil.h: durations to scheduler ticks, and deadlines.
use roo_threads.Base.{
  ℕ, ◌+◌, ◌-◌, ◌*◌, ◌/◌, ◌%◌, ◌^◌, ◌≤◌, ◌<◌, Bool, leb, ltb, ◌==◌, ◌||◌, if◌then◌else◌,
}
use roo_threads.Base.Int.{ℤ, pos, pos_part, leb_ℤ, ◌+ℤ◌, ◌-ℤ◌}
pub mod Bounds
pub mod Wrap
mod Tests

-- What the FreeRTOS port configures: `portTICK_PERIOD_MS` and `portMAX_DELAY`, the largest
-- `TickType_t`.
pub record TickConfig : Type 0 where
  pub period : ℕ
  pub max_delay : ℕ

-- A port's period is 1000 divided by the tick rate; `TickType_t` has 16 bits or more, and 64 at most.
pub record IsTickConfig (c : TickConfig) : Type 0 where
  pub period_pos : 0 < c.period
  pub period_small : c.period ≤ 1000
  pub delay_wide : 2 ^ 16 - 1 ≤ c.max_delay
  pub delay_fits : c.max_delay < 2 ^ 64

-- uint64_t arithmetic.
abbrev u64 : ℕ → ℕ
u64 n = n % 2 ^ 64

-- kTenDaysInTicks
abbrev pub ten_days_in_ticks : TickConfig → ℕ
ten_days_in_ticks c = 10 * 24 * 60 * 60 * 1000 / c.period

-- kHalfRangeMaxTicksDelay
abbrev pub half_range_max_ticks_delay : TickConfig → ℕ
half_range_max_ticks_delay c = c.max_delay / 2

-- kMaxTicksDelay
pub max_ticks_delay : TickConfig → ℕ
max_ticks_delay c =
    if ltb (half_range_max_ticks_delay c) (ten_days_in_ticks c)
    then half_range_max_ticks_delay c
    else ten_days_in_ticks c

-- kMaxSafeWaitMicros
pub max_safe_wait_micros : TickConfig → ℕ
max_safe_wait_micros c = u64 (u64 (max_ticks_delay c * c.period) * 1000)

-- The last lines of `ToTicks`: milliseconds and then ticks, each rounded up.
rounded_ticks : TickConfig → ℕ → ℕ
rounded_ticks c micros =
    let ms = u64 (micros + 999) / 1000 in u64 (u64 (ms + c.period) + 2 ^ 64 - 1) / c.period

-- `ToTicks`, from the duration's `inMicros()`.
pub to_ticks : TickConfig → ℤ → ℕ
to_ticks c micros =
    if leb_ℤ micros (pos 0)
    then 0
    else if leb (max_safe_wait_micros c) (pos_part micros)
    then max_ticks_delay c
    else if leb (rounded_ticks c (pos_part micros)) (max_ticks_delay c)
    then rounded_ticks c (pos_part micros) % (c.max_delay + 1)
    else max_ticks_delay c

-- `CalculateDeadlineFromDuration`, with the clock's reading and `Uptime::Max()` in microseconds.
pub calculate_deadline_from_duration : ℤ → ℤ → ℤ → ℤ
calculate_deadline_from_duration uptime_max now duration =
    if leb_ℤ duration (uptime_max -ℤ now) then now +ℤ duration else uptime_max

-- TickType_t arithmetic, as the condition variable uses it: `xTaskGetTickCount() + ticks` and
-- `when - now`.
unfoldable pub tick_deadline : TickConfig → ℕ → ℕ → ℕ
tick_deadline c now ticks = (now + ticks) % (c.max_delay + 1)

pub ticks_until : TickConfig → ℕ → ℕ → ℕ
ticks_until c when now = (when + (c.max_delay + 1) - now) % (c.max_delay + 1)

-- `delay == 0 || delay > internal::kMaxTicksDelay`
pub is_expired : TickConfig → ℕ → Bool
is_expired c delay = delay == 0 || ltb (max_ticks_delay c) delay
