-- ===== src/TimeUtil/Bounds.antt =====
-- Bounds of the conversions of impl/freertos/timeutil.h.
use roo_threads.Base.{ℕ, ◌+◌, ◌-◌, ◌*◌, ◌/◌, ◌≤◌, ◌<◌, ◌≡◌, ap, ◌⊎◌, inl, inr, arith}
use roo_threads.Base.Int.{ℤ, pos, negsuc, pos_part}
use roo_threads.Base.Division.{div_bounds, div_up_bounds, le_of_mul_lt}
use native.Mathlib.Nat.{mod-eq_of_lt, mul-le-mul_right, le-div_iff_mul-le}
use native.Mathlib.Decide.{dec_lt}
use roo_threads.TimeUtil.{
  TickConfig, IsTickConfig, max_ticks_delay, max_safe_wait_micros, to_ticks, rounded_ticks,
  ten_days_in_ticks, half_range_max_ticks_delay,
}

ten_days_lem : (c : TickConfig) → IsTickConfig c → ten_days_in_ticks c * c.period ≤ 864000000
ten_days_lem c v = (div_bounds 864000000 c.period v.period_pos).0

ten_days_pos : (c : TickConfig) → IsTickConfig c → 0 < ten_days_in_ticks c
ten_days_pos c v =
    (le-div_iff_mul-le {k = c.period} {x = 1} {y = 864000000} v.period_pos).1 (omega arith)

max_ticks_delay_cases :
    (c : TickConfig)
    → ((max_ticks_delay c ≡ half_range_max_ticks_delay c)
        × (half_range_max_ticks_delay c ≤ ten_days_in_ticks c))
      ⊎ (max_ticks_delay c ≡ ten_days_in_ticks c)
        × (ten_days_in_ticks c ≤ half_range_max_ticks_delay c)
unfolding max_ticks_delay
max_ticks_delay_cases c = ground arith

pub max_ticks_delay_bounds :
    (c : TickConfig)
    → IsTickConfig c
    → (2 * max_ticks_delay c ≤ c.max_delay) × (max_ticks_delay c * c.period ≤ 864000000)
max_ticks_delay_bounds c v = elim (max_ticks_delay_cases c) [
  | inl (e, h) ↦ rw e (omega arith, omega (arith, mul-le-mul_right c.period h, ten_days_lem c v))
  | inr (e, h) ↦ rw e (omega arith, ten_days_lem c v)
]

max_safe_wait_micros_lem :
    (c : TickConfig) → IsTickConfig c → max_safe_wait_micros c ≡ max_ticks_delay c * c.period * 1000
unfolding max_safe_wait_micros
max_safe_wait_micros_lem c v =
    let ms : ℕ = max_ticks_delay c * c.period in
    let small : ms ≤ 864000000 = (max_ticks_delay_bounds c v).1 in omega arith

-- Nothing wraps: the ticks are the milliseconds rounded up, and these the microseconds.
rounded_ticks_lem :
    (c : TickConfig) (m : ℕ)
    → IsTickConfig c
    → m ≤ 864000000000
    → rounded_ticks c m ≡ ((m + 999) / 1000 + c.period - 1) / c.period
unfolding rounded_ticks
rounded_ticks_lem c m v h = ap (λ n. n / c.period) (omega arith)

rounded_ticks_bounds :
    (c : TickConfig) (m : ℕ)
    → IsTickConfig c
    → m ≤ 864000000000
    → (m ≤ rounded_ticks c m * c.period * 1000)
      × (rounded_ticks c m * c.period * 1000 < m + c.period * 1000)
rounded_ticks_bounds c m v h = omega (
  arith,
  ap (λ n. n * c.period) (rounded_ticks_lem c m v h),
  div_up_bounds ((m + 999) / 1000) c.period v.period_pos,
)

to_ticks-le : (c : TickConfig) (micros : ℤ) → IsTickConfig c → to_ticks c micros ≤ max_ticks_delay c
unfolding to_ticks
to_ticks-le c micros v = ground (arith, max_ticks_delay_bounds c v)

-- The number of ticks of a duration is at most `kMaxTicksDelay`, which is at most half of the
-- range of `TickType_t` and at most ten days.
pub to_ticks_bounded :
    (c : TickConfig) (micros : ℤ)
    → IsTickConfig c
    → (to_ticks c micros ≤ max_ticks_delay c)
      × (2 * to_ticks c micros ≤ c.max_delay)
      × (to_ticks c micros * c.period ≤ 864000000)
to_ticks_bounded c micros v =
    let le = to_ticks-le c micros v in
    (
      le,
      omega (arith, max_ticks_delay_bounds c v),
      omega (arith, mul-le-mul_right c.period le, max_ticks_delay_bounds c v),
    )

rounded_ticks-le :
    (c : TickConfig) (m : ℕ)
    → IsTickConfig c
    → m < max_ticks_delay c * c.period * 1000
    → rounded_ticks c m ≤ max_ticks_delay c
rounded_ticks-le c m v h =
    le_of_mul_lt (rounded_ticks c m) (max_ticks_delay c) c.period
      (omega (arith, rounded_ticks_bounds c m v (omega (arith, max_ticks_delay_bounds c v))))

to_ticks-eq-rounded_ticks :
    (c : TickConfig) (m : ℕ)
    → IsTickConfig c
    → 0 < m
    → m < max_ticks_delay c * c.period * 1000
    → to_ticks c (pos m) ≡ rounded_ticks c m
unfolding to_ticks
to_ticks-eq-rounded_ticks c m v h k = ground (
  arith,
  max_safe_wait_micros_lem c v,
  max_ticks_delay_bounds c v,
  rounded_ticks-le c m v k,
  mod-eq_of_lt {n = rounded_ticks c m} {m = c.max_delay + 1},
)

pub max_ticks_delay_pos : (c : TickConfig) → IsTickConfig c → 0 < max_ticks_delay c
max_ticks_delay_pos c v =
    ground
      (arith, max_ticks_delay_cases c, div_bounds 864000000 c.period v.period_pos, ten_days_pos c v)

-- A duration that is not positive takes no tick. One of `kMaxSafeWaitMicros` or more takes
-- `kMaxTicksDelay`. Between the two the ticks cover the duration, and one tick less does not.
pub to_ticks-IsLeast :
    (c : TickConfig) (micros : ℕ)
    → IsTickConfig c
    → (to_ticks c (negsuc micros) ≡ 0)
      × (to_ticks c (pos 0) ≡ 0)
      × (max_ticks_delay c * c.period * 1000 ≤ micros
          → 0 < micros
          → to_ticks c (pos micros) ≡ max_ticks_delay c)
      × (0 < micros
          → micros < max_ticks_delay c * c.period * 1000
          → (micros ≤ to_ticks c (pos micros) * c.period * 1000)
            × (to_ticks c (pos micros) * c.period * 1000 < micros + c.period * 1000))
unfolding to_ticks
to_ticks-IsLeast c micros v = (
  ground arith,
  ground arith,
  (λ h k. ground (arith, max_safe_wait_micros_lem c v)),
  λ h k.
      rw (to_ticks-eq-rounded_ticks c micros v h k)
        (rounded_ticks_bounds c micros v (omega (arith, max_ticks_delay_bounds c v))),
)

-- A duration that is positive takes a tick at least.
pub to_ticks_pos :
    (c : TickConfig) (micros : ℤ) → IsTickConfig c → 0 < pos_part micros → 0 < to_ticks c micros
to_ticks_pos c (negsuc m) v h = absurd (omega arith)
to_ticks_pos c (pos m) v h = elim (dec_lt m (max_ticks_delay c * c.period * 1000)) [
  | yes p ↦ grind (arith, (to_ticks-IsLeast c m v).3 h p)
  | no p ↦ omega (arith, (to_ticks-IsLeast c m v).2 (omega arith) h, max_ticks_delay_pos c v)
]
