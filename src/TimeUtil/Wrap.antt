-- ===== src/TimeUtil/Wrap.antt =====
-- Deadlines in wrapping `TickType_t` arithmetic, and in microseconds of uptime.
use roo_threads.Base.{ℕ, ◌+◌, ◌-◌, ◌%◌, ◌≤◌, ◌<◌, ◌≡◌, true, false, arith}
use roo_threads.Base.Int.{ℤ, pos_part, ◌-ℤ◌, ◌+ℤ◌, ◌≤ℤ◌, -ℤ_parts, +ℤ_parts, eq_of_parts}
use roo_threads.Base.Division.{mod_cases}
use roo_threads.TimeUtil.{
  TickConfig, IsTickConfig, max_ticks_delay, calculate_deadline_from_duration, tick_deadline,
  ticks_until, is_expired, to_ticks,
}
use roo_threads.TimeUtil.Bounds.{to_ticks_bounded}

-- The difference between two ticks of one wrapping counter is their true distance.
ticks_until-tick_deadline :
    (c : TickConfig) (start elapsed ticks : ℕ)
    → start ≤ c.max_delay
    → elapsed ≤ c.max_delay
    → ticks ≤ c.max_delay
    → ((elapsed ≤ ticks)
        → ticks_until c (tick_deadline c start ticks) (tick_deadline c start elapsed)
          ≡ ticks - elapsed)
      × (ticks < elapsed
          → ticks_until c (tick_deadline c start ticks) (tick_deadline c start elapsed)
            ≡ ticks + (c.max_delay + 1) - elapsed)
unfolding ticks_until tick_deadline
ticks_until-tick_deadline c start elapsed ticks a b d =
    let m = c.max_delay + 1 in
    (
      (λ h. ground (
        arith,
        mod_cases (start + ticks) m,
        mod_cases (start + elapsed) m,
        mod_cases ((start + ticks) % m + m - (start + elapsed) % m) m,
      )),
      (λ h. ground (
        arith,
        mod_cases (start + ticks) m,
        mod_cases (start + elapsed) m,
        mod_cases ((start + ticks) % m + m - (start + elapsed) % m) m,
      )),
    )

-- A wait is set up at tick `start` (below 2^w) for the ticks of a duration, and `elapsed` ticks later,
-- at most the range of `TickType_t` less `kMaxTicksDelay`, the code compares the wrapped deadline with
-- the wrapped tick count. Before the duration is over the remaining delay is exact and the wait
-- goes on; from then on it is found to have expired.
pub tick_deadline-is_expired :
    (c : TickConfig) (micros : ℤ) (start elapsed : ℕ)
    → IsTickConfig c
    → start ≤ c.max_delay
    → elapsed + max_ticks_delay c ≤ c.max_delay
    → let ticks = to_ticks c micros in
      let delay = ticks_until c (tick_deadline c start ticks) (tick_deadline c start elapsed) in
      (elapsed < ticks → (delay ≡ ticks - elapsed) × (is_expired c delay ≡ false))
      × (ticks ≤ elapsed → is_expired c delay ≡ true)
unfolding is_expired
tick_deadline-is_expired c micros start elapsed v a b =
    let bound = to_ticks_bounded c micros v in
    let near =
      ticks_until-tick_deadline c start elapsed (to_ticks c micros) a (omega arith) (omega arith) in
    (λ h. ground arith, λ h. ground arith)

-- The deadline is the sum of the clock and the duration, but `Uptime::Max()` where the sum is
-- later than that.
pub calculate_deadline_from_duration_lem :
    (uptime_max now duration : ℤ)
    → let deadline = calculate_deadline_from_duration uptime_max now duration in
      (now +ℤ duration ≤ℤ uptime_max → deadline ≡ now +ℤ duration)
      × (uptime_max ≤ℤ now +ℤ duration → deadline ≡ uptime_max)
unfolding calculate_deadline_from_duration
calculate_deadline_from_duration_lem uptime_max now duration = (
  λ h. ground (
    arith,
    -ℤ_parts uptime_max now,
    +ℤ_parts now duration,
    eq_of_parts (now +ℤ duration) uptime_max,
  ),
  λ h. ground (
    arith,
    -ℤ_parts uptime_max now,
    +ℤ_parts now duration,
    eq_of_parts (now +ℤ duration) uptime_max,
  ),
)

-- The deadline is no further away than the duration.
pub deadline_near :
    (uptime_max now duration : ℤ)
    → pos_part (calculate_deadline_from_duration uptime_max now duration -ℤ now) ≤ pos_part duration
unfolding calculate_deadline_from_duration ◌-ℤ◌ ◌+ℤ◌
deadline_near uptime_max now duration = ground arith
