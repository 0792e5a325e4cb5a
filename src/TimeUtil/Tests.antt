-- ===== src/TimeUtil/Tests.antt =====
-- Tests of impl/freertos/timeutil.h, and its theorems at concrete configurations.
use roo_threads.Base.{◌+◌, ◌-◌, ◌*◌, ◌^◌, ◌≤◌, ◌<◌, ◌≡◌, refl, true, false, arith}
use roo_threads.Base.Int.{pos, negsuc, ◌+ℤ◌, ◌≤ℤ◌}
use roo_threads.TimeUtil.{
  TickConfig, IsTickConfig, max_ticks_delay, max_safe_wait_micros, rounded_ticks, to_ticks,
  calculate_deadline_from_duration, tick_deadline, ticks_until, is_expired,
}
use roo_threads.TimeUtil.Bounds.{to_ticks_bounded, to_ticks-IsLeast}
use roo_threads.TimeUtil.Wrap.{tick_deadline-is_expired, calculate_deadline_from_duration_lem}

-- 100 ticks a second, 16-bit ticks
abbrev slow : TickConfig
slow = record { period = 10; max_delay = 2 ^ 16 - 1 }

-- 1000 ticks a second, 64-bit ticks
abbrev wide : TickConfig
wide = record { period = 1; max_delay = 2 ^ 64 - 1 }

slow-IsTickConfig : IsTickConfig slow
slow-IsTickConfig = omega arith

half_range_of_16_bits : max_ticks_delay slow ≡ 32767
unfolding max_ticks_delay
half_range_of_16_bits = refl

ten_days_of_64_bits : max_ticks_delay wide ≡ 864_000_000
unfolding max_ticks_delay
ten_days_of_64_bits = refl

rounds_up : to_ticks slow (pos 10_001) ≡ 2
unfolding to_ticks rounded_ticks max_safe_wait_micros max_ticks_delay
rounds_up = refl

clamps : to_ticks slow (pos 1_000_000_000) ≡ 32767
unfolding to_ticks rounded_ticks max_safe_wait_micros max_ticks_delay
clamps = refl

to_ticks_bounded_example :
    (to_ticks slow (pos 10_001) ≤ max_ticks_delay slow)
    × (2 * to_ticks slow (pos 10_001) ≤ 2 ^ 16 - 1)
    × (to_ticks slow (pos 10_001) * 10 ≤ 864000000)
to_ticks_bounded_example = to_ticks_bounded slow (pos 10_001) slow-IsTickConfig

to_ticks-IsLeast_example :
    (to_ticks slow (negsuc 10_001) ≡ 0)
    × (to_ticks slow (pos 0) ≡ 0)
    × (max_ticks_delay slow * 10 * 1000 ≤ 10_001
        → ◌<◌ 0 10_001
        → to_ticks slow (pos 10_001) ≡ max_ticks_delay slow)
    × (◌<◌ 0 10_001
        → 10_001 < max_ticks_delay slow * 10 * 1000
        → (10_001 ≤ to_ticks slow (pos 10_001) * 10 * 1000)
          × (to_ticks slow (pos 10_001) * 10 * 1000 < 10_001 + 10 * 1000))
to_ticks-IsLeast_example = to_ticks-IsLeast slow 10_001 slow-IsTickConfig

-- The tick counter wraps between the start of the wait and its end.
tick_deadline-is_expired_example :
    let ticks = to_ticks slow (pos 50_000) in
    let delay = ticks_until slow (tick_deadline slow 65533 ticks) (tick_deadline slow 65533 3) in
    (3 < ticks → (delay ≡ ticks - 3) × (is_expired slow delay ≡ false))
    × (ticks ≤ 3 → is_expired slow delay ≡ true)
unfolding max_ticks_delay
tick_deadline-is_expired_example =
    tick_deadline-is_expired slow (pos 50_000) 65533 3 slow-IsTickConfig (omega arith) (omega arith)

calculate_deadline_from_duration_lem_example :
    let deadline = calculate_deadline_from_duration (pos 1000) (pos 400) (pos 700) in
    (pos 400 +ℤ pos 700 ≤ℤ pos 1000 → deadline ≡ pos 400 +ℤ pos 700)
    × (pos 1000 ≤ℤ pos 400 +ℤ pos 700 → deadline ≡ pos 1000)
calculate_deadline_from_duration_lem_example =
    calculate_deadline_from_duration_lem (pos 1000) (pos 400) (pos 700)
