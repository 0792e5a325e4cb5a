-- ===== src/CvOpt/TimedTests.antt =====
-- The timed waits of condition_variable_opt.h and .cpp, over a clock that wraps around.
use roo_threads.Base.{ℕ, ◌+◌, ◌<◌, ◌≤◌, ◌≡◌, ◌⊎◌, Bool, true, false, some, arith}
use roo_threads.Base.Int.{pos}
use roo_threads.TimeUtil.{TickConfig, IsTickConfig, to_ticks}
use roo_threads.TimeUtil.Bounds.{
  to_ticks_bounded, max_ticks_delay_bounds, max_ticks_delay_pos, to_ticks-IsLeast,
}
use roo_threads.CvOpt.TimedWait
use roo_threads.CvOpt.TimedWait.{IsShort, wait_for-Verdict}
use roo_threads.CvOpt.Timeout.{TickKernel, wait_for, wait_for_lem}
use roo_threads.CvOpt.System.{CvStatus, no_timeout, timeout}

silence_signaled : (delay n : ℕ) → false ≡ true → (n + delay ≤ n + delay + 0) × (0 < 0)
silence_signaled delay n e = cc

-- A clock that the waits move, a few ticks before it wraps around, and nobody notifies.
abbrev silence : TickKernel
silence = record {
  World = ℕ;
  ticks = λ n. n;
  late = 0;
  wakes_left = λ n. 0;
  notify_wait = λ delay n. (n + delay, false);
  ticks-notify_wait = λ delay n. omega arith;
  ticks-notify_wait_failed = λ delay n h e. (omega arith, omega arith, omega arith);
  ticks-notify_wait_signaled = silence_signaled;
}

abbrev small_port : TickConfig
small_port = record { period = 10; max_delay = 65535 }

small_port-IsTickConfig : IsTickConfig small_port
small_port-IsTickConfig = record {
  period_pos = omega arith;
  period_small = omega arith;
  delay_wide = omega arith;
  delay_fits = omega arith;
}

wait_for_lem_example :
    (r : ℕ × CvStatus) × (wait_for silence small_port 40000 (pos 40000) 65533 ≡ some r)
    × ((r.1 ≡ no_timeout) ⊎ ((r.1 ≡ timeout) × (65533 + to_ticks small_port (pos 40000) ≤ r.0)))
wait_for_lem_example =
    wait_for_lem silence small_port 40000 (pos 40000) 65533 small_port-IsTickConfig
      (omega (
        arith,
        to_ticks_bounded small_port (pos 40000) small_port-IsTickConfig,
        max_ticks_delay_bounds small_port small_port-IsTickConfig,
      ))
      (omega (arith, to_ticks_bounded small_port (pos 40000) small_port-IsTickConfig))

-- It takes five ticks to get the mutex, and two to evaluate a predicate that does not hold.
lock_five : IsShort silence small_port 5 (λ n. n + 5)
lock_five = record { forth = λ n. omega arith; near = λ n. omega arith; kept = λ n. omega arith }

pred_two : IsShort silence small_port 2 (λ n. n + 2)
pred_two = record { forth = λ n. omega arith; near = λ n. omega arith; kept = λ n. omega arith }

-- 5 ms are a tick of 10 ms.
one_tick : to_ticks small_port (pos 5000) ≤ 1
one_tick =
    let least = to_ticks-IsLeast small_port 5000 small_port-IsTickConfig in
    omega (
      arith,
      (least.3 (omega arith)
          (omega (arith, max_ticks_delay_pos small_port small_port-IsTickConfig))).1,
    )

wait_for-Verdict_example :
    (r : ℕ × Bool) × (TimedWait.wait_for silence small_port
        (λ n. n + 5)
        (λ n. (n + 2, false))
        (λ n. pos n)
        1
        9
        (pos 5000)
        65533
      ≡ some r)
    × ((u : ℕ) × ((u + 2, false) ≡ r)
        × ((r.1 ≡ true) ⊎ (65533 + to_ticks small_port (pos 5000) ≤ u)))
wait_for-Verdict_example =
    wait_for-Verdict silence small_port (λ n. n + 5) (λ n. (n + 2, false)) (λ n. pos n) 5 2
      lock_five pred_two 1 9 (pos 5000) 65533 small_port-IsTickConfig
      (omega (arith, one_tick, max_ticks_delay_bounds small_port small_port-IsTickConfig))
      (omega (arith, one_tick)) (omega arith)
