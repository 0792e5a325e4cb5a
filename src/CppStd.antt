-- ===== src/CppStd.antt =====
-- impl/cppstd/condition_variable.h and impl/cppstd/thread.h: waits and sleeps over those of the C++
-- library, whose state and clock are the program's.
pub mod Clamp
pub mod StdLock
pub mod Mutex
mod Tests
use roo_threads.Base.{ℕ, ◌*◌, ◌≡◌, Bool, Option, if◌then◌else◌}
use roo_threads.Base.Int.{ℤ, pos, ◌+ℤ◌, ◌-ℤ◌, ◌≤ℤ◌, leb_ℤ, ltb_ℤ}
use roo_threads.PredicateWait
use roo_threads.PredicateWait.{CvStatus, timeout}

-- `uptime` is roo_time::Uptime::Now(), in microseconds. std::this_thread::sleep_for does not come back
-- early, and std::condition_variable::wait_for gives a timeout when its time is over.
pub record StdKernel : Type 1 where
  pub World : Type 0
  pub uptime : World → ℤ
  pub std_sleep_for : ℤ → World → World
  pub std_wait : World → Option World
  pub std_wait_for : ℤ → World → World × CvStatus
  pub std_wait_for_holds : (World → World × Bool) → ℤ → World → World × Bool
  pub std_notify_one : World → World
  pub std_notify_all : World → World
  pub std_yield : World → World
  pub std_get_id : World → ℕ
  pub uptime-std_sleep_for : (d : ℤ) (w : World) → uptime w +ℤ d ≤ℤ uptime (std_sleep_for d w)
  pub uptime-std_wait_for :
      (d : ℤ) (w : World)
      → (std_wait_for d w).1 ≡ timeout
      → uptime w +ℤ d ≤ℤ uptime (std_wait_for d w).0

-- kMaxSafeWaitMicros, and kMaxSafeWaitDelay: ten days
abbrev pub max_safe_wait_micros : ℕ
max_safe_wait_micros = 10 * 24 * 3600 * 1000000

module _ (K : StdKernel) where
  open K use {
    World, uptime, std_sleep_for, std_wait, std_wait_for, std_wait_for_holds, std_notify_one,
    std_notify_all, std_yield, std_get_id,
  }

  unfoldable pub sleep_for : ℤ → World → World
  sleep_for duration w =
      std_sleep_for
        (if ltb_ℤ (pos max_safe_wait_micros) duration then pos max_safe_wait_micros else duration) w

  unfoldable pub sleep_until : ℤ → World → World
  unfolding sleep_for
  sleep_until when w = sleep_for (when -ℤ uptime w) w

  -- A duration that is negative goes through uint64_t and comes back the same.
  unfoldable pub wait_for : ℤ → World → World × CvStatus
  wait_for duration w =
      std_wait_for
        (if leb_ℤ (pos max_safe_wait_micros) duration then pos max_safe_wait_micros else duration) w

  unfoldable pub wait_until : ℤ → World → World × CvStatus
  unfolding wait_for
  wait_until when w = wait_for (when -ℤ uptime w) w

  unfoldable pub wait : World → Option World
  wait w = std_wait w

  unfoldable pub wait_holds : (World → World × Bool) → ℕ → World → Option (Option World)
  unfolding wait
  wait_holds pred fuel w = PredicateWait.wait pred wait fuel w

  unfoldable pub wait_until_holds : (World → World × Bool) → ℕ → ℤ → World → Option (World × Bool)
  wait_until_holds p fuel when w = PredicateWait.wait_until p (wait_until when) fuel w

  unfoldable pub wait_for_holds : (World → World × Bool) → ℤ → World → World × Bool
  wait_for_holds p duration w =
      std_wait_for_holds p
        (if ltb_ℤ duration (pos max_safe_wait_micros) then duration else pos max_safe_wait_micros) w

  unfoldable pub notify_one : World → World
  notify_one w = std_notify_one w

  unfoldable pub notify_all : World → World
  notify_all w = std_notify_all w

  -- of this_thread
  unfoldable pub get_id : World → ℕ
  get_id w = std_get_id w

  unfoldable pub yield : World → World
  yield w = std_yield w
