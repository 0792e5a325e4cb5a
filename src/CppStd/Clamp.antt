-- ===== src/CppStd/Clamp.antt =====
-- What the limit of ten days does to the waits of impl/cppstd.
use roo_threads.Base.{ℕ, suc, ◌≡◌, ◌⊎◌, Bool, false, some, arith}
use roo_threads.Base.Int.{ℤ, pos, ◌+ℤ◌, ◌-ℤ◌, ◌≤ℤ◌, +ℤ_parts, -ℤ_parts}
use roo_threads.PredicateWait
use roo_threads.PredicateWait.{CvStatus, no_timeout, timeout, is_timeout}
use roo_threads.CppStd.{StdKernel, max_safe_wait_micros, sleep_until, wait_until, wait_until_holds}

module _ (K : StdKernel) where
  open K use {World, uptime, std_sleep_for, std_wait_for, uptime-std_sleep_for, uptime-std_wait_for}

  abbrev pub ten_days : ℤ
  ten_days = pos max_safe_wait_micros

  -- A sleep until a time, and a wait that times out, are over at that time or later, or at least ten days
  -- after they begin where the time is further away than that.
  pub clamp_lem :
      (when : ℤ) (w : World)
      → ((when ≤ℤ uptime (sleep_until K when w))
          ⊎ ((¬ (when ≤ℤ uptime w +ℤ ten_days))
              × (uptime w +ℤ ten_days ≤ℤ uptime (sleep_until K when w))))
        × ((wait_until K when w).1 ≡ timeout
            → (when ≤ℤ uptime (wait_until K when w).0)
              ⊎ ((¬ (when ≤ℤ uptime w +ℤ ten_days))
                  × (uptime w +ℤ ten_days ≤ℤ uptime (wait_until K when w).0)))
  unfolding sleep_until wait_until
  clamp_lem when w =
      let left = when -ℤ uptime w in
      (
        ground (
          arith,
          -ℤ_parts when (uptime w),
          +ℤ_parts (uptime w) left,
          +ℤ_parts (uptime w) ten_days,
          uptime-std_sleep_for left w,
          uptime-std_sleep_for ten_days w,
        ),
        λ t. ground (
          arith,
          -ℤ_parts when (uptime w),
          +ℤ_parts (uptime w) left,
          +ℤ_parts (uptime w) ten_days,
          uptime-std_wait_for left w,
          uptime-std_wait_for ten_days w,
        ),
      )

  -- Where the time is more than ten days away, and the wait of the C++ library times out exactly after
  -- ten days, a wait for a predicate that does not hold returns false before its time.
  pub wait_until_holds_early :
      (p : World → World × Bool) (fuel : ℕ) (when : ℤ) (w v : World)
      → ¬ (when ≤ℤ uptime w +ℤ ten_days)
      → p w ≡ (w, false)
      → std_wait_for ten_days w ≡ (v, timeout)
      → uptime v ≡ uptime w +ℤ ten_days
      → p v ≡ (v, false)
      → (wait_until_holds K p (suc fuel) when w ≡ some (v, false)) × (¬ (when ≤ℤ uptime v))
  unfolding wait_until_holds wait_until PredicateWait.wait_until
  wait_until_holds_early p fuel when w v far h e t h' =
      (ground (arith, -ℤ_parts when (uptime w), +ℤ_parts (uptime w) ten_days), ground arith)
