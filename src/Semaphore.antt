-- ===== src/Semaphore.antt =====
-- impl/freertos/semaphore.h: counting and binary semaphores over those of FreeRTOS.
pub mod Timed
pub mod Tokens
pub mod Binary
pub mod System
pub mod Tests
use roo_threads.Base.{ℕ, zero, suc, ◌+◌, Bool, true, false, Option, none, some, ltb, if◌then◌else◌}
use roo_threads.Base.Int.{ℤ, pos, leb_ℤ, ◌-ℤ◌, ◌+ℤ◌}
use roo_threads.Kernel.{SemaphoreKernel}
use roo_threads.TimeUtil.{TickConfig, to_ticks, calculate_deadline_from_duration}

module _ (K : SemaphoreKernel) where
  open K use {World, uptime, create_counting, create_binary, take, give}

  -- The constructors.
  pub counting_semaphore : ℕ → ℕ → World → World
  counting_semaphore least_max_value desired w = create_counting least_max_value desired w

  pub binary_semaphore : ℕ → World → World
  binary_semaphore desired w = if ltb 0 desired then (give (create_binary w)).0 else create_binary w

  pub try_acquire : World → World × Bool
  try_acquire w = take 0 w

  pub release : World → World
  release w = (give w).0

  module _ (c : TickConfig) where
    -- The result of the blocking call is not looked at.
    pub acquire : World → World
    acquire w = (take c.max_delay w).0

    -- The loop of `try_acquire_until`, at most `fuel` times round.
    unfoldable pub try_acquire_until : ℕ → ℤ → World → Option (World × Bool)
    try_acquire_until zero when w = none
    try_acquire_until (suc fuel) when w =
        let delta = when -ℤ pos (uptime w) in
        let attempt = take (to_ticks c delta) w in
        let again = try_acquire_until fuel when attempt.0 in
        if leb_ℤ when (pos (uptime w))
        then some (w, false)
        else if attempt.1
        then some (attempt.0, true)
        else again

    -- With the latest time that the clock's type can hold.
    pub try_acquire_for : ℕ → ℤ → ℤ → World → Option (World × Bool)
    try_acquire_for fuel uptime_max duration w =
        try_acquire_until fuel
          (calculate_deadline_from_duration uptime_max (pos (uptime w)) duration) w
