-- ===== src/Semaphore/Binary.antt =====
-- class binary_semaphore of impl/freertos/semaphore.h, whose members are written out a second time.
use roo_threads.Base.{
  ℕ, zero, suc, ◌≡◌, refl, Bool, true, false, Option, none, some, if◌then◌else◌, arith,
}
use roo_threads.Base.Int.{ℤ, pos, leb_ℤ, ◌-ℤ◌}
use roo_threads.Kernel.{SemaphoreKernel}
use roo_threads.TimeUtil.{TickConfig, to_ticks, calculate_deadline_from_duration}
use roo_threads.Semaphore

module _ (K : SemaphoreKernel) where
  open K use {World, uptime, take, give}

  unfoldable pub try_acquire : World → World × Bool
  try_acquire w = take 0 w

  unfoldable pub release : World → World
  release w = (give w).0

  module _ (c : TickConfig) where
    unfoldable pub acquire : World → World
    acquire w = (take c.max_delay w).0

    -- The loop, at most `fuel` times round.
    unfoldable pub try_acquire_until : ℕ → ℤ → World → Option (World × Bool)
    try_acquire_until zero when w = none
    try_acquire_until (suc fuel) when w =
        let now = pos (uptime w) in
        let attempt = take (to_ticks c (when -ℤ now)) w in
        let again = try_acquire_until fuel when attempt.0 in
        if leb_ℤ when now
        then some (w, false)
        else if attempt.1
        then some (attempt.0, true)
        else again

    unfoldable pub try_acquire_for : ℕ → ℤ → ℤ → World → Option (World × Bool)
    unfolding try_acquire_until
    try_acquire_for fuel uptime_max duration w =
        try_acquire_until fuel
          (calculate_deadline_from_duration uptime_max (pos (uptime w)) duration) w

    try_acquire_until_lem :
        (fuel : ℕ) (when : ℤ) (w : World)
        → try_acquire_until fuel when w ≡ Semaphore.try_acquire_until K c fuel when w
    unfolding try_acquire_until Semaphore.try_acquire_until
    try_acquire_until_lem zero when w = refl
    try_acquire_until_lem (suc fuel) when w =
        ground
          (arith, try_acquire_until_lem fuel when (take (to_ticks c (when -ℤ pos (uptime w))) w).0)

    -- The members do to a binary semaphore what those of counting_semaphore do to a counting one, and return
    -- the same, so that what holds of those holds of these.
    pub same_members :
        (fuel : ℕ) (uptime_max time : ℤ) (w : World)
        → (try_acquire w ≡ Semaphore.try_acquire K w)
          × (release w ≡ Semaphore.release K w)
          × (acquire w ≡ Semaphore.acquire K c w)
          × (try_acquire_until fuel time w ≡ Semaphore.try_acquire_until K c fuel time w)
          × (try_acquire_for fuel uptime_max time w
              ≡ Semaphore.try_acquire_for K c fuel uptime_max time w)
    unfolding try_acquire release acquire try_acquire_for Semaphore.try_acquire Semaphore.release
        Semaphore.acquire Semaphore.try_acquire_for
    same_members fuel uptime_max time w =
        (refl, refl, refl, try_acquire_until_lem fuel time w, try_acquire_until_lem fuel _ w)
