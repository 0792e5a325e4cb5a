-- ===== src/Semaphore/Timed.antt =====
-- The timed acquisition of impl/freertos/semaphore.h ends, and tells the truth.
use roo_threads.Base.{
  ℕ, zero, suc, ◌+◌, ◌≤◌, ◌<◌, ◌≡◌, refl, ◌⊎◌, inl, inr, Bool, true, false, some, arith, Bool-cases,
}
use roo_threads.Base.Int.{before, closer, ℤ, pos, pos_part, leb_ℤ, ◌-ℤ◌, ◌+ℤ◌, ◌≤ℤ◌}
use mathlib.Core.Path.{subst}
use roo_threads.Kernel.{SemaphoreKernel}
use roo_threads.TimeUtil.{TickConfig, IsTickConfig, to_ticks, calculate_deadline_from_duration}
use roo_threads.TimeUtil.Bounds.{to_ticks_pos}
use roo_threads.TimeUtil.Wrap.{calculate_deadline_from_duration_lem, deadline_near}
use roo_threads.Semaphore.{try_acquire_until, try_acquire_for}

module _ (K : SemaphoreKernel) (c : TickConfig) where
  open K use {World, uptime, taken, take, taken-take, uptime-take, uptime-take_failed}

  -- How a timed acquisition ends: with one token more, or with none and not before the deadline.
  abbrev pub Outcome : ℤ → World → World × Bool → Type 0
  Outcome when w (v, b) =
      (uptime w ≤ uptime v)
      × (((b ≡ true) × (taken v ≡ taken w + 1))
          ⊎ (b ≡ false) × (taken v ≡ taken w) × (when ≤ℤ pos (uptime v)))

  Outcome-later :
      (when : ℤ) (w w' : World) (r : World × Bool)
      → uptime w ≤ uptime w'
      → taken w' ≡ taken w
      → Outcome when w' r
      → Outcome when w r
  Outcome-later when w w' (u, b) h e o = ground arith

  -- `try_acquire_until` returns if it may go round once more than there are microseconds up to the
  -- deadline, and either has taken exactly one token and says so, or has taken none and says
  -- so at the deadline or later.
  pub try_acquire_until-Outcome :
      (fuel : ℕ) (when : ℤ) (w : World)
      → IsTickConfig c
      → pos_part (when -ℤ pos (uptime w)) < fuel
      → (r : World × Bool) × (try_acquire_until K c fuel when w ≡ some r) × Outcome when w r
  unfolding try_acquire_until
  try_acquire_until-Outcome zero when w v h = absurd (omega arith)
  try_acquire_until-Outcome (suc fuel) when w v h =
      elim (Bool-cases (leb_ℤ when (pos (uptime w)))) [
        | inl e ↦ rw e ((w, false), refl, ground arith)
        | inr e ↦
            let ticks = to_ticks c (when -ℤ pos (uptime w)) in
            elim (Bool-cases (take ticks w).1) [
              | inl e' ↦ (
                ((take ticks w).0, true),
                ground arith,
                ground (arith, taken-take ticks w, uptime-take ticks w),
              )
              | inr e' ↦
                  let w' = (take ticks w).0 in
                  let later =
                    uptime-take_failed ticks w (to_ticks_pos c _ v (before when (uptime w) e)) e' in
                  let (r, q, o) =
                    try_acquire_until-Outcome fuel when w' v
                      (closer when (uptime w) (uptime w') fuel e later h) in
                  (
                    r,
                    ground arith,
                    Outcome-later when w w' r (omega arith) (ground (arith, taken-take ticks w)) o,
                  )
            ]
      ]

  -- `try_acquire_for` keeps the same promise for the duration from the call on, or up to the end of
  -- the clock's range where the duration would pass it.
  pub try_acquire_for-Outcome :
      (fuel : ℕ) (uptime_max duration : ℤ) (w : World)
      → IsTickConfig c
      → pos_part duration < fuel
      → (r : World × Bool) × (try_acquire_for K c fuel uptime_max duration w ≡ some r)
        × ((pos (uptime w) +ℤ duration ≤ℤ uptime_max → Outcome (pos (uptime w) +ℤ duration) w r)
            × (uptime_max ≤ℤ pos (uptime w) +ℤ duration → Outcome uptime_max w r))
  unfolding try_acquire_for
  try_acquire_for-Outcome fuel uptime_max duration w v h =
      let now = pos (uptime w) in
      let deadline = calculate_deadline_from_duration uptime_max now duration in
      let spec = calculate_deadline_from_duration_lem uptime_max now duration in
      let (r, q, o) =
        try_acquire_until-Outcome fuel deadline w v
          (omega (arith, deadline_near uptime_max now duration)) in
      (
        r,
        q,
        (
          (λ e. subst (λ d. Outcome d w r) (spec.0 e) o),
          λ e. subst (λ d. Outcome d w r) (spec.1 e) o,
        ),
      )
