-- ===== src/SingleThreaded/Waiting.antt =====
-- impl/singlethreaded/condition_variable.h, and the sleeps of impl/singlethreaded/thread.h.
use roo_threads.Base.{
  ℕ, suc, ◌≡◌, ◌⊎◌, inl, inr, Bool, true, false, Option, some, if◌then◌else◌, arith, Bool-cases,
}
use roo_threads.Base.Int.{ℤ, pos, ◌-ℤ◌, ◌+ℤ◌, ◌≤ℤ◌, leb_ℤ, -ℤ_parts, +ℤ_parts}
use roo_threads.PredicateWait
use roo_threads.PredicateWait.{CvStatus, timeout}

-- What the code calls of roo_time: the clock, and a delay, which comes back when the duration is
-- over, at once if it is not positive. `rest` is what the rest of the program sees.
pub record TimeKernel : Type 1 where
  pub World : Type 0
  pub Rest : Type 0
  pub rest : World → Rest
  pub uptime : World → ℤ
  pub delay : ℤ → World → World
  pub rest-delay : (d : ℤ) (w : World) → rest (delay d w) ≡ rest w
  pub uptime-delay : (d : ℤ) (w : World) → uptime w +ℤ d ≤ℤ uptime (delay d w)

module _ (K : TimeKernel) where
  open K use {World, Rest, rest, uptime, delay, rest-delay, uptime-delay}

  unfoldable pub wait_for : ℤ → World → World × CvStatus
  wait_for duration w = (delay duration w, timeout)

  unfoldable pub wait_until : ℤ → World → World × CvStatus
  unfolding wait_for
  wait_until when w = wait_for (when -ℤ uptime w) w

  unfoldable pub wait_until_holds : (World → World × Bool) → ℕ → ℤ → World → Option (World × Bool)
  wait_until_holds p fuel when w = PredicateWait.wait_until p (wait_until when) fuel w

  unfoldable pub wait_for_holds : (World → World × Bool) → ℕ → ℤ → World → Option (World × Bool)
  unfolding wait_until_holds
  wait_for_holds p fuel duration w = wait_until_holds p fuel (uptime w +ℤ duration) w

  -- Nobody can wait.
  unfoldable pub notify_one : World → World
  notify_one w = w

  unfoldable pub notify_all : World → World
  notify_all w = w

  unfoldable pub sleep_for : ℤ → World → World
  sleep_for duration w = if leb_ℤ duration (pos 0) then w else delay duration w

  unfoldable pub sleep_until : ℤ → World → World
  unfolding sleep_for
  sleep_until when w = sleep_for (when -ℤ uptime w) w

  -- sleep_until() and sleep_for() come back at their time or later, whether it has passed before or not,
  -- and leave everything but the clock alone.
  pub sleep_lem :
      (when duration : ℤ) (w : World)
      → (when ≤ℤ uptime (sleep_until when w))
        × (rest (sleep_until when w) ≡ rest w)
        × (uptime w +ℤ duration ≤ℤ uptime (sleep_for duration w))
        × (rest (sleep_for duration w) ≡ rest w)
  unfolding sleep_until sleep_for
  sleep_lem when duration w =
      let left = when -ℤ uptime w in
      (
        ground (arith, -ℤ_parts when (uptime w), +ℤ_parts (uptime w) left, uptime-delay left w),
        ground (arith, rest-delay left w),
        ground (arith, +ℤ_parts (uptime w) duration, uptime-delay duration w),
        ground (arith, rest-delay duration w),
      )

  -- A predicate that reads the rest of the program and changes nothing.
  abbrev pub observes : (Rest → Bool) → World → World × Bool
  observes p w = (w, p (rest w))

  -- A predicate of the rest of the program, which nobody else can change: a wait for it goes round
  -- once. It returns true at once if the predicate holds, and otherwise false, at the
  -- deadline or later, with nothing changed but the clock.
  pub wait_until_holds_lem :
      (p : Rest → Bool) (fuel : ℕ) (when : ℤ) (w : World)
      → ((p (rest w) ≡ true) × (wait_until_holds (observes p) (suc fuel) when w ≡ some (w, true)))
        ⊎ ((p (rest w) ≡ false)
            × (v : World) × (wait_until_holds (observes p) (suc fuel) when w ≡ some (v, false))
            × (when ≤ℤ uptime v)
            × (rest v ≡ rest w))
  unfolding wait_until_holds wait_until PredicateWait.wait_until
  wait_until_holds_lem p fuel when w =
      let left = when -ℤ uptime w in
      elim (Bool-cases (p (rest w))) [
        | inl e ↦ inl (e, ground arith)
        | inr e ↦ inr (
          e,
          delay left w,
          ground (arith, rest-delay left w),
          ground (arith, -ℤ_parts when (uptime w), +ℤ_parts (uptime w) left, uptime-delay left w),
          rest-delay left w,
        )
      ]
