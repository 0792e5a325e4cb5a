-- ===== src/PredicateWait.antt =====
-- The waits with a predicate: the loops that the condition variables of all backends write out, over the
-- wait without one. `World` is the state of the program, the mutex and the clock included.
pub mod Ends
mod Tests
use roo_threads.Base.{ℕ, zero, suc, Bool, true, false, Option, none, some, if◌then◌else◌}

-- impl/freertos/cv_status.h, and the same type in the other backends
pub data CvStatus : Type 0 where
  no_timeout : CvStatus
  timeout : CvStatus

abbrev pub is_timeout : CvStatus → Bool
is_timeout no_timeout = false
is_timeout timeout = true

module _ {World : Type 0} (pred : World → World × Bool) where
  -- `while (!pred()) wait(lock);`, at most `fuel` times round: `some none` where a wait is never woken
  unfoldable pub wait : (World → Option World) → ℕ → World → Option (Option World)
  wait wait_once zero w = none
  wait wait_once (suc fuel) w =
      if (pred w).1
      then some (some (pred w).0)
      else elim (wait_once (pred w).0) [ none ↦ some none | some v ↦ wait wait_once fuel v ]

  -- `while (!p()) if (wait_until(lock, when) == cv_status::timeout) return p(); return true;`, at
  -- most `fuel` times round
  unfoldable pub wait_until : (World → World × CvStatus) → ℕ → World → Option (World × Bool)
  wait_until wait_once zero w = none
  wait_until wait_once (suc fuel) w =
      let woken = wait_once (pred w).0 in
      let again = wait_until wait_once fuel woken.0 in
      if (pred w).1
      then some ((pred w).0, true)
      else if is_timeout woken.1
      then some (pred woken.0)
      else again
