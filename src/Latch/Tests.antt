-- ===== src/Latch/Tests.antt =====
-- Tests of the latch, and its theorems on a concrete schedule.
use roo_threads.Base.{ℕ, ◌≡◌, refl, ◌≢◌, ◌⊎◌, true, false, [], ◌∷◌, none, some}
use roo_threads.Base.Runs.{Run}
use roo_threads.Base.Int.{pos, ◌-ℤ◌}
use roo_threads.Base.Family.{update}
use roo_threads.Kernel.Concrete.{flags}
use roo_threads.CvOpt.{condition_variable_opt, enqueue, notify_all}
use roo_threads.CvOpt.System
use roo_threads.CvOpt.System.{
  holding, waiting, System, lock_mutex, unlock_mutex, start_wait, new, notify_tasks,
}
use roo_threads.Latch.Composed
use roo_threads.Latch.Composed.{Composed, moves, Runs, zero_wakes}
use roo_threads.Latch.{
  outside, sleeping, woken, released, Latch, count_down, check, counts_down, waits, checks, Reach,
  constructed, later,
}
use roo_threads.Latch.Release.{zero_releases, released_at_zero}

abbrev fresh : Latch
fresh = record { count = pos 2; pc = λ _. outside }

-- Thread 3 waits, and another thread counts down by two.
abbrev opened : Latch
opened = count_down (pos 2) (check 3 fresh)

opened_has_woken :
    (opened.count ≡ pos 0) × (opened.pc 3 ≡ woken) × ((check 3 opened).pc 3 ≡ released)
unfolding count_down check ◌-ℤ◌
opened_has_woken = (refl, refl, refl)

Reach-opened : Reach (pos 2) opened
Reach-opened = later (later constructed (waits 3 refl)) (counts_down (pos 2))

zero_releases_example : opened.pc 3 ≢ sleeping
zero_releases_example = zero_releases 3 Reach-opened opened_has_woken.0

released_at_zero_example : (opened.pc 3 ≡ released) ⊎ (opened.count ≡ pos 0)
released_at_zero_example = released_at_zero 3 (checks 3 opened_has_woken.1) opened_has_woken.2

-- Thread 4 falls asleep at a counter of 2, and thread 5 takes the mutex.
abbrev threads_5 : System flags
threads_5 = record {
  slots = some 4 ∷ none ∷ [];
  owner = some 5;
  pc = update (update (update (λ _. System.outside) 4 holding) 4 (waiting false)) 5 holding;
  kernel = λ _. false;
}

abbrev at_two : Composed flags
at_two = record { count = pos 2; threads = threads_5 }

-- Thread 5 counts down by 2 and unlocks the mutex.
abbrev at_zero : Composed flags
at_zero = record {
  count = pos 0;
  threads = record {
    slots = none ∷ none ∷ [];
    owner = none;
    pc = update threads_5.pc 5 System.outside;
    kernel = update threads_5.kernel 4 true;
  };
}

Runs-at_two : Runs flags (pos 2) at_two
unfolding condition_variable_opt enqueue
Runs-at_two =
    Composed.later
      (Composed.later
        (Composed.later
          (Composed.constructed
            (record threads_5 { slots = none ∷ none ∷ []; owner = none; pc = λ _. System.outside })
            (new (some 3 ∷ none ∷ []) refl refl (λ i. refl)))
          (moves (lock_mutex 4 refl refl) refl))
        (Composed.waits (start_wait 4 false refl refl) refl))
      (moves (lock_mutex 5 refl refl) refl)

Runs-at_zero : Runs flags (pos 2) at_zero
unfolding Composed.count_down notify_all ◌-ℤ◌ notify_tasks
Runs-at_zero =
    Composed.later (Composed.later Runs-at_two (Composed.counts_down 5 (pos 2) refl))
      (moves (unlock_mutex 5 refl) refl)

zero_wakes_example :
    (at_zero.threads.kernel 4 ≡ true)
    × (at_zero.threads.owner ≡ none
        → (t : Composed flags) × Run (Composed.Own flags 4) at_zero t
          × (t.count ≡ pos 0)
          × (t.threads.pc 4 ≡ holding)
          × (t.threads.owner ≡ some 4)
          × ((k : ℕ) → k ≢ 4 → t.threads.pc k ≡ at_zero.threads.pc k))
zero_wakes_example = zero_wakes flags 4 false Runs-at_zero refl refl
