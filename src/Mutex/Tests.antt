-- ===== src/Mutex/Tests.antt =====
-- Tests of impl/freertos/mutex.cpp, and its theorems over a small kernel and on concrete schedules.
use roo_threads.Base.{ℕ, ◌≡◌, refl, ◌≢◌, true, false, List, [], ◌∷◌, none, some, arith}
use roo_threads.Base.Family.{update}
use roo_threads.Kernel.Concrete.{holders}
use roo_threads.Mutex.{Mutex}
use roo_threads.Mutex
use roo_threads.Mutex.Calls
use roo_threads.Mutex.Eager
use roo_threads.Mutex.Eager.{returns, tried, results, results_lazy, lazy-eager}
use roo_threads.Mutex.Calls.{calls_running, calls_before_scheduler}
use roo_threads.Mutex.System.{
  Op, lock, idle, owning, check, entering, recheck, creating, marking, leaving, ready, System, Step,
  call, not_ready, enter, first, creates, marks, leaves, acquire, Reach, start, later,
}
use roo_threads.Mutex.System.Invariant.{owns, relies}
use roo_threads.Mutex.System.Exclusion.{
  mutual_exclusion, created_once, owner, OwnerStep, Step-refines, lock_available,
}

abbrev used : Mutex holders
used = record { sem = some 3; initialized = true }

calls_running_example :
    ((n : Mutex holders)
      → Mutex.lock holders (some 4) used ≡ some n
      → (Calls.owner holders used ≡ none) × (Calls.owner holders n ≡ some 4))
    × (Mutex.lock holders (some 4) used ≡ none → Calls.owner holders used ≢ none)
    × (((Mutex.try_lock holders (some 4) used).1 ≡ true)
        → (Calls.owner holders used ≡ none)
          × (Calls.owner holders (Mutex.try_lock holders (some 4) used).0 ≡ some 4))
    × (((Mutex.try_lock holders (some 4) used).1 ≡ false)
        → (Calls.owner holders used ≢ none)
          × (Calls.owner holders (Mutex.try_lock holders (some 4) used).0
              ≡ Calls.owner holders used))
    × (Calls.owner holders used ≡ some 4
        → Calls.owner holders (Mutex.unlock holders (some 4) used) ≡ none)
calls_running_example = calls_running holders 4 used

calls_before_scheduler_example :
    (n : Mutex holders) × (Mutex.lock holders none used ≡ some n)
    × (Calls.owner holders n ≡ some 3)
    × (Mutex.lock holders none n ≡ some n)
    × ((Mutex.try_lock holders none used).1 ≡ true)
    × (Calls.owner holders (Mutex.try_lock holders none used).0 ≡ some 3)
    × (Calls.owner holders (Mutex.unlock holders none used) ≡ some 3)
calls_before_scheduler_example = calls_before_scheduler holders used

-- A mutex in memory that holds anything, and task 1 on its way to create it while task 2 waits.
abbrev new : System holders
new = record { sem = some 8; initialized = false; critical = none; pc = λ _. idle }

abbrev about_to_create : System holders
about_to_create = record {
  sem = some 8;
  initialized = false;
  critical = some 1;
  pc =
      update
        (update
          (update
            (update (update (update (λ _. idle) 1 (check lock)) 2 (check lock)) 2 (entering lock)) 1
            (entering lock))
          1 (recheck lock))
        1 (creating lock);
}

Reach-about_to_create : Reach holders about_to_create
Reach-about_to_create =
    later
      (later
        (later
          (later
            (later (later (start new refl refl (λ i. refl)) (call 1 lock refl (λ e. cc)))
              (call 2 lock refl (λ e. cc)))
            (not_ready 2 lock refl refl))
          (not_ready 1 lock refl refl))
        (enter 1 lock refl refl))
      (first 1 lock refl refl)

created_once_example :
    ((j : ℕ) → relies (about_to_create.pc j) ≡ false)
    × ((j : ℕ) (op' : Op) → about_to_create.pc j ≡ creating op' → ◌≡◌ {A = ℕ} 1 j)
created_once_example = created_once holders 1 lock Reach-about_to_create refl

-- Task 1 has come through the initialization.
abbrev in_lock : System holders
in_lock = record {
  sem = none;
  initialized = true;
  critical = none;
  pc = update (update (update about_to_create.pc 1 (marking lock)) 1 (leaving lock)) 1 (ready lock);
}

Reach-in_lock : Reach holders in_lock
Reach-in_lock =
    later (later (later Reach-about_to_create (creates 1 lock refl)) (marks 1 lock refl))
      (leaves 1 lock refl)

in_lock_free : (j : ℕ) → owns (in_lock.pc j) ≡ false
in_lock_free j = ground arith

lock_available_example : (t : System holders) × Step holders in_lock t × (t.pc 1 ≡ owning)
lock_available_example = lock_available holders 1 Reach-in_lock refl in_lock_free

abbrev owned : System holders
owned = record in_lock { sem = some 1; pc = update in_lock.pc 1 owning }

Reach-owned : Reach holders owned
Reach-owned = later Reach-in_lock (acquire 1 lock refl (λ e. cc) refl)

mutual_exclusion_example : ◌≡◌ {A = ℕ} 1 1
mutual_exclusion_example = mutual_exclusion holders 1 1 Reach-owned refl refl

Step-refines_example :
    OwnerStep holders (owner holders in_lock) (owner holders owned)
    × ((i : ℕ) → owns (in_lock.pc i) ≡ true → owner holders in_lock ≡ some i)
    × ((i : ℕ) → owner holders in_lock ≡ some i → owns (in_lock.pc i) ≡ true)
Step-refines_example = Step-refines holders Reach-in_lock (acquire 1 lock refl (λ e. cc) refl)

-- Task 3 locks the mutex before the scheduler runs and under it, and task 4 tries it before and after it is unlocked.
abbrev calls : List Eager.Call
calls =
    Eager.locks none
    ∷ Eager.locks (some 3)
    ∷ Eager.tries (some 4)
    ∷ Eager.unlocks (some 3)
    ∷ Eager.tries (some 4)
    ∷ []

calls_results :
    results holders calls none ≡ returns ∷ returns ∷ tried false ∷ returns ∷ tried true ∷ []
unfolding results Eager.lock Eager.try_lock Eager.unlock
calls_results = refl

lazy-eager_example :
    results_lazy holders calls (Mutex.mutex holders (some 8))
    ≡ results holders calls (Eager.mutex holders (some 8))
lazy-eager_example = lazy-eager holders calls (some 8)
