-- ===== src/CvOpt/WithMutex/Tests.antt =====
-- A run of threads around a condition variable and its mutex, both in detail, and the theorems in its states.
use roo_threads.Base.{ℕ, ◌≡◌, ◌≢◌, refl, ◌⊎◌, inl, inr, true, false, [], ◌∷◌, none, some}
use roo_threads.Kernel.Concrete.{flags, holders}
use roo_threads.CvOpt.{condition_variable_opt, enqueue}
use roo_threads.CvOpt.Choice.{Holds}
use roo_threads.CvOpt.System as Abstract
use roo_threads.Mutex.System.{
  lock, unlock, idle, call, call_unlock, is_ready, not_ready, enter, first, creates, marks, leaves,
  acquire, gives,
}
use roo_threads.Mutex.System.Invariant.{owns}
use roo_threads.CvOpt.WithMutex.{
  user, System, Step, in_mutex, enqueues, exits, new, Reach, start, later,
}
use roo_threads.CvOpt.WithMutex.Refinement.{abstract, gives_up}
use roo_threads.CvOpt.WithMutex.Simulation.{Reach-refines, sleeper_found}

abbrev init : System flags holders
init = record {
  mutex = record { sem = some 8; initialized = false; critical = none; pc = λ _. idle };
  slots = none ∷ none ∷ [];
  section = none;
  cv = λ _. user;
  kernel = λ _. false;
}

lock-ne-unlock : lock ≢ unlock
lock-ne-unlock e = cc

-- Thread 4 creates the mutex in its first lock(), and has come into the first critical section of a wait.
abbrev queued : (s : System flags holders) × Reach flags holders s
unfolding condition_variable_opt enqueue
queued = (
  _,
  later
      (later
        (later
          (later
            (later
              (later
                (later
                  (later
                    (later
                      (start {s = init}
                        (new (some 3 ∷ none ∷ []) refl refl refl refl (λ i. (refl, refl))))
                      (in_mutex (call 4 lock refl lock-ne-unlock) (inl refl)))
                    (in_mutex (not_ready 4 lock refl refl) tt))
                  (in_mutex (enter 4 lock refl refl) tt))
                (in_mutex (first 4 lock refl refl) tt))
              (in_mutex (creates 4 lock refl) tt))
            (in_mutex (marks 4 lock refl) tt))
          (in_mutex (leaves 4 lock refl) tt))
        (in_mutex (acquire 4 lock refl lock-ne-unlock refl) tt))
      (enqueues 4 false refl refl refl),
)

-- It calls unlock() there.
abbrev calling : (t : System flags holders) × Step flags holders queued.0 t
unfolding condition_variable_opt enqueue
calling = (_, in_mutex (call_unlock 4 refl) (inr (false, true, refl)))

-- It has come back from unlock(), and sleeps.
abbrev asleep : (s : System flags holders) × Reach flags holders s
unfolding condition_variable_opt enqueue
asleep = (
  _,
  later
      (later (later (later queued.1 calling.1) (in_mutex (is_ready 4 unlock refl refl) tt))
        (in_mutex (gives 4 refl) tt))
      (exits 4 false true refl refl),
)

Reach-refines_example :
    Abstract.Reach flags (abstract flags holders queued.0)
    × (Abstract.Step flags (abstract flags holders queued.0) (abstract flags holders calling.0)
        ⊎ (abstract flags holders calling.0 ≡ abstract flags holders queued.0))
    × ((i : ℕ)
        → owns (queued.0.mutex.pc i) ≡ true
        → gives_up (queued.0.cv i) ≡ false
        → (abstract flags holders queued.0).owner ≡ some i)
Reach-refines_example = Reach-refines flags holders queued.1 calling.1

sleeper_found_example : ((k : ℕ) × Holds asleep.0.slots k 4) ⊎ (asleep.0.kernel 4 ≡ true)
unfolding condition_variable_opt enqueue
sleeper_found_example = sleeper_found flags holders 4 false asleep.1 refl
