-- ===== src/Mutex/Calls.antt =====
-- The mutex of impl/freertos/mutex.cpp under calls one after the other.
use roo_threads.Base.{ℕ, ◌≡◌, refl, ◌≢◌, true, false, Option, none, some, if◌then◌else◌, arith}
use roo_threads.Kernel.{MutexKernel}
use roo_threads.Mutex.{Mutex, ensure_initialized, lock, try_lock, unlock}

module _ (K : MutexKernel) where
  open K use {Sem, holder, holder-create, take_free, take_busy, holder-take, holder-give}

  -- Who has the mutex: nobody before it is created.
  abbrev pub owner : Mutex K → Option ℕ
  owner m = if m.initialized then holder m.sem else none

  -- Under the scheduler, a call by task `t`: lock() returns exactly if nobody has the mutex, and
  -- try_lock() returns true exactly then; each makes `t` the owner when it does. A try_lock() that
  -- returns false leaves the owner, and unlock() by the owner leaves none.
  pub calls_running :
      (t : ℕ) (m : Mutex K)
      → ((n : Mutex K) → lock K (some t) m ≡ some n → (owner m ≡ none) × (owner n ≡ some t))
        × (lock K (some t) m ≡ none → owner m ≢ none)
        × (((try_lock K (some t) m).1 ≡ true)
            → (owner m ≡ none) × (owner (try_lock K (some t) m).0 ≡ some t))
        × (((try_lock K (some t) m).1 ≡ false)
            → (owner m ≢ none) × (owner (try_lock K (some t) m).0 ≡ owner m))
        × (owner m ≡ some t → owner (unlock K (some t) m) ≡ none)
  unfolding lock try_lock unlock ensure_initialized
  calls_running t m =
      let fresh = K.create m.sem in
      (
        (λ n h. ground (
          arith,
          holder-create m.sem,
          take_free t m.sem,
          holder-take t m.sem,
          take_free t fresh,
          holder-take t fresh,
        )),
        (λ h. ground (arith, holder-create m.sem, take_busy t m.sem, take_busy t fresh)),
        (λ h. ground (
          arith,
          holder-create m.sem,
          take_free t m.sem,
          holder-take t m.sem,
          take_free t fresh,
          holder-take t fresh,
        )),
        (λ h. ground (
          arith,
          holder-create m.sem,
          take_busy t m.sem,
          holder-take t m.sem,
          take_busy t fresh,
          holder-take t fresh,
        )),
        λ h. ground (arith, holder-give t m.sem),
      )

  -- Before the scheduler runs every member returns, try_lock() with true, and the owner stays as it
  -- is: two calls of lock() in a row both return.
  pub calls_before_scheduler :
      (m : Mutex K)
      → (n : Mutex K) × (lock K none m ≡ some n)
        × (owner n ≡ owner m)
        × (lock K none n ≡ some n)
        × ((try_lock K none m).1 ≡ true)
        × (owner (try_lock K none m).0 ≡ owner m)
        × (owner (unlock K none m) ≡ owner m)
  unfolding lock try_lock unlock ensure_initialized
  calls_before_scheduler m = (
    ensure_initialized K m,
    refl,
    ground (arith, holder-create m.sem),
    ground arith,
    refl,
    ground (arith, holder-create m.sem),
    ground (arith, holder-create m.sem),
  )
