-- ===== src/Lock/Interface.antt =====
-- What `unique_lock<Mutex>` and `lock_guard<Mutex>` use of their template parameter, and what C++
-- documents of a mutex, as one thread sees it.
use roo_threads.Base.{ℕ, ◌≡◌, Bool, true, false, Option, some, ◌||◌, ◌==◌, if◌then◌else◌}
use roo_threads.Base.Int.{ℤ}

-- A mutex is named by its address. `held` says that the mutex is locked. `lock` gives nothing if
-- it never returns, as on a mutex that is held and that nobody releases.
pub record Lockable : Type 1 where
  pub World : Type 0
  pub held : World → ℕ → Bool
  pub lock : ℕ → World → Option World
  pub try_lock : ℕ → World → World × Bool
  pub try_lock_until : ℕ → ℤ → World → World × Bool
  pub try_lock_for : ℕ → ℤ → World → World × Bool
  pub unlock : ℕ → World → World
  pub held-lock :
      (m x : ℕ) (w v : World) → lock m w ≡ some v → held v x ≡ (if m == x then true else held w x)
  pub lock_free : (m : ℕ) (w v : World) → lock m w ≡ some v → held w m ≡ false
  pub held-try_lock :
      (m x : ℕ) (w : World)
      → held (try_lock m w).0 x ≡ (if m == x then (try_lock m w).1 || held w x else held w x)
  pub try_lock_free : (m : ℕ) (w : World) → (try_lock m w).1 ≡ true → held w m ≡ false
  pub held-try_lock_until :
      (m x : ℕ) (when : ℤ) (w : World)
      → held (try_lock_until m when w).0 x
        ≡ (if m == x then (try_lock_until m when w).1 || held w x else held w x)
  pub try_lock_until_free :
      (m : ℕ) (when : ℤ) (w : World) → (try_lock_until m when w).1 ≡ true → held w m ≡ false
  pub held-try_lock_for :
      (m x : ℕ) (duration : ℤ) (w : World)
      → held (try_lock_for m duration w).0 x
        ≡ (if m == x then (try_lock_for m duration w).1 || held w x else held w x)
  pub try_lock_for_free :
      (m : ℕ) (duration : ℤ) (w : World) → (try_lock_for m duration w).1 ≡ true → held w m ≡ false
  pub held-unlock :
      (m x : ℕ) (w : World) → held (unlock m w) x ≡ (if m == x then false else held w x)
