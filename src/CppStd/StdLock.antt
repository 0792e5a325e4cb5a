-- ===== src/CppStd/StdLock.antt =====
-- std::unique_lock as C++ documents it, which impl/cppstd/mutex.h forwards to: its members on a value, with
-- the calls that they make of the mutex. A member that throws std::system_error fails.
use roo_threads.Base.{ℕ, Bool, true, false, none, some, if◌then◌else◌}
use roo_threads.Lock.Interface.{Lockable}
use roo_threads.Lock.UniqueLock.{UniqueLock, Result, ok, blocked, failed}

-- `empty` is the default value.
abbrev pub empty : UniqueLock
empty = record { lock = none; owns = false }

abbrev pub deferred : ℕ → UniqueLock
deferred m = record { lock = some m; owns = false }

abbrev pub adopted : ℕ → UniqueLock
adopted m = record { lock = some m; owns = true }

module _ (L : Lockable) where
  open L use {World}

  -- lock() throws where there is no mutex, and where it is owned already.
  unfoldable pub lock : UniqueLock → World → Result (UniqueLock × World)
  lock u w = elim u.lock [
    | none ↦ failed
    | some m ↦
        if u.owns then failed else elim (L.lock m w) [ none ↦ blocked | some v ↦ ok (adopted m, v) ]
  ]

  -- try_lock() and try_lock_for() throw in the same cases; the result is whether the mutex is owned.
  unfoldable pub try_with :
      (ℕ → World → World × Bool) → UniqueLock → World → Result (UniqueLock × World)
  try_with f u w = elim u.lock [
    | none ↦ failed
    | some m ↦
        if u.owns then failed else let r = f m w in ok (record { lock = some m; owns = r.1 }, r.0)
  ]

  -- unlock() throws where nothing is owned.
  unfoldable pub unlock : UniqueLock → World → Result (UniqueLock × World)
  unlock u w = elim u.lock [
    | none ↦ failed
    | some m ↦ if u.owns then ok (deferred m, L.unlock m w) else failed
  ]

  -- The destructor, and the first part of the move assignment, unlock what is owned.
  unfoldable pub reset : UniqueLock → World → Result (UniqueLock × World)
  unfolding unlock
  reset u w = if u.owns then unlock u w else ok (u, w)
