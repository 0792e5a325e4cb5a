-- ===== src/Lock/UniqueLock/Agreement.antt =====
-- The unique_lock of impl/cppstd/mutex.h and that of impl/freertos/mutex.h, call by call.
use roo_threads.Base.{ℕ, ◌≡◌, Bool, true, false, ◌==◌, arith, not}
use roo_threads.Base.Int.{ℤ, ◌-ℤ◌}
use roo_threads.Lock.Interface.{Lockable}
use roo_threads.Lock.UniqueLock.{State, Result, ok, blocked, failed}
use roo_threads.Lock.UniqueLock.Raii
use roo_threads.Lock.UniqueLock.Raii.{
  Call, locks, unlocks, tries, destroys, constructs, releases, tries_until, tries_for,
  constructs_locked, constructs_deferred, constructs_adopting, constructs_trying, constructs_until,
  constructs_for, constructs_moved, assigns_moved, swaps,
}
use roo_threads.Lock.UniqueLock
use roo_threads.Lock.UniqueLock.Ownership.{Inv}
use roo_threads.CppStd.StdLock
use roo_threads.CppStd.Mutex

module _ (L : Lockable) (uptime : L.World → ℤ) where
  open L use {World, held}

  -- The mutexes with a try_lock_until that tries for the time that is left.
  abbrev pub timed : Lockable
  timed = record {
    World = L.World;
    held = L.held;
    lock = L.lock;
    try_lock = L.try_lock;
    try_lock_until = λ m tp w. L.try_lock_for m (tp -ℤ uptime w) w;
    try_lock_for = L.try_lock_for;
    unlock = L.unlock;
    held-lock = L.held-lock;
    lock_free = L.lock_free;
    held-try_lock = L.held-try_lock;
    try_lock_free = L.try_lock_free;
    held-try_lock_until = λ m x tp w. L.held-try_lock_for m x (tp -ℤ uptime w) w;
    try_lock_until_free = λ m tp w. L.try_lock_for_free m (tp -ℤ uptime w) w;
    held-try_lock_for = L.held-try_lock_for;
    try_lock_for_free = L.try_lock_for_free;
    held-unlock = L.held-unlock;
  }

  unfoldable pub perform : Call → State timed → Result (State timed)
  perform (locks l) s = Raii.after timed (Mutex.lock timed uptime l s)
  perform (unlocks l) s = Raii.after timed (Mutex.unlock timed uptime l s)
  perform (tries l) s = Raii.after timed (Mutex.try_lock timed uptime l s)
  perform (tries_until l time) s = Raii.after timed (Mutex.try_lock_until timed uptime l time s)
  perform (tries_for l time) s = Raii.after timed (Mutex.try_lock_for timed uptime l time s)
  perform (destroys l) s = Raii.after timed (Mutex.destroy timed uptime l s)
  perform (constructs l) s = Raii.after timed (Mutex.construct timed uptime l s)
  perform (constructs_locked l m) s = Raii.after timed (Mutex.construct_locked timed uptime l m s)
  perform (constructs_deferred l m) s =
      Raii.after timed (Mutex.construct_deferred timed uptime l m s)
  perform (constructs_adopting l m) s =
      Raii.after timed (Mutex.construct_adopting timed uptime l m s)
  perform (constructs_trying l m) s = Raii.after timed (Mutex.construct_trying timed uptime l m s)
  perform (constructs_until l m time) s = failed
  perform (constructs_for l m time) s =
      Raii.after timed (Mutex.construct_for timed uptime l m time s)
  perform (constructs_moved l other) s =
      Raii.after timed (Mutex.move_construct timed uptime l other s)
  perform (assigns_moved l other) s = Raii.after timed (Mutex.move_assign timed uptime l other s)
  perform (swaps l other) s = Raii.after timed (Mutex.swap timed uptime l other s)
  perform (releases l) s = Raii.after timed (Mutex.release timed uptime l s)

  -- The call compiles for the unique_lock of impl/cppstd/mutex.h.
  abbrev pub compiles : Call → Bool
  compiles (constructs_until l m time) = false
  compiles _ = true

  -- A constructor does not move from its own object, and no object is assigned to itself.
  abbrev pub is_apart : Call → Bool
  is_apart (constructs_moved l other) = not (l == other)
  is_apart (assigns_moved l other) = not (l == other)
  is_apart _ = true

  -- Where the lock objects are sound, and a move is between two of them, a call that compiles of a member of the unique_lock over
  -- that of the C++ library ends as the same call of the other backend's does, if the mutex's try_lock_until
  -- tries for the time that is left: it returns with the same lock objects and mutexes, it blocks, or
  -- it fails, by an exception or an assertion.
  pub perform-perform :
      (c : Call) (s : State timed)
      → Inv timed s
      → compiles c ≡ true
      → is_apart c ≡ true
      → perform c s ≡ Raii.perform timed c s
  unfolding perform Raii.perform StdLock.lock StdLock.try_with StdLock.unlock StdLock.reset
      Mutex.construct Mutex.construct_locked Mutex.construct_deferred Mutex.construct_trying
      Mutex.construct_adopting Mutex.construct_for Mutex.move_construct Mutex.move_assign
      Mutex.destroy Mutex.lock Mutex.try_lock Mutex.try_lock_for Mutex.try_lock_until Mutex.unlock
      Mutex.swap Mutex.release UniqueLock.lock UniqueLock.unlock UniqueLock.try_lock
      UniqueLock.try_lock_until UniqueLock.try_lock_for UniqueLock.destroy UniqueLock.construct
      UniqueLock.release UniqueLock.construct_locked UniqueLock.construct_deferred
      UniqueLock.construct_adopting UniqueLock.construct_trying UniqueLock.construct_until
      UniqueLock.construct_for UniqueLock.move_construct UniqueLock.move_assign UniqueLock.swap
  perform-perform (locks l) s inv k a = ground arith
  perform-perform (unlocks l) s inv k a = ground (arith, inv.linked l)
  perform-perform (tries l) s inv k a = ground arith
  perform-perform (destroys l) s inv k a = ground (arith, inv.linked l)
  perform-perform (constructs l) s inv k a = ground arith
  perform-perform (releases l) s inv k a = ground arith
  perform-perform (constructs_locked l m) s inv k a = ground arith
  perform-perform (constructs_deferred l m) s inv k a = ground arith
  perform-perform (constructs_adopting l m) s inv k a = ground arith
  perform-perform (constructs_trying l m) s inv k a = ground arith
  perform-perform (constructs_moved l other) s inv k a = ground arith
  perform-perform (assigns_moved l other) s inv k a = ground (arith, inv.linked l)
  perform-perform (swaps l other) s inv k a = ground arith
  perform-perform (tries_until l time) s inv k a = ground arith
  perform-perform (tries_for l time) s inv k a = ground arith
  perform-perform (constructs_until l m time) s inv k a = ground arith
  perform-perform (constructs_for l m time) s inv k a = ground arith

  -- The members that return a value return the same in both backends.
  pub same_results :
      (l : ℕ) (time : ℤ) (s : State timed)
      → (Mutex.try_lock timed uptime l s ≡ UniqueLock.try_lock timed l s)
        × (Mutex.try_lock_for timed uptime l time s ≡ UniqueLock.try_lock_for timed l time s)
        × (Mutex.try_lock_until timed uptime l time s ≡ UniqueLock.try_lock_until timed l time s)
        × (Mutex.release timed uptime l s ≡ UniqueLock.release timed l s)
        × (Mutex.owns_lock timed uptime l s ≡ UniqueLock.owns_lock timed l s)
        × (Mutex.mutex timed uptime l s ≡ UniqueLock.mutex timed l s)
  unfolding StdLock.try_with Mutex.try_lock Mutex.try_lock_for Mutex.try_lock_until Mutex.release
      Mutex.owns_lock Mutex.mutex UniqueLock.try_lock UniqueLock.try_lock_until
      UniqueLock.try_lock_for UniqueLock.release UniqueLock.owns_lock UniqueLock.mutex
  same_results l time s =
      (ground arith, ground arith, ground arith, ground arith, ground arith, ground arith)
