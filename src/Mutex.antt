-- ===== src/Mutex.antt =====
-- impl/freertos/mutex.cpp: the mutex, as one task calls it while no other task runs. The flag
-- `initialized_` is there because ROO_THREADS_FREERTOS_LAZY_INITIALIZE is set by default.
pub mod System
pub mod Calls
pub mod Eager
mod Tests
use roo_threads.Base.{ℕ, Bool, true, false, Option, none, some, if◌then◌else◌}
use roo_threads.Kernel.{MutexKernel}

module _ (K : MutexKernel) where
  open K use {Sem, create, take, give}

  pub record Mutex : Type 0 where
    pub sem : Sem
    pub initialized : Bool

  -- The constructor leaves the memory of the semaphore as it is.
  pub mutex : Sem → Mutex
  mutex memory = record { sem = memory; initialized = false }

  -- Outside the critical section the test is made a second time.
  pub ensure_initialized : Mutex → Mutex
  ensure_initialized m =
      if m.initialized
      then m
      else if m.initialized
      then m
      else record { sem = create m.sem; initialized = true }

  -- Nothing, if the call never returns: the semaphore is taken. The first argument is
  -- `xTaskGetCurrentTaskHandle()`, which is null before the scheduler runs.
  pub lock : Option ℕ → Mutex → Option Mutex
  lock none m = some (ensure_initialized m)
  lock (some t) m =
      let n = ensure_initialized m in
      if (take t n.sem).1 then some (record n { sem = (take t n.sem).0 }) else none

  pub try_lock : Option ℕ → Mutex → Mutex × Bool
  try_lock none m = (ensure_initialized m, true)
  try_lock (some t) m =
      let n = ensure_initialized m in (record n { sem = (take t n.sem).0 }, (take t n.sem).1)

  pub unlock : Option ℕ → Mutex → Mutex
  unlock none m = ensure_initialized m
  unlock (some t) m = let n = ensure_initialized m in record n { sem = give t n.sem }
