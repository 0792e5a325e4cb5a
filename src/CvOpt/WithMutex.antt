-- ===== src/CvOpt/WithMutex.antt =====
-- Threads that use one condition variable of condition_variable_opt.cpp together with one mutex of
-- impl/freertos/mutex.cpp, with both in detail: each access of a member of the mutex is a step, as in
-- Mutex/System, also in the call of `lock.unlock()` inside the critical section of a wait, and in the
-- `lock.lock()` after it. Memory is sequentially consistent.
pub mod Fitting
pub mod Refinement
pub mod Simulation
mod Tests
use roo_threads.Base.{ℕ, ◌≡◌, ◌⊎◌, Bool, true, false, Option, none, some, if◌then◌else◌}
use roo_threads.Base.Family.{update}
use roo_threads.Kernel.{TaskNotify, MutexKernel}
use roo_threads.CvOpt.{Slots, condition_variable_opt, enqueue, dequeue, notify_one, notify_all}
use roo_threads.CvOpt.System.{CvStatus, no_timeout, timeout, notify_task, notify_tasks}
use roo_threads.Mutex.System as MutexSystem
use roo_threads.Mutex.System.{
  Op, lock, idle, owning, call, call_unlock, is_ready, not_ready, enter, too_late, first, creates,
  marks, leaves, acquire, refuse, gives,
}

-- Where a thread stands in the condition variable.
pub data CvPc : Type 0 where
  user : CvPc  -- not in it
  unlocking : (timed queued : Bool) → CvPc  -- in the first critical section, after the loop
  waiting : (timed : Bool) → CvPc  -- in `xTaskNotifyWait`
  woken : (status : CvStatus) → CvPc  -- from `lock.lock()` to the last critical section
  aborted : CvPc  -- `assert(queued)` has failed

module _ (K : TaskNotify) (M : MutexKernel) where
  open K use {State, pending, receive}

  pub record System : Type 0 where
    pub mutex : MutexSystem.System M
    pub slots : Slots
    pub section : Option ℕ  -- who is between condENTER_CRITICAL and condEXIT_CRITICAL
    pub cv : ℕ → CvPc
    pub kernel : State

  -- Which calls of the mutex a thread makes: any outside the condition variable, unlock() in the first
  -- critical section of a wait, and lock() after it has been woken.
  abbrev pub Permits : {m m' : MutexSystem.System M} → (ℕ → CvPc) → MutexSystem.Step M m m' → Type 0
  Permits cv (call j op e ne) =
      (cv j ≡ user) ⊎ (status : CvStatus) × (cv j ≡ woken status) × (op ≡ lock)
  Permits cv (call_unlock j e) =
      (cv j ≡ user) ⊎ (timed queued : Bool) × (cv j ≡ unlocking timed queued)
  Permits cv (is_ready j op e f) = Unit {0}
  Permits cv (not_ready j op e f) = Unit {0}
  Permits cv (enter j op e f) = Unit {0}
  Permits cv (too_late j op e f) = Unit {0}
  Permits cv (first j op e f) = Unit {0}
  Permits cv (creates j op e) = Unit {0}
  Permits cv (marks j op e) = Unit {0}
  Permits cv (leaves j op e) = Unit {0}
  Permits cv (acquire j op e ne f) = Unit {0}
  Permits cv (refuse j e f) = Unit {0}
  Permits cv (gives j e) = Unit {0}

  pub data Step (s : System) : System → Type 0 where
    -- a step in a member of the mutex
    in_mutex :
        {m : MutexSystem.System M} (step : MutexSystem.Step M s.mutex m)
        → Permits s.cv step
        → Step s (record s { mutex = m })
    -- `wait` or `wait_until_impl`, up to `lock.unlock()`
    enqueues :
        (i : ℕ) (timed : Bool)
        → s.cv i ≡ user
        → s.mutex.pc i ≡ owning
        → s.section ≡ none
        → Step s (record s {
          slots = (enqueue i s.slots).0;
          section = some i;
          cv = update s.cv i (unlocking timed (enqueue i s.slots).1);
        })
    -- condEXIT_CRITICAL() and the assertion, once unlock() has returned
    exits :
        (i : ℕ) (timed queued : Bool)
        → s.cv i ≡ unlocking timed queued
        → s.mutex.pc i ≡ idle
        → Step s (record s {
          section = none;
          cv = update s.cv i (if queued then waiting timed else aborted);
        })
    -- `xTaskNotifyWait` returns `pdPASS`
    wakes :
        (i : ℕ) (timed : Bool)
        → s.cv i ≡ waiting timed
        → pending s.kernel i ≡ true
        → Step s (record s { cv = update s.cv i (woken no_timeout); kernel = receive i s.kernel })
    -- `xTaskNotifyWait` times out, and the deadline has passed
    times_out :
        (i : ℕ) → s.cv i ≡ waiting true → Step s (record s { cv = update s.cv i (woken timeout) })
    -- the last critical section, once lock() has returned
    dequeues :
        (i : ℕ) (status : CvStatus)
        → s.cv i ≡ woken status
        → s.mutex.pc i ≡ owning
        → s.section ≡ none
        → Step s (record s { slots = dequeue i s.slots; cv = update s.cv i user })
    -- by any thread, with or without the mutex, and with any task priorities
    signal :
        (priority : ℕ → ℕ)
        → s.section ≡ none
        → Step s (record s {
          slots = (notify_one priority s.slots).0;
          kernel = notify_task K (notify_one priority s.slots).1 s.kernel;
        })
    broadcast :
        s.section ≡ none
        → Step s (record s {
          slots = (notify_all s.slots).0;
          kernel = notify_tasks K (notify_all s.slots).1 s.kernel;
        })

  -- A new mutex and a new condition variable, in memory of any contents.
  pub data IsInit (s : System) : Type 0 where
    new :
        (memory : Slots)
        → s.slots ≡ condition_variable_opt memory
        → s.mutex.initialized ≡ false
        → s.mutex.critical ≡ none
        → s.section ≡ none
        → ((i : ℕ) → (s.mutex.pc i ≡ idle) × (s.cv i ≡ user))
        → IsInit s

  pub data Reach : System → Type 0 where
    start : {s : System} → IsInit s → Reach s
    later : {s t : System} → Reach s → Step s t → Reach t
