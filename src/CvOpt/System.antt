-- ===== src/CvOpt/System.antt =====
-- Threads that use one condition variable of condition_variable_opt.cpp and the mutex that guards
-- it, interleaved in any order. Each critical section is one step, since nothing else can run
-- between condENTER_CRITICAL and condEXIT_CRITICAL. The mutex is its owner.
pub mod Invariant
pub mod Wakeup
pub mod Monitor
pub mod Progress
pub mod Capacity
use roo_threads.Base.{ℕ, ◌≡◌, Bool, true, false, List, [], ◌∷◌, Option, none, some}
use roo_threads.Base.Family.{update}
use roo_threads.Kernel.{TaskNotify}
use roo_threads.CvOpt.{Slots, condition_variable_opt, enqueue, dequeue, notify_one, notify_all}

-- cv_status
pub data CvStatus : Type 0 where
  no_timeout timeout : CvStatus

-- Where a thread stands. An untimed `wait` comes back with `no_timeout`.
pub data Pc : Type 0 where
  outside : Pc  -- not in the condition variable, and without the mutex
  holding : Pc  -- not in the condition variable, and with the mutex
  waiting : (timed : Bool) → Pc  -- in `xTaskNotifyWait`
  woken : (status : CvStatus) → Pc  -- before `lock.lock()`
  relocked : (status : CvStatus) → Pc  -- before the last critical section
  aborted : Pc  -- `assert(queued)` has failed

module _ (K : TaskNotify) where
  open K use {State, pending, notify, receive}

  pub record System : Type 0 where
    pub slots : Slots
    pub owner : Option ℕ
    pub pc : ℕ → Pc
    pub kernel : State

  -- The calls of `xTaskNotify` that `notify_one` and `notify_all` make.
  pub notify_task : Option ℕ → State → State
  notify_task none k = k
  notify_task (some t) k = notify t k

  unfoldable pub notify_tasks : List ℕ → State → State
  notify_tasks [] k = k
  notify_tasks (t ∷ ts) k = notify_tasks ts (notify t k)

  pub data Step (s : System) : System → Type 0 where
    -- lock() and unlock() of the mutex by its users
    lock_mutex :
        (i : ℕ)
        → s.pc i ≡ outside
        → s.owner ≡ none
        → Step s (record s { owner = some i; pc = update s.pc i holding })
    unlock_mutex :
        (i : ℕ) → s.pc i ≡ holding → Step s (record s { owner = none; pc = update s.pc i outside })
    -- `wait` or `wait_until_impl`, up to the end of the first critical section
    start_wait :
        (i : ℕ) (timed : Bool)
        → s.pc i ≡ holding
        → (enqueue i s.slots).1 ≡ true
        → Step s (record s {
          slots = (enqueue i s.slots).0;
          owner = none;
          pc = update s.pc i (waiting timed);
        })
    -- the same with no free slot, up to the assertion
    overflow :
        (i : ℕ)
        → s.pc i ≡ holding
        → (enqueue i s.slots).1 ≡ false
        → Step s
            (record s { slots = (enqueue i s.slots).0; owner = none; pc = update s.pc i aborted })
    -- `wait_until_impl` with a deadline that has passed
    expired_at_once : (i : ℕ) → s.pc i ≡ holding → Step s s
    -- `xTaskNotifyWait` returns `pdPASS`
    wake :
        (i : ℕ) (timed : Bool)
        → s.pc i ≡ waiting timed
        → pending s.kernel i ≡ true
        → Step s (record s { pc = update s.pc i (woken no_timeout); kernel = receive i s.kernel })
    -- `xTaskNotifyWait` times out, and the deadline has passed
    time_out :
        (i : ℕ) → s.pc i ≡ waiting true → Step s (record s { pc = update s.pc i (woken timeout) })
    relock :
        (i : ℕ) (status : CvStatus)
        → s.pc i ≡ woken status
        → s.owner ≡ none
        → Step s (record s { owner = some i; pc = update s.pc i (relocked status) })
    -- the last critical section, and the return
    finish_wait :
        (i : ℕ) (status : CvStatus)
        → s.pc i ≡ relocked status
        → Step s (record s { slots = dequeue i s.slots; pc = update s.pc i holding })
    -- by any thread, with or without the mutex, and with any task priorities
    signal :
        (priority : ℕ → ℕ)
        → Step s (record s {
          slots = (notify_one priority s.slots).0;
          kernel = notify_task (notify_one priority s.slots).1 s.kernel;
        })
    broadcast : Step s (record s {
      slots = (notify_all s.slots).0;
      kernel = notify_tasks (notify_all s.slots).1 s.kernel;
    })

  -- The thread that takes a step: nobody known for a notification, which any thread may send.
  abbrev pub mover : {s t : System} → Step s t → Option ℕ
  mover (lock_mutex i e o) = some i
  mover (unlock_mutex i e) = some i
  mover (start_wait i timed e q) = some i
  mover (overflow i e q) = some i
  mover (expired_at_once i e) = some i
  mover (wake i timed e p) = some i
  mover (time_out i e) = some i
  mover (relock i status e o) = some i
  mover (finish_wait i status e) = some i
  mover (signal priority) = none
  mover broadcast = none

  -- A step that a thread takes itself of which `among` holds.
  abbrev pub Own : (ℕ → Bool) → System → System → Type 0
  Own among s t = (step : Step s t) × (i : ℕ) × (mover step ≡ some i) × (among i ≡ true)

  -- A new condition variable in memory of any contents, and any state of the notifications.
  pub data IsInit (s : System) : Type 0 where
    new :
        (memory : Slots)
        → s.slots ≡ condition_variable_opt memory
        → s.owner ≡ none
        → ((i : ℕ) → s.pc i ≡ outside)
        → IsInit s

  pub data Reach : System → Type 0 where
    start : {s : System} → IsInit s → Reach s
    later : {s t : System} → Reach s → Step s t → Reach t
