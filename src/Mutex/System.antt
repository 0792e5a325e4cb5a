-- ===== src/Mutex/System.antt =====
-- Tasks that use one mutex of impl/freertos/mutex.cpp, interleaved in any order, the scheduler being
-- active. Each access to `initialized_` or to the semaphore is a step of its own, also inside the
-- critical section, which keeps other tasks out of the critical section alone. Memory is
-- sequentially consistent.
pub mod Invariant
pub mod Exclusion
use roo_threads.Base.{ℕ, ◌≡◌, ◌≢◌, Bool, true, false, Option, none, some}
use roo_threads.Base.Family.{update}
use roo_threads.Kernel.{MutexKernel}

-- The member that a task is in.
pub data Op : Type 0 where
  lock try_lock unlock : Op

-- Where a task stands.
pub data Pc : Type 0 where
  idle : Pc  -- without the mutex
  owning : Pc  -- after lock(), or after a try_lock() that returned true
  check : (op : Op) → Pc  -- before the first test of `initialized_`
  entering : (op : Op) → Pc  -- before mutexENTER_CRITICAL()
  recheck : (op : Op) → Pc  -- before the second test
  creating : (op : Op) → Pc  -- before xSemaphoreCreateMutexStatic
  marking : (op : Op) → Pc  -- before `initialized_ = true`
  leaving : (op : Op) → Pc  -- before mutexEXIT_CRITICAL()
  ready : (op : Op) → Pc  -- after ensureInitialized()

module _ (K : MutexKernel) where
  open K use {Sem, create, take, give}

  pub record System : Type 0 where
    pub sem : Sem
    pub initialized : Bool
    pub critical : Option ℕ  -- who is in the critical section
    pub pc : ℕ → Pc

  pub data Step (s : System) : System → Type 0 where
    call :
        (i : ℕ) (op : Op)
        → s.pc i ≡ idle
        → op ≢ unlock
        → Step s (record s { pc = update s.pc i (check op) })
    call_unlock :
        (i : ℕ) → s.pc i ≡ owning → Step s (record s { pc = update s.pc i (check unlock) })
    is_ready :
        (i : ℕ) (op : Op)
        → s.pc i ≡ check op
        → s.initialized ≡ true
        → Step s (record s { pc = update s.pc i (ready op) })
    not_ready :
        (i : ℕ) (op : Op)
        → s.pc i ≡ check op
        → s.initialized ≡ false
        → Step s (record s { pc = update s.pc i (entering op) })
    enter :
        (i : ℕ) (op : Op)
        → s.pc i ≡ entering op
        → s.critical ≡ none
        → Step s (record s { critical = some i; pc = update s.pc i (recheck op) })
    too_late :
        (i : ℕ) (op : Op)
        → s.pc i ≡ recheck op
        → s.initialized ≡ true
        → Step s (record s { pc = update s.pc i (leaving op) })
    first :
        (i : ℕ) (op : Op)
        → s.pc i ≡ recheck op
        → s.initialized ≡ false
        → Step s (record s { pc = update s.pc i (creating op) })
    creates :
        (i : ℕ) (op : Op)
        → s.pc i ≡ creating op
        → Step s (record s { sem = create s.sem; pc = update s.pc i (marking op) })
    marks :
        (i : ℕ) (op : Op)
        → s.pc i ≡ marking op
        → Step s (record s { initialized = true; pc = update s.pc i (leaving op) })
    leaves :
        (i : ℕ) (op : Op)
        → s.pc i ≡ leaving op
        → Step s (record s { critical = none; pc = update s.pc i (ready op) })
    -- xSemaphoreTake succeeds, in lock() or try_lock()
    acquire :
        (i : ℕ) (op : Op)
        → s.pc i ≡ ready op
        → op ≢ unlock
        → (take i s.sem).1 ≡ true
        → Step s (record s { sem = (take i s.sem).0; pc = update s.pc i owning })
    -- try_lock() returns false
    refuse :
        (i : ℕ)
        → s.pc i ≡ ready try_lock
        → (take i s.sem).1 ≡ false
        → Step s (record s { sem = (take i s.sem).0; pc = update s.pc i idle })
    gives :
        (i : ℕ)
        → s.pc i ≡ ready unlock
        → Step s (record s { sem = give i s.sem; pc = update s.pc i idle })

  pub data Reach : System → Type 0 where
    start :
        (s : System)
        → s.initialized ≡ false
        → s.critical ≡ none
        → ((i : ℕ) → s.pc i ≡ idle)
        → Reach s
    later : {s t : System} → Reach s → Step s t → Reach t
