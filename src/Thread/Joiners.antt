-- ===== src/Thread/Joiners.antt =====
-- thread::join of impl/freertos/thread.cpp, called on one object by any number of threads, the thread's own task
-- among them. The thread has been started and is joinable.
pub mod Phases
pub mod Exclusion
pub mod Deletion
pub mod Race
use roo_threads.Base.{ℕ, ◌≡◌, ◌≢◌, Bool, true, false, Option, none, some}
use roo_threads.Base.Family.{update}
use roo_threads.Thread.{give}

-- A call of join(), by what it does next.
pub data Pc : Type 0 where
  idle : Pc  -- before the call
  takes_mutex : Pc  -- `state_` has been read, and is not null
  checks_self : Pc  -- `this_thread::get_id() == state->task`
  takes_barrier : Pc
  gives_back : Pc
  deletes_barrier : Pc
  clears_state : Pc  -- `state_ = 0`
  gives_mutex : Pc
  deletes_mutex : Pc
  deletes_task : Pc
  deletes_state : Pc
  joined : Pc
  aborted : Pc  -- an assertion has failed
  faulted : Pc  -- a semaphore or a state has been used that is deleted

-- `task` is the number of the thread that is joined; a semaphore is `none` where it has been deleted, and the
-- join mutex otherwise says if it is held.
pub record System : Type 0 where
  pub task : ℕ
  pub done : Bool  -- the task has given the barrier
  pub state_set : Bool
  pub exists : Bool
  pub barrier : Option ℕ
  pub mutex : Option Bool
  pub pc : ℕ → Pc

pub data Step (s : System) : System → Type 0 where
  -- `xSemaphoreGive(&p->join_barrier)` in run_thread()
  finishes : s.done ≡ false → Step s (record s { done = true; barrier = give s.barrier })
  calls :
      (i : ℕ)
      → s.pc i ≡ idle
      → s.state_set ≡ true
      → Step s (record s { pc = update s.pc i takes_mutex })
  calls_null :
      (i : ℕ)
      → s.pc i ≡ idle
      → s.state_set ≡ false
      → Step s (record s { pc = update s.pc i aborted })
  take_mutex :
      (i : ℕ)
      → s.pc i ≡ takes_mutex
      → s.mutex ≡ some false
      → Step s (record s { mutex = some true; pc = update s.pc i checks_self })
  busy :
      (i : ℕ)
      → s.pc i ≡ takes_mutex
      → s.mutex ≡ some true
      → Step s (record s { pc = update s.pc i aborted })
  mutex_gone :
      (i : ℕ)
      → s.pc i ≡ takes_mutex
      → s.mutex ≡ none
      → Step s (record s { pc = update s.pc i faulted })
  is_self :
      (i : ℕ)
      → s.pc i ≡ checks_self
      → s.exists ≡ true
      → i ≡ s.task
      → Step s (record s { pc = update s.pc i aborted })
  is_other :
      (i : ℕ)
      → s.pc i ≡ checks_self
      → s.exists ≡ true
      → i ≢ s.task
      → Step s (record s { pc = update s.pc i takes_barrier })
  state_gone :
      (i : ℕ)
      → s.pc i ≡ checks_self
      → s.exists ≡ false
      → Step s (record s { pc = update s.pc i faulted })
  take_barrier :
      (i : ℕ)
      → s.pc i ≡ takes_barrier
      → s.barrier ≡ some 1
      → Step s (record s { barrier = some 0; pc = update s.pc i gives_back })
  barrier_gone :
      (i : ℕ)
      → s.pc i ≡ takes_barrier
      → s.barrier ≡ none
      → Step s (record s { pc = update s.pc i faulted })
  give_back :
      (i : ℕ)
      → s.pc i ≡ gives_back
      → Step s (record s { barrier = give s.barrier; pc = update s.pc i deletes_barrier })
  delete_barrier :
      (i : ℕ)
      → s.pc i ≡ deletes_barrier
      → Step s (record s { barrier = none; pc = update s.pc i clears_state })
  clear_state :
      (i : ℕ)
      → s.pc i ≡ clears_state
      → Step s (record s { state_set = false; pc = update s.pc i gives_mutex })
  give_mutex :
      (i : ℕ)
      → s.pc i ≡ gives_mutex
      → Step s (record s { mutex = some false; pc = update s.pc i deletes_mutex })
  delete_mutex :
      (i : ℕ)
      → s.pc i ≡ deletes_mutex
      → Step s (record s { mutex = none; pc = update s.pc i deletes_task })
  delete_task :
      (i : ℕ) → s.pc i ≡ deletes_task → Step s (record s { pc = update s.pc i deletes_state })
  delete_state :
      (i : ℕ)
      → s.pc i ≡ deletes_state
      → Step s (record s { exists = false; pc = update s.pc i joined })

-- After start(), before any call of join().
abbrev pub started : ℕ → System
started task = record {
  task = task;
  done = false;
  state_set = true;
  exists = true;
  barrier = some 0;
  mutex = some false;
  pc = λ _. idle;
}

pub data Reach (task : ℕ) : System → Type 0 where
  begin : Reach task (started task)
  later : {s t : System} → Reach task s → Step s t → Reach task t
