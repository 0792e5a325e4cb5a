-- ===== src/Thread.antt =====
-- impl/freertos/thread.cpp: the life of one thread object, as the task that runs the callable and the
-- thread that starts and joins it, interleaved in any order. The thread that joins is not the task itself, and no
-- other thread calls members of the same object.
pub mod Handshake
pub mod Join
pub mod Sleep
pub mod Objects
pub mod Identity
pub mod Attributes
pub mod Create
pub mod Creation
pub mod Whole
pub mod Joiners
mod Tests
use roo_threads.Base.{ℕ, ◌+◌, ◌≡◌, Bool, true, false, Option, none, some, if◌then◌else◌}

-- run_thread(), by what it does next.
pub data TaskPc : Type 0 where
  unborn : TaskPc  -- before xTaskCreate
  moves_start : TaskPc  -- `start = std::move(p->start)`
  calls : TaskPc  -- `start->call()`
  drops_start : TaskPc  -- `start = nullptr`
  reads_joinable : TaskPc  -- `if (p->attr.joinable())`
  gives_barrier : TaskPc  -- `xSemaphoreGive(&p->join_barrier)`
  suspends : TaskPc  -- `vTaskSuspend(nullptr)`
  suspended : TaskPc
  frees_state : TaskPc  -- `delete p`
  deletes_itself : TaskPc  -- `vTaskDelete(nullptr)`
  deleted : TaskPc

-- start() and then join(), by what they do next.
pub data OwnerPc : Type 0 where
  starts : OwnerPc  -- start(), up to xTaskCreate
  sets_state : OwnerPc  -- `state_ = state`
  joins : OwnerPc  -- join(), up to the take of join_mutex
  takes_barrier : OwnerPc  -- `xSemaphoreTake(&state->join_barrier, portMAX_DELAY)`
  gives_back : OwnerPc  -- `xSemaphoreGive(&state->join_barrier)`
  deletes_barrier : OwnerPc
  clears_state : OwnerPc  -- `state_ = 0`
  gives_mutex : OwnerPc
  deletes_mutex : OwnerPc
  deletes_task : OwnerPc  -- `vTaskDelete(state->task)`
  deletes_state : OwnerPc  -- `delete state`
  joined : OwnerPc
  aborted : OwnerPc  -- an assertion has failed

-- The callable that the thread was made for.
pub data Callable : Type 0 where
  in_state : Callable  -- owned by `p->start`
  in_task : Callable  -- owned by `start` of run_thread()
  dropped : Callable

-- `exists` says that `*state` has not been deleted; a semaphore is `none` where it has not been
-- made or has been deleted, and the join mutex otherwise says if it is held.
pub record System : Type 0 where
  pub state_set : Bool
  pub exists : Bool
  pub joinable : Bool  -- state->attr.joinable()
  pub callable : Callable
  pub runs : ℕ
  pub barrier : Option ℕ
  pub mutex : Option Bool
  pub task : TaskPc
  pub owner : OwnerPc

-- xSemaphoreGive on a binary semaphore
abbrev pub give : Option ℕ → Option ℕ
give none = none
give (some n) = some 1

pub data Step (s : System) : System → Type 0 where
  -- start(): a new thread_state with its semaphores, and xTaskCreate
  creates :
      (joinable : Bool)
      → s.owner ≡ starts
      → Step s (record s {
        exists = true;
        joinable = joinable;
        callable = in_state;
        barrier = if joinable then some 0 else none;
        mutex = if joinable then some false else none;
        task = moves_start;
        owner = sets_state;
      })
  -- where xTaskCreate fails: `delete state; assert(false);`
  create_fails : s.owner ≡ starts → Step s (record s { owner = aborted })
  set_state : s.owner ≡ sets_state → Step s (record s { state_set = true; owner = joins })
  -- join()
  join_null : s.owner ≡ joins → s.state_set ≡ false → Step s (record s { owner = aborted })
  join_detached : s.owner ≡ joins → s.joinable ≡ false → Step s (record s { owner = aborted })
  join_busy : s.owner ≡ joins → s.mutex ≡ some true → Step s (record s { owner = aborted })
  join :
      s.owner ≡ joins
      → s.state_set ≡ true
      → s.joinable ≡ true
      → s.mutex ≡ some false
      → Step s (record s { mutex = some true; owner = takes_barrier })
  take_barrier :
      s.owner ≡ takes_barrier
      → s.barrier ≡ some 1
      → Step s (record s { barrier = some 0; owner = gives_back })
  give_back :
      s.owner ≡ gives_back → Step s (record s { barrier = give s.barrier; owner = deletes_barrier })
  delete_barrier :
      s.owner ≡ deletes_barrier → Step s (record s { barrier = none; owner = clears_state })
  clear_state :
      s.owner ≡ clears_state → Step s (record s { state_set = false; owner = gives_mutex })
  give_mutex :
      s.owner ≡ gives_mutex → Step s (record s { mutex = some false; owner = deletes_mutex })
  delete_mutex : s.owner ≡ deletes_mutex → Step s (record s { mutex = none; owner = deletes_task })
  delete_task : s.owner ≡ deletes_task → Step s (record s { task = deleted; owner = deletes_state })
  delete_state : s.owner ≡ deletes_state → Step s (record s { exists = false; owner = joined })
  -- run_thread()
  move_start : s.task ≡ moves_start → Step s (record s { callable = in_task; task = calls })
  call : s.task ≡ calls → Step s (record s { runs = s.runs + 1; task = drops_start })
  drop_start :
      s.task ≡ drops_start → Step s (record s { callable = dropped; task = reads_joinable })
  read_joinable :
      s.task ≡ reads_joinable
      → Step s (record s { task = if s.joinable then gives_barrier else frees_state })
  give_barrier :
      s.task ≡ gives_barrier → Step s (record s { barrier = give s.barrier; task = suspends })
  suspend : s.task ≡ suspends → Step s (record s { task = suspended })
  free_state : s.task ≡ frees_state → Step s (record s { exists = false; task = deletes_itself })
  delete_itself : s.task ≡ deletes_itself → Step s (record s { task = deleted })

-- An object without a thread, whose start() is called.
abbrev pub unused : System
unused = record {
  state_set = false;
  exists = false;
  joinable = false;
  callable = in_state;
  runs = 0;
  barrier = none;
  mutex = none;
  task = unborn;
  owner = starts;
}

pub data Reach : System → Type 0 where
  begin : Reach unused
  later : {s t : System} → Reach s → Step s t → Reach t
