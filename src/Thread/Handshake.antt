-- ===== src/Thread/Handshake.antt =====
-- The invariant of start(), join() and run_thread() in impl/freertos/thread.cpp.
use roo_threads.Base.{
  ℕ, ◌≡◌, ◌⊎◌, Bool, true, false, ◌||◌, Option, none, some, if◌then◌else◌, arith,
}
use roo_threads.Thread.{
  TaskPc, unborn, moves_start, calls, drops_start, reads_joinable, gives_barrier, suspends,
  suspended, frees_state, deleted, OwnerPc, starts, sets_state, joins, takes_barrier, gives_back,
  deletes_barrier, gives_mutex, deletes_mutex, deletes_task, deletes_state, joined, aborted,
  Callable, in_state, in_task, dropped, System, Step, creates, create_fails, set_state, join_null,
  join_detached, join_busy, join, take_barrier, give_back, delete_barrier, clear_state, give_mutex,
  delete_mutex, delete_task, delete_state, move_start, call, drop_start, read_joinable,
  give_barrier, suspend, free_state, delete_itself, Reach, begin, later,
}

-- What the position of the task says.
abbrev pub ran : TaskPc → ℕ
ran unborn = 0
ran moves_start = 0
ran calls = 0
ran _ = 1

abbrev pub callable_at : TaskPc → Callable
callable_at unborn = in_state
callable_at moves_start = in_state
callable_at calls = in_task
callable_at drops_start = in_task
callable_at _ = dropped

-- The task of a joinable thread, before and after it has given the barrier.
abbrev pub is_working : TaskPc → Bool
is_working moves_start = true
is_working calls = true
is_working drops_start = true
is_working reads_joinable = true
is_working gives_barrier = true
is_working _ = false

abbrev pub is_done : TaskPc → Bool
is_done suspends = true
is_done suspended = true
is_done _ = false

abbrev is_deleted : TaskPc → Bool
is_deleted deleted = true
is_deleted _ = false

-- The task of a thread that is not joinable.
abbrev is_alone : TaskPc → Bool
is_alone unborn = false
is_alone gives_barrier = false
is_alone suspends = false
is_alone suspended = false
is_alone _ = true

abbrev is_unborn : TaskPc → Bool
is_unborn unborn = true
is_unborn _ = false

-- The task goes on to read or write `*state`.
abbrev pub uses_state : TaskPc → Bool
uses_state moves_start = true
uses_state calls = true
uses_state drops_start = true
uses_state reads_joinable = true
uses_state gives_barrier = true
uses_state frees_state = true
uses_state _ = false

-- Where the task of a joinable thread can be, by where the owner is.
abbrev legal_joinable : OwnerPc → TaskPc → Bool
legal_joinable starts t = false
legal_joinable sets_state t = is_working t || is_done t
legal_joinable joins t = is_working t || is_done t
legal_joinable takes_barrier t = is_working t || is_done t
legal_joinable deletes_state t = is_deleted t
legal_joinable joined t = is_deleted t
legal_joinable aborted t = false
legal_joinable _ t = is_done t

-- And where that of another: join() does not get past its assertions.
abbrev legal_detached : OwnerPc → TaskPc → Bool
legal_detached starts t = is_unborn t
legal_detached sets_state t = is_alone t
legal_detached joins t = is_alone t
legal_detached aborted t = is_unborn t || is_alone t
legal_detached _ t = false

abbrev legal : Bool → OwnerPc → TaskPc → Bool
legal true o t = legal_joinable o t
legal false o t = legal_detached o t

-- The barrier of a joinable thread.
abbrev barrier_at : OwnerPc → TaskPc → Option ℕ
barrier_at sets_state t = some (if is_done t then 1 else 0)
barrier_at joins t = some (if is_done t then 1 else 0)
barrier_at takes_barrier t = some (if is_done t then 1 else 0)
barrier_at gives_back t = some 0
barrier_at deletes_barrier t = some 1
barrier_at _ t = none

abbrev mutex_at : OwnerPc → Option Bool
mutex_at sets_state = some false
mutex_at joins = some false
mutex_at starts = none
mutex_at deletes_mutex = some false
mutex_at deletes_task = none
mutex_at deletes_state = none
mutex_at joined = none
mutex_at aborted = none
mutex_at _ = some true

-- `state_`, where no assertion has failed.
abbrev set_at : OwnerPc → Bool
set_at starts = false
set_at sets_state = false
set_at gives_mutex = false
set_at deletes_mutex = false
set_at deletes_task = false
set_at deletes_state = false
set_at joined = false
set_at _ = true

abbrev pub uses_state_owner : OwnerPc → Bool
uses_state_owner starts = false
uses_state_owner joined = false
uses_state_owner aborted = false
uses_state_owner _ = true

abbrev pub is_aborted : OwnerPc → Bool
is_aborted aborted = true
is_aborted _ = false

-- The state is what the positions of the two say.
abbrev pub Inv : System → Type 0
Inv s =
    (legal s.joinable s.owner s.task ≡ true)
    × (s.runs ≡ ran s.task)
    × (s.callable ≡ callable_at s.task)
    × (s.state_set ≡ set_at s.owner ⊎ s.owner ≡ aborted)
    × (s.barrier ≡ (if s.joinable then barrier_at s.owner s.task else none))
    × (s.mutex ≡ (if s.joinable then mutex_at s.owner else none))
    × (s.exists ≡ (if s.joinable then uses_state_owner s.owner else uses_state s.task))

Step-Inv : {s t : System} → Step s t → Inv s → Inv t
Step-Inv {s} (creates j e) inv = ground arith
Step-Inv {s} (create_fails e) inv = ground arith
Step-Inv {s} (set_state e) inv = ground arith
Step-Inv {s} (join_null e e') inv = ground arith
Step-Inv {s} (join_detached e e') inv = ground arith
Step-Inv {s} (join_busy e e') inv = ground arith
Step-Inv {s} (join e e' e'' f) inv = ground arith
Step-Inv {s} (take_barrier e e') inv = ground arith
Step-Inv {s} (give_back e) inv = ground arith
Step-Inv {s} (delete_barrier e) inv = ground arith
Step-Inv {s} (clear_state e) inv = ground arith
Step-Inv {s} (give_mutex e) inv = ground arith
Step-Inv {s} (delete_mutex e) inv = ground arith
Step-Inv {s} (delete_task e) inv = ground arith
Step-Inv {s} (delete_state e) inv = ground arith
Step-Inv {s} (move_start e) inv = ground arith
Step-Inv {s} (call e) inv = ground arith
Step-Inv {s} (drop_start e) inv = ground arith
Step-Inv {s} (read_joinable e) inv = ground arith
Step-Inv {s} (give_barrier e) inv = ground arith
Step-Inv {s} (suspend e) inv = ground arith
Step-Inv {s} (free_state e) inv = ground arith
Step-Inv {s} (delete_itself e) inv = ground arith

pub Reach-Inv : {s : System} → Reach s → Inv s
Reach-Inv begin = ground arith
Reach-Inv (later r step) = Step-Inv step (Reach-Inv r)
