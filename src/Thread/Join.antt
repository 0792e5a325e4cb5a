-- ===== src/Thread/Join.antt =====
-- What join() of impl/freertos/thread.cpp promises to a program.
use roo_threads.Base.{ℕ, ◌+◌, ◌<◌, ◌≤◌, ◌≡◌, refl, ◌⊎◌, inl, inr, ◌≢◌, true, false, none, arith}
use roo_threads.Thread.{
  TaskPc, unborn, moves_start, calls, drops_start, reads_joinable, gives_barrier, suspends,
  suspended, frees_state, deletes_itself, deleted, OwnerPc, starts, sets_state, joins,
  takes_barrier, gives_back, deletes_barrier, clears_state, gives_mutex, deletes_mutex,
  deletes_task, deletes_state, joined, aborted, dropped, System, Step, creates, create_fails,
  set_state, join_null, join_detached, join_busy, join, take_barrier, give_back, delete_barrier,
  clear_state, give_mutex, delete_mutex, delete_task, delete_state, move_start, call, drop_start,
  read_joinable, give_barrier, suspend, free_state, delete_itself, Reach,
}
use roo_threads.Thread.Handshake.{uses_state, uses_state_owner, Reach-Inv}

-- Where join() has returned in a reachable state, the callable has been called once and destroyed, the task is
-- deleted, the object has no thread, and the thread's state and both semaphores are gone.
pub join_lem :
    {s : System}
    → Reach s
    → s.owner ≡ joined
    → (s.runs ≡ 1)
      × (s.callable ≡ dropped)
      × (s.task ≡ deleted)
      × (s.state_set ≡ false)
      × (s.exists ≡ false)
      × (s.barrier ≡ none)
      × (s.mutex ≡ none)
join_lem {s} r e = ground (arith, Reach-Inv r)

-- In a reachable state of a joinable thread, neither the task nor the owner is about to use the
-- thread's state where it has been deleted; the owner deletes it, and the task does not.
pub state_exists :
    {s : System}
    → Reach s
    → s.joinable ≡ true
    → (uses_state s.task ≡ true → s.exists ≡ true)
      × (uses_state_owner s.owner ≡ true → s.exists ≡ true)
      × (s.task ≢ frees_state)
state_exists {s} r e = ground (arith, Reach-Inv r)

-- In a reachable state the callable has been called at most once, and exactly once where it has been
-- destroyed.
pub called_once : {s : System} → Reach s → (s.runs ≤ 1) × (s.callable ≡ dropped → s.runs ≡ 1)
called_once {s} r = ground (arith, Reach-Inv r)

-- How many steps are left at most.
abbrev owner_left : OwnerPc → ℕ
owner_left starts = 21
owner_left sets_state = 11
owner_left joins = 10
owner_left takes_barrier = 9
owner_left gives_back = 8
owner_left deletes_barrier = 7
owner_left clears_state = 6
owner_left gives_mutex = 5
owner_left deletes_mutex = 4
owner_left deletes_task = 3
owner_left deletes_state = 2
owner_left joined = 1
owner_left aborted = 0

abbrev task_left : TaskPc → ℕ
task_left unborn = 10
task_left moves_start = 9
task_left calls = 8
task_left drops_start = 7
task_left reads_joinable = 6
task_left gives_barrier = 5
task_left suspends = 4
task_left suspended = 3
task_left frees_state = 2
task_left deletes_itself = 1
task_left deleted = 0

abbrev pub left : System → ℕ
left s = owner_left s.owner + task_left s.task

Step-left : {s t : System} → Step s t → left t < left s
Step-left {s} (creates j e) = ground arith
Step-left {s} (create_fails e) = ground arith
Step-left {s} (set_state e) = ground arith
Step-left {s} (join_null e e') = ground arith
Step-left {s} (join_detached e e') = ground arith
Step-left {s} (join_busy e e') = ground arith
Step-left {s} (join e e' e'' f) = ground arith
Step-left {s} (take_barrier e e') = ground arith
Step-left {s} (give_back e) = ground arith
Step-left {s} (delete_barrier e) = ground arith
Step-left {s} (clear_state e) = ground arith
Step-left {s} (give_mutex e) = ground arith
Step-left {s} (delete_mutex e) = ground arith
Step-left {s} (delete_task e) = ground arith
Step-left {s} (delete_state e) = ground arith
Step-left {s} (move_start e) = ground arith
Step-left {s} (call e) = ground arith
Step-left {s} (drop_start e) = ground arith
Step-left {s} (read_joinable e) = ground arith
Step-left {s} (give_barrier e) = ground arith
Step-left {s} (suspend e) = ground arith
Step-left {s} (free_state e) = ground arith
Step-left {s} (delete_itself e) = ground arith

-- A step of the task, or of the owner that waits for it.
wait_step :
    {s : System} (t : TaskPc)
    → Reach s
    → s.joinable ≡ true
    → s.owner ≡ takes_barrier
    → s.task ≡ t
    → (u : System) × Step s u
wait_step moves_start r j o e = (_, move_start e)
wait_step calls r j o e = (_, call e)
wait_step drops_start r j o e = (_, drop_start e)
wait_step reads_joinable r j o e = (_, read_joinable e)
wait_step gives_barrier r j o e = (_, give_barrier e)
wait_step suspends r j o e = (_, take_barrier o (ground (arith, Reach-Inv r)))
wait_step suspended r j o e = (_, take_barrier o (ground (arith, Reach-Inv r)))
wait_step unborn r j o e = absurd (ground (arith, Reach-Inv r))
wait_step frees_state r j o e = absurd (ground (arith, Reach-Inv r))
wait_step deletes_itself r j o e = absurd (ground (arith, Reach-Inv r))
wait_step deleted r j o e = absurd (ground (arith, Reach-Inv r))

next :
    {s : System} (o : OwnerPc)
    → Reach s
    → s.joinable ≡ true
    → s.owner ≡ o
    → (s.owner ≡ joined) ⊎ (u : System) × Step s u
next starts r j e = absurd (ground (arith, Reach-Inv r))
next sets_state r j e = inr (_, set_state e)
next joins r j e = inr (_, join e (ground (arith, Reach-Inv r)) j (ground (arith, Reach-Inv r)))
next {s} takes_barrier r j e = inr (wait_step s.task r j e refl)
next gives_back r j e = inr (_, give_back e)
next deletes_barrier r j e = inr (_, delete_barrier e)
next clears_state r j e = inr (_, clear_state e)
next gives_mutex r j e = inr (_, give_mutex e)
next deletes_mutex r j e = inr (_, delete_mutex e)
next deletes_task r j e = inr (_, delete_task e)
next deletes_state r j e = inr (_, delete_state e)
next joined r j e = inl e
next aborted r j e = absurd (ground (arith, Reach-Inv r))

-- In a reachable state of a joinable thread some step can be taken or join() has returned, and every
-- step leaves fewer to take: join() returns, whatever the order of the steps.
pub join_ends :
    {s : System}
    → Reach s
    → s.joinable ≡ true
    → ((s.owner ≡ joined) ⊎ (t : System) × Step s t) × ((t : System) → Step s t → left t < left s)
join_ends {s} r j = (next s.owner r j refl, λ t step. Step-left step)
