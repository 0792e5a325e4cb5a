-- ===== src/Thread/Joiners/Phases.antt =====
-- What holds of threads that join one object, by where they stand in join() of impl/freertos/thread.cpp.
use roo_threads.Base.{ℕ, ◌≡◌, ◌≢◌, Bool, true, false, none, some}
use roo_threads.Thread.Joiners.{
  Pc, checks_self, takes_barrier, gives_back, deletes_barrier, clears_state, gives_mutex,
  deletes_mutex, deletes_task, deletes_state, joined, System,
}

-- The call has taken the barrier.
abbrev pub is_past : Pc → Bool
is_past gives_back = true
is_past deletes_barrier = true
is_past clears_state = true
is_past gives_mutex = true
is_past deletes_mutex = true
is_past deletes_task = true
is_past deletes_state = true
is_past joined = true
is_past _ = false

-- The call is between the take of join_mutex and its give.
abbrev pub has_mutex : Pc → Bool
has_mutex checks_self = true
has_mutex takes_barrier = true
has_mutex gives_back = true
has_mutex deletes_barrier = true
has_mutex clears_state = true
has_mutex gives_mutex = true
has_mutex _ = false

-- The barrier has been deleted by this call.
abbrev pub has_deleted : Pc → Bool
has_deleted clears_state = true
has_deleted gives_mutex = true
has_deleted deletes_mutex = true
has_deleted deletes_task = true
has_deleted deletes_state = true
has_deleted joined = true
has_deleted _ = false

-- The call has found that it is not the task that it joins.
abbrev pub is_checked : Pc → Bool
is_checked takes_barrier = true
is_checked p = is_past p

abbrev pub is_joined : Pc → Bool
is_joined joined = true
is_joined _ = false

pub record Inv (s : System) : Type 0 where
  pub alone : (i j : ℕ) → is_past (s.pc i) ≡ true → is_past (s.pc j) ≡ true → i ≡ j
  pub exclusive : (i j : ℕ) → has_mutex (s.pc i) ≡ true → has_mutex (s.pc j) ≡ true → i ≡ j
  pub held : (i : ℕ) → has_mutex (s.pc i) ≡ true → s.mutex ≢ some false
  pub deleted : (i : ℕ) → has_deleted (s.pc i) ≡ true → s.barrier ≡ none
  -- What is deleted, is deleted after the barrier.
  pub intact : (s.exists ≡ false → s.barrier ≡ none) × (s.mutex ≡ none → s.barrier ≡ none)
  pub other : (i : ℕ) → is_checked (s.pc i) ≡ true → i ≢ s.task
  pub there : (i : ℕ) → is_past (s.pc i) ≡ true → is_joined (s.pc i) ≡ false → s.exists ≡ true
  pub locked : (i : ℕ) → is_past (s.pc i) ≡ true → has_mutex (s.pc i) ≡ true → s.mutex ≡ some true
