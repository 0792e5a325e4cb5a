-- ===== src/Thread/Joiners/Exclusion.antt =====
-- Threads that join one object exclude each other, step by step.
use roo_threads.Base.{ℕ, ◌≡◌, ◌≢◌, true, false, none, some, arith}
use roo_threads.Thread.Joiners.{
  System, Step, finishes, calls, calls_null, take_mutex, busy, mutex_gone, is_self, is_other,
  state_gone, take_barrier, barrier_gone, give_back, delete_barrier, clear_state, give_mutex,
  delete_mutex, delete_task, delete_state,
}
use roo_threads.Thread.Joiners.Phases.{is_past, has_mutex, has_deleted, Inv}

pub Step-alone :
    {s t : System}
    → Step s t
    → Inv s
    → (i j : ℕ) → is_past (t.pc i) ≡ true
    → is_past (t.pc j) ≡ true
    → i ≡ j
Step-alone {s} (finishes e) inv i j h h' =
    ground (arith, inv.alone i j, inv.exclusive i j, inv.deleted i, inv.deleted j)
Step-alone {s} (calls k e q) inv i j h h' =
    ground (arith, inv.alone i j, inv.exclusive i j, inv.deleted i, inv.deleted j)
Step-alone {s} (calls_null k e q) inv i j h h' =
    ground (arith, inv.alone i j, inv.exclusive i j, inv.deleted i, inv.deleted j)
Step-alone {s} (take_mutex k e q) inv i j h h' =
    ground (arith, inv.alone i j, inv.exclusive i j, inv.deleted i, inv.deleted j)
Step-alone {s} (busy k e q) inv i j h h' =
    ground (arith, inv.alone i j, inv.exclusive i j, inv.deleted i, inv.deleted j)
Step-alone {s} (mutex_gone k e q) inv i j h h' =
    ground (arith, inv.alone i j, inv.exclusive i j, inv.deleted i, inv.deleted j)
Step-alone {s} (is_self k e x q) inv i j h h' =
    ground (arith, inv.alone i j, inv.exclusive i j, inv.deleted i, inv.deleted j)
Step-alone {s} (is_other k e x q) inv i j h h' =
    ground (arith, inv.alone i j, inv.exclusive i j, inv.deleted i, inv.deleted j)
Step-alone {s} (state_gone k e q) inv i j h h' =
    ground (arith, inv.alone i j, inv.exclusive i j, inv.deleted i, inv.deleted j)
Step-alone {s} (take_barrier k e q) inv i j h h' =
    ground (arith, inv.alone i j, inv.exclusive i j, inv.deleted i, inv.deleted j)
Step-alone {s} (barrier_gone k e q) inv i j h h' =
    ground (arith, inv.alone i j, inv.exclusive i j, inv.deleted i, inv.deleted j)
Step-alone {s} (give_back k e) inv i j h h' =
    ground (arith, inv.alone i j, inv.exclusive i j, inv.deleted i, inv.deleted j)
Step-alone {s} (delete_barrier k e) inv i j h h' =
    ground (arith, inv.alone i j, inv.exclusive i j, inv.deleted i, inv.deleted j)
Step-alone {s} (clear_state k e) inv i j h h' =
    ground (arith, inv.alone i j, inv.exclusive i j, inv.deleted i, inv.deleted j)
Step-alone {s} (give_mutex k e) inv i j h h' =
    ground (arith, inv.alone i j, inv.exclusive i j, inv.deleted i, inv.deleted j)
Step-alone {s} (delete_mutex k e) inv i j h h' =
    ground (arith, inv.alone i j, inv.exclusive i j, inv.deleted i, inv.deleted j)
Step-alone {s} (delete_task k e) inv i j h h' =
    ground (arith, inv.alone i j, inv.exclusive i j, inv.deleted i, inv.deleted j)
Step-alone {s} (delete_state k e) inv i j h h' =
    ground (arith, inv.alone i j, inv.exclusive i j, inv.deleted i, inv.deleted j)

pub Step-exclusive :
    {s t : System}
    → Step s t
    → Inv s
    → (i j : ℕ) → has_mutex (t.pc i) ≡ true
    → has_mutex (t.pc j) ≡ true
    → i ≡ j
Step-exclusive {s} (finishes e) inv i j h h' =
    ground (arith, inv.exclusive i j, inv.held i, inv.held j)
Step-exclusive {s} (calls k e q) inv i j h h' =
    ground (arith, inv.exclusive i j, inv.held i, inv.held j)
Step-exclusive {s} (calls_null k e q) inv i j h h' =
    ground (arith, inv.exclusive i j, inv.held i, inv.held j)
Step-exclusive {s} (take_mutex k e q) inv i j h h' =
    ground (arith, inv.exclusive i j, inv.held i, inv.held j)
Step-exclusive {s} (busy k e q) inv i j h h' =
    ground (arith, inv.exclusive i j, inv.held i, inv.held j)
Step-exclusive {s} (mutex_gone k e q) inv i j h h' =
    ground (arith, inv.exclusive i j, inv.held i, inv.held j)
Step-exclusive {s} (is_self k e x q) inv i j h h' =
    ground (arith, inv.exclusive i j, inv.held i, inv.held j)
Step-exclusive {s} (is_other k e x q) inv i j h h' =
    ground (arith, inv.exclusive i j, inv.held i, inv.held j)
Step-exclusive {s} (state_gone k e q) inv i j h h' =
    ground (arith, inv.exclusive i j, inv.held i, inv.held j)
Step-exclusive {s} (take_barrier k e q) inv i j h h' =
    ground (arith, inv.exclusive i j, inv.held i, inv.held j)
Step-exclusive {s} (barrier_gone k e q) inv i j h h' =
    ground (arith, inv.exclusive i j, inv.held i, inv.held j)
Step-exclusive {s} (give_back k e) inv i j h h' =
    ground (arith, inv.exclusive i j, inv.held i, inv.held j)
Step-exclusive {s} (delete_barrier k e) inv i j h h' =
    ground (arith, inv.exclusive i j, inv.held i, inv.held j)
Step-exclusive {s} (clear_state k e) inv i j h h' =
    ground (arith, inv.exclusive i j, inv.held i, inv.held j)
Step-exclusive {s} (give_mutex k e) inv i j h h' =
    ground (arith, inv.exclusive i j, inv.held i, inv.held j)
Step-exclusive {s} (delete_mutex k e) inv i j h h' =
    ground (arith, inv.exclusive i j, inv.held i, inv.held j)
Step-exclusive {s} (delete_task k e) inv i j h h' =
    ground (arith, inv.exclusive i j, inv.held i, inv.held j)
Step-exclusive {s} (delete_state k e) inv i j h h' =
    ground (arith, inv.exclusive i j, inv.held i, inv.held j)

pub Step-held :
    {s t : System} → Step s t → Inv s → (i : ℕ) → has_mutex (t.pc i) ≡ true → t.mutex ≢ some false
Step-held {s} (finishes e) inv i h e' = ground (arith, inv.held i)
Step-held {s} (calls k e q) inv i h e' = ground (arith, inv.held i, inv.exclusive i k)
Step-held {s} (calls_null k e q) inv i h e' = ground (arith, inv.held i, inv.exclusive i k)
Step-held {s} (take_mutex k e q) inv i h e' = ground (arith, inv.held i, inv.exclusive i k)
Step-held {s} (busy k e q) inv i h e' = ground (arith, inv.held i, inv.exclusive i k)
Step-held {s} (mutex_gone k e q) inv i h e' = ground (arith, inv.held i, inv.exclusive i k)
Step-held {s} (is_self k e x q) inv i h e' = ground (arith, inv.held i, inv.exclusive i k)
Step-held {s} (is_other k e x q) inv i h e' = ground (arith, inv.held i, inv.exclusive i k)
Step-held {s} (state_gone k e q) inv i h e' = ground (arith, inv.held i, inv.exclusive i k)
Step-held {s} (take_barrier k e q) inv i h e' = ground (arith, inv.held i, inv.exclusive i k)
Step-held {s} (barrier_gone k e q) inv i h e' = ground (arith, inv.held i, inv.exclusive i k)
Step-held {s} (give_back k e) inv i h e' = ground (arith, inv.held i, inv.exclusive i k)
Step-held {s} (delete_barrier k e) inv i h e' = ground (arith, inv.held i, inv.exclusive i k)
Step-held {s} (clear_state k e) inv i h e' = ground (arith, inv.held i, inv.exclusive i k)
Step-held {s} (give_mutex k e) inv i h e' = ground (arith, inv.held i, inv.exclusive i k)
Step-held {s} (delete_mutex k e) inv i h e' = ground (arith, inv.held i, inv.exclusive i k)
Step-held {s} (delete_task k e) inv i h e' = ground (arith, inv.held i, inv.exclusive i k)
Step-held {s} (delete_state k e) inv i h e' = ground (arith, inv.held i, inv.exclusive i k)

pub Step-deleted :
    {s t : System} → Step s t → Inv s → (i : ℕ) → has_deleted (t.pc i) ≡ true → t.barrier ≡ none
Step-deleted {s} (finishes e) inv i h = ground (arith, inv.deleted i)
Step-deleted {s} (calls k e q) inv i h = ground (arith, inv.deleted i, inv.alone i k)
Step-deleted {s} (calls_null k e q) inv i h = ground (arith, inv.deleted i, inv.alone i k)
Step-deleted {s} (take_mutex k e q) inv i h = ground (arith, inv.deleted i, inv.alone i k)
Step-deleted {s} (busy k e q) inv i h = ground (arith, inv.deleted i, inv.alone i k)
Step-deleted {s} (mutex_gone k e q) inv i h = ground (arith, inv.deleted i, inv.alone i k)
Step-deleted {s} (is_self k e x q) inv i h = ground (arith, inv.deleted i, inv.alone i k)
Step-deleted {s} (is_other k e x q) inv i h = ground (arith, inv.deleted i, inv.alone i k)
Step-deleted {s} (state_gone k e q) inv i h = ground (arith, inv.deleted i, inv.alone i k)
Step-deleted {s} (take_barrier k e q) inv i h = ground (arith, inv.deleted i, inv.alone i k)
Step-deleted {s} (barrier_gone k e q) inv i h = ground (arith, inv.deleted i, inv.alone i k)
Step-deleted {s} (give_back k e) inv i h = ground (arith, inv.deleted i, inv.alone i k)
Step-deleted {s} (delete_barrier k e) inv i h = ground (arith, inv.deleted i, inv.alone i k)
Step-deleted {s} (clear_state k e) inv i h = ground (arith, inv.deleted i, inv.alone i k)
Step-deleted {s} (give_mutex k e) inv i h = ground (arith, inv.deleted i, inv.alone i k)
Step-deleted {s} (delete_mutex k e) inv i h = ground (arith, inv.deleted i, inv.alone i k)
Step-deleted {s} (delete_task k e) inv i h = ground (arith, inv.deleted i, inv.alone i k)
Step-deleted {s} (delete_state k e) inv i h = ground (arith, inv.deleted i, inv.alone i k)
