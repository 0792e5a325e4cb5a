-- ===== src/Thread/Joiners/Race.antt =====
-- Several threads that join one object: one of them gets through, and one that is late meets what it has deleted.
mod Tests
use roo_threads.Base.{ℕ, ◌≡◌, ◌≢◌, Bool, true, false, none, some}
use roo_threads.Thread.Joiners.{
  Pc, idle, checks_self, takes_barrier, gives_back, deletes_barrier, clears_state, deletes_mutex,
  deletes_task, deletes_state, aborted, System, Step, finishes, calls, calls_null, take_mutex, busy,
  is_self, is_other, state_gone, take_barrier, barrier_gone, give_back, delete_barrier, clear_state,
  Reach, begin,
}
use roo_threads.Thread.Joiners.Phases.{is_past, has_mutex, has_deleted, is_checked, is_joined, Inv}
use roo_threads.Thread.Joiners.Deletion.{Reach-Inv, is_past-is_checked}

-- In a reachable state of threads that join one object, at most one has come past the barrier; it is not the
-- joined thread itself, and until it has joined the state that it goes on to use exists, and so does
-- the join mutex up to where it gives it.
pub one_joins :
    {task : ℕ} {s : System} (i : ℕ)
    → Reach task s
    → is_past (s.pc i) ≡ true
    → ((j : ℕ) → is_past (s.pc j) ≡ true → i ≡ j)
      × (i ≢ s.task)
      × (is_joined (s.pc i) ≡ false → s.exists ≡ true)
      × (has_mutex (s.pc i) ≡ true → s.mutex ≡ some true)
one_joins i r h =
    let inv = Reach-Inv r in
    (
      λ j h'. inv.alone i j h h',
      inv.other i (is_past-is_checked _ h),
      inv.there i h,
      inv.locked i h,
    )
