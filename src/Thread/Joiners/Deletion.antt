-- ===== src/Thread/Joiners/Deletion.antt =====
-- A thread that joins an object finds what it goes on to use, step by step.
use roo_threads.Base.{ℕ, ◌≡◌, ◌≢◌, true, false, none, some, arith}
use roo_threads.Thread.Joiners.{
  Pc, System, Step, finishes, calls, calls_null, take_mutex, busy, mutex_gone, is_self, is_other,
  state_gone, take_barrier, barrier_gone, give_back, delete_barrier, clear_state, give_mutex,
  delete_mutex, delete_task, delete_state, Reach, begin, later,
}
use roo_threads.Thread.Joiners.Phases.{is_past, has_mutex, is_checked, is_joined, Inv}
use roo_threads.Thread.Joiners.Exclusion.{Step-alone, Step-exclusive, Step-held, Step-deleted}

Step-intact :
    {s t : System}
    → Step s t
    → Inv s
    → (t.exists ≡ false → t.barrier ≡ none) × (t.mutex ≡ none → t.barrier ≡ none)
Step-intact {s} (finishes e) inv =
    ((λ h. ground (arith, inv.intact)), (λ h. ground (arith, inv.intact)))
Step-intact {s} (calls k e q) inv = (
  (λ h. ground (arith, inv.intact, inv.deleted k)),
  (λ h. ground (arith, inv.intact, inv.deleted k)),
)
Step-intact {s} (calls_null k e q) inv = (
  (λ h. ground (arith, inv.intact, inv.deleted k)),
  (λ h. ground (arith, inv.intact, inv.deleted k)),
)
Step-intact {s} (take_mutex k e q) inv = (
  (λ h. ground (arith, inv.intact, inv.deleted k)),
  (λ h. ground (arith, inv.intact, inv.deleted k)),
)
Step-intact {s} (busy k e q) inv = (
  (λ h. ground (arith, inv.intact, inv.deleted k)),
  (λ h. ground (arith, inv.intact, inv.deleted k)),
)
Step-intact {s} (mutex_gone k e q) inv = (
  (λ h. ground (arith, inv.intact, inv.deleted k)),
  (λ h. ground (arith, inv.intact, inv.deleted k)),
)
Step-intact {s} (is_self k e x q) inv = (
  (λ h. ground (arith, inv.intact, inv.deleted k)),
  (λ h. ground (arith, inv.intact, inv.deleted k)),
)
Step-intact {s} (is_other k e x q) inv = (
  (λ h. ground (arith, inv.intact, inv.deleted k)),
  (λ h. ground (arith, inv.intact, inv.deleted k)),
)
Step-intact {s} (state_gone k e q) inv = (
  (λ h. ground (arith, inv.intact, inv.deleted k)),
  (λ h. ground (arith, inv.intact, inv.deleted k)),
)
Step-intact {s} (take_barrier k e q) inv = (
  (λ h. ground (arith, inv.intact, inv.deleted k)),
  (λ h. ground (arith, inv.intact, inv.deleted k)),
)
Step-intact {s} (barrier_gone k e q) inv = (
  (λ h. ground (arith, inv.intact, inv.deleted k)),
  (λ h. ground (arith, inv.intact, inv.deleted k)),
)
Step-intact {s} (give_back k e) inv = (
  (λ h. ground (arith, inv.intact, inv.deleted k)),
  (λ h. ground (arith, inv.intact, inv.deleted k)),
)
Step-intact {s} (delete_barrier k e) inv = (
  (λ h. ground (arith, inv.intact, inv.deleted k)),
  (λ h. ground (arith, inv.intact, inv.deleted k)),
)
Step-intact {s} (clear_state k e) inv = (
  (λ h. ground (arith, inv.intact, inv.deleted k)),
  (λ h. ground (arith, inv.intact, inv.deleted k)),
)
Step-intact {s} (give_mutex k e) inv = (
  (λ h. ground (arith, inv.intact, inv.deleted k)),
  (λ h. ground (arith, inv.intact, inv.deleted k)),
)
Step-intact {s} (delete_mutex k e) inv = (
  (λ h. ground (arith, inv.intact, inv.deleted k)),
  (λ h. ground (arith, inv.intact, inv.deleted k)),
)
Step-intact {s} (delete_task k e) inv = (
  (λ h. ground (arith, inv.intact, inv.deleted k)),
  (λ h. ground (arith, inv.intact, inv.deleted k)),
)
Step-intact {s} (delete_state k e) inv = (
  (λ h. ground (arith, inv.intact, inv.deleted k)),
  (λ h. ground (arith, inv.intact, inv.deleted k)),
)

Step-other : {s t : System} → Step s t → Inv s → (i : ℕ) → is_checked (t.pc i) ≡ true → i ≢ t.task
Step-other {s} (finishes e) inv i h e' = ground (arith, inv.other i)
Step-other {s} (calls k e q) inv i h e' = ground (arith, inv.other i)
Step-other {s} (calls_null k e q) inv i h e' = ground (arith, inv.other i)
Step-other {s} (take_mutex k e q) inv i h e' = ground (arith, inv.other i)
Step-other {s} (busy k e q) inv i h e' = ground (arith, inv.other i)
Step-other {s} (mutex_gone k e q) inv i h e' = ground (arith, inv.other i)
Step-other {s} (is_self k e x q) inv i h e' = ground (arith, inv.other i)
Step-other {s} (is_other k e x q) inv i h e' = ground (arith, inv.other i)
Step-other {s} (state_gone k e q) inv i h e' = ground (arith, inv.other i)
Step-other {s} (take_barrier k e q) inv i h e' = ground (arith, inv.other i)
Step-other {s} (barrier_gone k e q) inv i h e' = ground (arith, inv.other i)
Step-other {s} (give_back k e) inv i h e' = ground (arith, inv.other i)
Step-other {s} (delete_barrier k e) inv i h e' = ground (arith, inv.other i)
Step-other {s} (clear_state k e) inv i h e' = ground (arith, inv.other i)
Step-other {s} (give_mutex k e) inv i h e' = ground (arith, inv.other i)
Step-other {s} (delete_mutex k e) inv i h e' = ground (arith, inv.other i)
Step-other {s} (delete_task k e) inv i h e' = ground (arith, inv.other i)
Step-other {s} (delete_state k e) inv i h e' = ground (arith, inv.other i)

Step-there :
    {s t : System}
    → Step s t
    → Inv s
    → (i : ℕ) → is_past (t.pc i) ≡ true
    → is_joined (t.pc i) ≡ false
    → t.exists ≡ true
Step-there {s} (finishes e) inv i h n = ground (arith, inv.there i)
Step-there {s} (calls k e q) inv i h n =
    ground (arith, inv.there i, inv.alone i k, inv.locked k, inv.deleted i)
Step-there {s} (calls_null k e q) inv i h n =
    ground (arith, inv.there i, inv.alone i k, inv.locked k, inv.deleted i)
Step-there {s} (take_mutex k e q) inv i h n =
    ground (arith, inv.there i, inv.alone i k, inv.locked k, inv.deleted i)
Step-there {s} (busy k e q) inv i h n =
    ground (arith, inv.there i, inv.alone i k, inv.locked k, inv.deleted i)
Step-there {s} (mutex_gone k e q) inv i h n =
    ground (arith, inv.there i, inv.alone i k, inv.locked k, inv.deleted i)
Step-there {s} (is_self k e x q) inv i h n =
    ground (arith, inv.there i, inv.alone i k, inv.locked k, inv.deleted i)
Step-there {s} (is_other k e x q) inv i h n =
    ground (arith, inv.there i, inv.alone i k, inv.locked k, inv.deleted i)
Step-there {s} (state_gone k e q) inv i h n =
    ground (arith, inv.there i, inv.alone i k, inv.locked k, inv.deleted i)
Step-there {s} (take_barrier k e q) inv i h n =
    ground (arith, inv.intact, inv.there i, inv.alone i k, inv.locked k, inv.deleted i)
Step-there {s} (barrier_gone k e q) inv i h n =
    ground (arith, inv.there i, inv.alone i k, inv.locked k, inv.deleted i)
Step-there {s} (give_back k e) inv i h n =
    ground (arith, inv.there i, inv.alone i k, inv.locked k, inv.deleted i)
Step-there {s} (delete_barrier k e) inv i h n =
    ground (arith, inv.there i, inv.alone i k, inv.locked k, inv.deleted i)
Step-there {s} (clear_state k e) inv i h n =
    ground (arith, inv.there i, inv.alone i k, inv.locked k, inv.deleted i)
Step-there {s} (give_mutex k e) inv i h n =
    ground (arith, inv.there i, inv.alone i k, inv.locked k, inv.deleted i)
Step-there {s} (delete_mutex k e) inv i h n =
    ground (arith, inv.there i, inv.alone i k, inv.locked k, inv.deleted i)
Step-there {s} (delete_task k e) inv i h n =
    ground (arith, inv.there i, inv.alone i k, inv.locked k, inv.deleted i)
Step-there {s} (delete_state k e) inv i h n =
    ground (arith, inv.there i, inv.alone i k, inv.locked k, inv.deleted i)

Step-locked :
    {s t : System}
    → Step s t
    → Inv s
    → (i : ℕ) → is_past (t.pc i) ≡ true
    → has_mutex (t.pc i) ≡ true
    → t.mutex ≡ some true
Step-locked {s} (finishes e) inv i h n = ground (arith, inv.locked i)
Step-locked {s} (calls k e q) inv i h n =
    ground (arith, inv.locked i, inv.exclusive i k, inv.alone i k, inv.locked k)
Step-locked {s} (calls_null k e q) inv i h n =
    ground (arith, inv.locked i, inv.exclusive i k, inv.alone i k, inv.locked k)
Step-locked {s} (take_mutex k e q) inv i h n =
    ground (arith, inv.locked i, inv.exclusive i k, inv.alone i k, inv.locked k)
Step-locked {s} (busy k e q) inv i h n =
    ground (arith, inv.locked i, inv.exclusive i k, inv.alone i k, inv.locked k)
Step-locked {s} (mutex_gone k e q) inv i h n =
    ground (arith, inv.locked i, inv.exclusive i k, inv.alone i k, inv.locked k)
Step-locked {s} (is_self k e x q) inv i h n =
    ground (arith, inv.locked i, inv.exclusive i k, inv.alone i k, inv.locked k)
Step-locked {s} (is_other k e x q) inv i h n =
    ground (arith, inv.locked i, inv.exclusive i k, inv.alone i k, inv.locked k)
Step-locked {s} (state_gone k e q) inv i h n =
    ground (arith, inv.locked i, inv.exclusive i k, inv.alone i k, inv.locked k)
Step-locked {s} (take_barrier k e q) inv i h n =
    ground
      (arith, inv.intact, inv.held k, inv.locked i, inv.exclusive i k, inv.alone i k, inv.locked k)
Step-locked {s} (barrier_gone k e q) inv i h n =
    ground (arith, inv.locked i, inv.exclusive i k, inv.alone i k, inv.locked k)
Step-locked {s} (give_back k e) inv i h n =
    ground (arith, inv.locked i, inv.exclusive i k, inv.alone i k, inv.locked k)
Step-locked {s} (delete_barrier k e) inv i h n =
    ground (arith, inv.locked i, inv.exclusive i k, inv.alone i k, inv.locked k)
Step-locked {s} (clear_state k e) inv i h n =
    ground (arith, inv.locked i, inv.exclusive i k, inv.alone i k, inv.locked k)
Step-locked {s} (give_mutex k e) inv i h n =
    ground (arith, inv.locked i, inv.exclusive i k, inv.alone i k, inv.locked k)
Step-locked {s} (delete_mutex k e) inv i h n =
    ground (arith, inv.locked i, inv.exclusive i k, inv.alone i k, inv.locked k)
Step-locked {s} (delete_task k e) inv i h n =
    ground (arith, inv.locked i, inv.exclusive i k, inv.alone i k, inv.locked k)
Step-locked {s} (delete_state k e) inv i h n =
    ground (arith, inv.locked i, inv.exclusive i k, inv.alone i k, inv.locked k)

pub is_past-is_checked : (p : Pc) → is_past p ≡ true → is_checked p ≡ true
is_past-is_checked p h = ground arith

pub Reach-Inv : {task : ℕ} {s : System} → Reach task s → Inv s
Reach-Inv begin = record {
  alone = λ i j h h'. ground arith;
  exclusive = λ i j h h'. ground arith;
  held = λ i h e. ground arith;
  deleted = λ i h. ground arith;
  intact = (λ h. ground arith, λ h. ground arith);
  other = λ i h e. ground arith;
  there = λ i h n. ground arith;
  locked = λ i h n. ground arith;
}
Reach-Inv (later r step) =
    let inv = Reach-Inv r in
    record {
      alone = Step-alone step inv;
      exclusive = Step-exclusive step inv;
      held = Step-held step inv;
      deleted = Step-deleted step inv;
      intact = Step-intact step inv;
      other = Step-other step inv;
      there = Step-there step inv;
      locked = Step-locked step inv;
    }
