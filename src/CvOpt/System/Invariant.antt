-- ===== src/CvOpt/System/Invariant.antt =====
-- What holds in every state of the threads around one condition variable.
use roo_threads.Base.{
  ℕ, ◌≤◌, ◌≡◌, refl, ◌⊎◌, Bool, true, false, List, [], ◌∷◌, Option, none, some, if◌then◌else◌, ltb,
  arith,
}
use roo_threads.Kernel.{TaskNotify}
use roo_threads.CvOpt.{notify_one, notify_all}
use roo_threads.CvOpt.Count.{
  count, count-condition_variable_opt, count-enqueue, count-dequeue, count-notify_one,
  count-notify_all, occurrences, hit,
}
use roo_threads.CvOpt.System.{
  Pc, holding, waiting, woken, relocked, System, Step, lock_mutex, unlock_mutex, start_wait,
  overflow, expired_at_once, wake, time_out, relock, finish_wait, signal, broadcast, IsInit, new,
  Reach, start, later, notify_task, notify_tasks,
}

-- The thread has the mutex.
abbrev pub has_mutex : Pc → Bool
has_mutex holding = true
has_mutex (relocked _) = true
has_mutex _ = false

-- The thread is between the two critical sections of a wait.
abbrev pub in_wait : Pc → Bool
in_wait (waiting _) = true
in_wait (woken _) = true
in_wait (relocked _) = true
in_wait _ = false

-- The thread sleeps until its notification is pending.
abbrev pub is_waiting : Pc → Bool
is_waiting (waiting _) = true
is_waiting _ = false

module _ (K : TaskNotify) where
  open K use {State, pending, notify, receive, pending-notify, pending-receive}

  pub record Inv (s : System K) : Type 0 where
    pub owned : (i : ℕ) → has_mutex (s.pc i) ≡ true → s.owner ≡ some i
    pub once : (i : ℕ) → count i s.slots ≤ 1
    pub absent : (i : ℕ) → in_wait (s.pc i) ≡ false → count i s.slots ≡ 0
    pub reachable :
        (i : ℕ) → is_waiting (s.pc i) ≡ true → (count i s.slots ≡ 1) ⊎ (pending s.kernel i ≡ true)

  IsInit-Inv : (s : System K) → IsInit K s → Inv s
  IsInit-Inv s (new memory e o p) = record {
    owned = λ i h. ground (arith, p i);
    once = λ i. ground (arith, count-condition_variable_opt i memory);
    absent = λ i h. ground (arith, count-condition_variable_opt i memory);
    reachable = λ i h. ground (arith, p i);
  }

  pub pending-notify_tasks :
      (ts : List ℕ) (k : State) (i : ℕ)
      → pending (notify_tasks K ts k) i ≡ (if ltb 0 (occurrences i ts) then true else pending k i)
  unfolding notify_tasks occurrences
  pending-notify_tasks [] k i = refl
  pending-notify_tasks (t ∷ ts) k i =
      ground (arith, pending-notify_tasks ts (notify t k) i, pending-notify t i k)

  Step-owned :
      {s t : System K} → Step K s t → Inv s → (i : ℕ) → has_mutex (t.pc i) ≡ true → t.owner ≡ some i
  Step-owned (lock_mutex j e o) inv i h = ground (arith, inv.owned i)
  Step-owned (relock j st e o) inv i h = ground (arith, inv.owned i)
  Step-owned (unlock_mutex j e) inv i h = ground (arith, inv.owned i, inv.owned j)
  Step-owned (start_wait j b e q) inv i h = ground (arith, inv.owned i, inv.owned j)
  Step-owned (overflow j e q) inv i h = ground (arith, inv.owned i, inv.owned j)
  Step-owned (wake j b e q) inv i h = ground (arith, inv.owned i, inv.owned j)
  Step-owned (time_out j e) inv i h = ground (arith, inv.owned i, inv.owned j)
  Step-owned (finish_wait j st e) inv i h = ground (arith, inv.owned i, inv.owned j)
  Step-owned (expired_at_once j e) inv i h = inv.owned i h
  Step-owned (signal p) inv i h = inv.owned i h
  Step-owned broadcast inv i h = inv.owned i h

  pub pending-notify_task :
      (o : Option ℕ) (k : State) (i : ℕ)
      → pending (notify_task K o k) i ≡ (if ltb 0 (hit i o) then true else pending k i)
  unfolding notify_task
  pending-notify_task none k i = refl
  pending-notify_task (some t) k i = ground (arith, pending-notify t i k)

  Step-once : {s t : System K} → Step K s t → Inv s → (i : ℕ) → count i t.slots ≤ 1
  Step-once {s} (start_wait j b e q) inv i =
      ground (arith, count-enqueue i j s.slots, inv.once i, inv.absent j)
  Step-once {s} (overflow j e q) inv i = ground (arith, count-enqueue i j s.slots, inv.once i)
  Step-once {s} (finish_wait j st e) inv i = ground (arith, count-dequeue i j s.slots, inv.once i)
  Step-once {s} (signal p) inv i = omega (arith, count-notify_one p i s.slots, inv.once i)
  Step-once {s} broadcast inv i = omega (arith, (count-notify_all i s.slots).0)
  Step-once step inv i = inv.once i

  Step-absent :
      {s t : System K}
      → Step K s t
      → Inv s
      → (i : ℕ) → in_wait (t.pc i) ≡ false
      → count i t.slots ≡ 0
  Step-absent {s} (start_wait j b e q) inv i h =
      ground (arith, count-enqueue i j s.slots, inv.absent i)
  Step-absent {s} (overflow j e q) inv i h =
      ground (arith, count-enqueue i j s.slots, inv.absent i, inv.absent j)
  Step-absent {s} (finish_wait j st e) inv i h =
      ground (arith, count-dequeue i j s.slots, inv.once i, inv.absent i)
  Step-absent {s} (signal p) inv i h = omega (arith, count-notify_one p i s.slots, inv.absent i h)
  Step-absent {s} broadcast inv i h = (count-notify_all i s.slots).0
  Step-absent (expired_at_once j e) inv i h = inv.absent i h
  Step-absent (lock_mutex j e o) inv i h = ground (arith, inv.absent i, inv.absent j)
  Step-absent (unlock_mutex j e) inv i h = ground (arith, inv.absent i, inv.absent j)
  Step-absent (wake j b e q) inv i h = ground (arith, inv.absent i)
  Step-absent (time_out j e) inv i h = ground (arith, inv.absent i)
  Step-absent (relock j st e o) inv i h = ground (arith, inv.absent i)

  Step-reachable :
      {s t : System K}
      → Step K s t
      → Inv s
      → (i : ℕ) → is_waiting (t.pc i) ≡ true
      → (count i t.slots ≡ 1) ⊎ (pending t.kernel i ≡ true)
  Step-reachable {s} (start_wait j b e q) inv i h =
      ground (arith, count-enqueue i j s.slots, inv.reachable i, inv.absent j)
  Step-reachable {s} (overflow j e q) inv i h =
      ground (arith, count-enqueue i j s.slots, inv.reachable i)
  Step-reachable {s} (finish_wait j st e) inv i h =
      ground (arith, count-dequeue i j s.slots, inv.reachable i)
  Step-reachable {s} (wake j b e q) inv i h =
      ground (arith, pending-receive j i s.kernel, inv.reachable i)
  Step-reachable {s} (signal p) inv i h = ground (
    arith,
    count-notify_one p i s.slots,
    pending-notify_task (notify_one p s.slots).1 s.kernel i,
    inv.reachable i,
  )
  Step-reachable {s} broadcast inv i h = ground (
    arith,
    count-notify_all i s.slots,
    pending-notify_tasks (notify_all s.slots).1 s.kernel i,
    inv.reachable i,
  )
  Step-reachable (expired_at_once j e) inv i h = inv.reachable i h
  Step-reachable (lock_mutex j e o) inv i h = ground (arith, inv.reachable i)
  Step-reachable (unlock_mutex j e) inv i h = ground (arith, inv.reachable i)
  Step-reachable (time_out j e) inv i h = ground (arith, inv.reachable i)
  Step-reachable (relock j st e o) inv i h = ground (arith, inv.reachable i)

  -- Every step keeps the invariant.
  pub Step-Inv : {s t : System K} → Step K s t → Inv s → Inv t
  Step-Inv step inv = record {
    owned = Step-owned step inv;
    once = Step-once step inv;
    absent = Step-absent step inv;
    reachable = Step-reachable step inv;
  }

  pub Reach-Inv : {s : System K} → Reach K s → Inv s
  Reach-Inv (start init) = IsInit-Inv _ init
  Reach-Inv (later r step) = Step-Inv step (Reach-Inv r)
