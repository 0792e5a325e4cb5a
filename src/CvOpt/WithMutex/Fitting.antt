-- ===== src/CvOpt/WithMutex/Fitting.antt =====
-- Which members of the mutex a thread is in, at each place in the condition variable.
use roo_threads.Base.{ℕ, ◌≡◌, Bool, true, false, arith}
use roo_threads.Kernel.{TaskNotify, MutexKernel}
use roo_threads.Mutex.System as MutexSystem
use roo_threads.Mutex.System.{
  Op, lock, try_lock, unlock, Pc, idle, owning, check, entering, recheck, creating, marking,
  leaving, ready, call, call_unlock, is_ready, not_ready, enter, too_late, first, creates, marks,
  leaves, acquire, refuse, gives,
}
use roo_threads.CvOpt.WithMutex.{
  CvPc, user, unlocking, waiting, woken, aborted, System, Permits, Step, in_mutex, enqueues, exits,
  wakes, times_out, dequeues, signal, broadcast, new, Reach, start, later,
}

abbrev pub same_op : Op → Op → Bool
same_op lock lock = true
same_op try_lock try_lock = true
same_op unlock unlock = true
same_op _ _ = false

-- In no member of the mutex but the one given.
abbrev pub uses : Op → Pc → Bool
uses op idle = true
uses op owning = true
uses op (check o) = same_op op o
uses op (entering o) = same_op op o
uses op (recheck o) = same_op op o
uses op (creating o) = same_op op o
uses op (marking o) = same_op op o
uses op (leaving o) = same_op op o
uses op (ready o) = same_op op o

abbrev pub is_idle : Pc → Bool
is_idle idle = true
is_idle _ = false

abbrev pub fits : CvPc → Pc → Bool
fits user p = true
fits (unlocking timed queued) p = uses unlock p
fits (waiting timed) p = is_idle p
fits (woken status) p = uses lock p
fits aborted p = is_idle p

module _ (K : TaskNotify) (M : MutexKernel) where
  abbrev pub Fitting : System K M → Type 0
  Fitting s = (i : ℕ) → fits (s.cv i) (s.mutex.pc i) ≡ true

  mutex-Fitting :
      {m m' : MutexSystem.System M} (cv : ℕ → CvPc) (step : MutexSystem.Step M m m')
      → Permits K M cv step
      → (i : ℕ) → ((k : ℕ) → fits (cv k) (m.pc k) ≡ true)
      → fits (cv i) (m'.pc i) ≡ true
  mutex-Fitting cv (call j op e ne) p i h = ground (arith, h i)
  mutex-Fitting cv (call_unlock j e) p i h = ground (arith, h i)
  mutex-Fitting cv (is_ready j op e f) p i h = ground (arith, h i)
  mutex-Fitting cv (not_ready j op e f) p i h = ground (arith, h i)
  mutex-Fitting cv (enter j op e f) p i h = ground (arith, h i)
  mutex-Fitting cv (too_late j op e f) p i h = ground (arith, h i)
  mutex-Fitting cv (first j op e f) p i h = ground (arith, h i)
  mutex-Fitting cv (creates j op e) p i h = ground (arith, h i)
  mutex-Fitting cv (marks j op e) p i h = ground (arith, h i)
  mutex-Fitting cv (leaves j op e) p i h = ground (arith, h i)
  mutex-Fitting cv (acquire j op e ne f) p i h = ground (arith, h i)
  mutex-Fitting cv (refuse j e f) p i h = ground (arith, h i)
  mutex-Fitting cv (gives j e) p i h = ground (arith, h i)

  Step-Fitting : {s t : System K M} → Step K M s t → Fitting s → Fitting t
  Step-Fitting {s} (in_mutex step p) h i = mutex-Fitting s.cv step p i h
  Step-Fitting (enqueues j timed e o n) h i = ground (arith, h i)
  Step-Fitting (exits j timed queued e o) h i = ground (arith, h i)
  Step-Fitting (wakes j timed e p) h i = ground (arith, h i)
  Step-Fitting (times_out j e) h i = ground (arith, h i)
  Step-Fitting (dequeues j status e o n) h i = ground (arith, h i)
  Step-Fitting (signal priority n) h i = h i
  Step-Fitting (broadcast n) h i = h i

  pub Reach-Fitting : {s : System K M} → Reach K M s → Fitting s
  Reach-Fitting (start (new memory e f c n p)) = λ i. ground (arith, p i)
  Reach-Fitting (later r step) = Step-Fitting step (Reach-Fitting r)

  -- The mutex is in a state that its members lead to.
  pub Reach-mutex : {s : System K M} → Reach K M s → MutexSystem.Reach M s.mutex
  Reach-mutex {s} (start (new memory e f c n p)) =
      MutexSystem.Reach.start s.mutex f c (λ i. (p i).0)
  Reach-mutex (later r (in_mutex step p)) = MutexSystem.Reach.later (Reach-mutex r) step
  Reach-mutex (later r (enqueues j timed e o n)) = Reach-mutex r
  Reach-mutex (later r (exits j timed queued e o)) = Reach-mutex r
  Reach-mutex (later r (wakes j timed e p)) = Reach-mutex r
  Reach-mutex (later r (times_out j e)) = Reach-mutex r
  Reach-mutex (later r (dequeues j status e o n)) = Reach-mutex r
  Reach-mutex (later r (signal priority n)) = Reach-mutex r
  Reach-mutex (later r (broadcast n)) = Reach-mutex r
