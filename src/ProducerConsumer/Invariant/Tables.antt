-- ===== src/ProducerConsumer/Invariant/Tables.antt =====
-- Who stands in the tables of the two condition variables, under the operations on one of them.
use roo_threads.Base.{ℕ, ◌<◌, ◌≡◌, ◌≢◌, ◌⊎◌, inl, inr, true, arith}
use roo_threads.Kernel.{TaskNotify}
use roo_threads.CvOpt.{enqueue, dequeue, notify_all}
use roo_threads.CvOpt.Count.{count, count-enqueue, count-dequeue, count-notify_all}
use roo_threads.CvOpt.System.{notify_tasks}
use roo_threads.CvOpt.System.Invariant.{pending-notify_tasks}
use roo_threads.ProducerConsumer.{Condition, nonfull, nonempty, Tables, set_table}

abbrev pub Registered : ℕ → Condition → Tables → Type 0
Registered i c ts = 0 < count i (ts c)

module _ (i : ℕ) (ts : Tables) where
  pub enqueue-Registered :
      (j : ℕ) (c d : Condition)
      → Registered i d ts
      → Registered i d (set_table ts c (enqueue j (ts c)).0)
  enqueue-Registered j nonfull nonfull h = omega (arith, count-enqueue i j (ts nonfull))
  enqueue-Registered j nonfull nonempty h = h
  enqueue-Registered j nonempty nonfull h = h
  enqueue-Registered j nonempty nonempty h = omega (arith, count-enqueue i j (ts nonempty))

  pub enqueue_self :
      (c : Condition)
      → (enqueue i (ts c)).1 ≡ true
      → Registered i c (set_table ts c (enqueue i (ts c)).0)
  enqueue_self nonfull h = ground (arith, count-enqueue i i (ts nonfull))
  enqueue_self nonempty h = ground (arith, count-enqueue i i (ts nonempty))

  pub dequeue-Registered :
      (j : ℕ) (c d : Condition)
      → j ≢ i
      → Registered i d ts
      → Registered i d (set_table ts c (dequeue j (ts c)))
  dequeue-Registered j nonfull nonfull ne h = ground (arith, count-dequeue i j (ts nonfull))
  dequeue-Registered j nonfull nonempty ne h = h
  dequeue-Registered j nonempty nonfull ne h = h
  dequeue-Registered j nonempty nonempty ne h = ground (arith, count-dequeue i j (ts nonempty))

  module _ (K : TaskNotify) (k : K.State) where
    open K use {pending}

    -- After `notify_all` on a condition variable nobody sleeps on it with no notification.
    pub notify_all_tells :
        (c : Condition)
        → Registered i c ts ⊎ (pending k i ≡ true)
        → pending (notify_tasks K (notify_all (ts c)).1 k) i ≡ true
    notify_all_tells c h =
        ground (arith, count-notify_all i (ts c), pending-notify_tasks K (notify_all (ts c)).1 k i)

    pub pending-notify_all :
        (c : Condition)
        → pending k i ≡ true
        → pending (notify_tasks K (notify_all (ts c)).1 k) i ≡ true
    pending-notify_all c h = notify_all_tells c (inr h)

    pub notify_all-Registered :
        (c d : Condition)
        → Registered i d ts ⊎ (pending k i ≡ true)
        → Registered i d (set_table ts c (notify_all (ts c)).0)
          ⊎ (pending (notify_tasks K (notify_all (ts c)).1 k) i ≡ true)
    notify_all-Registered nonfull nonfull h = inr (notify_all_tells nonfull h)
    notify_all-Registered nonempty nonempty h = inr (notify_all_tells nonempty h)
    notify_all-Registered nonfull nonempty (inl h) = inl h
    notify_all-Registered nonempty nonfull (inl h) = inl h
    notify_all-Registered c d (inr h) = inr (pending-notify_all c h)
