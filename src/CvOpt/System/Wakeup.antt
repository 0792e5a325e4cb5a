-- ===== src/CvOpt/System/Wakeup.antt =====
-- What the optimized condition variable promises to its users.
use roo_threads.Base.{
  refl, ℕ, ◌+◌, ◌≤◌, ◌<◌, ◌≡◌, ◌≢◌, ◌⊎◌, inl, inr, Bool, true, false, none, some, ◌==◌, arith,
  Bool-cases,
}
use roo_threads.Base.Runs.{Run, here, next}
use roo_threads.Kernel.{TaskNotify}
use roo_threads.CvOpt.{notify_one, notify_all}
use roo_threads.CvOpt.Count.{count, count-notify_one, count-notify_all, count-Holds, Holds-count}
use roo_threads.CvOpt.Choice.{Holds, notify_one-IsChoice}
use native.Mathlib.Decide.{ℕ_discrete}
use roo_threads.CvOpt.System.{
  waiting, woken, relocked, timeout, System, Own, Reach, relock, notify_task, notify_tasks,
}
use roo_threads.CvOpt.System.Invariant.{
  has_mutex, in_wait, Reach-Inv, pending-notify_task, pending-notify_tasks,
}

module _ (K : TaskNotify) where
  open K use {pending}

  -- In every reachable state a thread that sleeps in `xTaskNotifyWait` is in the table, where
  -- the next `notify_all` finds it, or its notification is pending already.
  pub no_lost_wakeup :
      {s : System K} (i : ℕ) (timed : Bool)
      → Reach K s
      → s.pc i ≡ waiting timed
      → ((k : ℕ) × Holds s.slots k i) ⊎ (pending s.kernel i ≡ true)
  no_lost_wakeup {s} i timed r e = elim ((Reach-Inv K r).reachable i (ground arith)) [
    | inl c ↦ inl (count-Holds s.slots i (omega arith))
    | inr p ↦ inr p
  ]

  -- In a reachable state `notify_all` leaves the notification of every thread that sleeps pending,
  -- and the table empty.
  pub notify_all_wakes :
      {s : System K} (i : ℕ) (timed : Bool)
      → Reach K s
      → s.pc i ≡ waiting timed
      → (pending (notify_tasks K (notify_all s.slots).1 s.kernel) i ≡ true)
        × ((k t : ℕ) → ¬ Holds (notify_all s.slots).0 k t)
  notify_all_wakes {s} i timed r e = (
    ground (
      arith,
      (Reach-Inv K r).reachable i,
      count-notify_all i s.slots,
      pending-notify_tasks K (notify_all s.slots).1 s.kernel i,
    ),
    λ k t h.
        omega (arith, Holds-count (notify_all s.slots).0 k t h, (count-notify_all t s.slots).0),
  )

  -- What `notify_one` does to the table and to the notifications when it picks `j`.
  record IsEffect (s : System K) (priority : ℕ → ℕ) (j : ℕ) : Type 0 where
    told : pending (notify_task K (notify_one priority s.slots).1 s.kernel) j ≡ true
    left : count j (notify_one priority s.slots).0 + 1 ≡ count j s.slots
    kept : (t : ℕ) → t ≢ j → count t (notify_one priority s.slots).0 ≡ count t s.slots
    quiet :
        (t : ℕ)
        → t ≢ j
        → pending (notify_task K (notify_one priority s.slots).1 s.kernel) t ≡ pending s.kernel t

  effect :
      (s : System K) (priority : ℕ → ℕ) (j : ℕ)
      → (notify_one priority s.slots).1 ≡ some j
      → IsEffect s priority j
  effect s priority j e = record {
    told = ground (arith, pending-notify_task K (notify_one priority s.slots).1 s.kernel j);
    left = ground (arith, count-notify_one priority j s.slots);
    kept = λ t ne. ground (arith, count-notify_one priority t s.slots);
    quiet =
        λ t ne. ground (arith, pending-notify_task K (notify_one priority s.slots).1 s.kernel t);
  }

  -- A registered thread is inside a wait.
  in_wait-registered :
      {s : System K} (j : ℕ) → Reach K s → 0 < count j s.slots → in_wait (s.pc j) ≡ true
  in_wait-registered {s} j r h = elim (Bool-cases (in_wait (s.pc j))) [
    | inl yes' ↦ yes'
    | inr no' ↦ absurd (omega (arith, (Reach-Inv K r).absent j no'))
  ]

  -- In a reachable state where a thread sleeps with no notification pending, `notify_one` leaves
  -- the notification of some thread pending that is inside a wait and has no lower priority, and
  -- takes that thread, and no other, out of the table.
  pub notify_one_wakes :
      {s : System K} (priority : ℕ → ℕ) (i : ℕ) (timed : Bool)
      → Reach K s
      → s.pc i ≡ waiting timed
      → pending s.kernel i ≡ false
      → let r = notify_one priority s.slots in
        (j : ℕ) × (in_wait (s.pc j) ≡ true)
        × (priority i ≤ priority j)
        × (pending (notify_task K r.1 s.kernel) j ≡ true)
        × (count j r.0 ≡ 0)
        × ((t : ℕ) → t ≢ j → count t r.0 ≡ count t s.slots)
  notify_one_wakes {s} priority i timed r e p =
      let (k, held) = count-Holds s.slots i (ground (arith, (Reach-Inv K r).reachable i)) in
      elim (notify_one-IsChoice priority s.slots) [
        | inl (_, empty) ↦ absurd (empty k i held)
        | inr (l, j, f, c) ↦
            let x = effect s priority j (ground arith) in
            (
              j,
              in_wait-registered j r (omega (arith, x.left)),
              c.highest k i held,
              x.told,
              omega (arith, x.left, (Reach-Inv K r).once j),
              x.kept,
            )
      ]

  -- Two threads that are back from a wait, or otherwise have the mutex, are one.
  pub mutex_held_once :
      {s : System K} (i j : ℕ)
      → Reach K s
      → has_mutex (s.pc i) ≡ true
      → has_mutex (s.pc j) ≡ true
      → i ≡ j
  mutex_held_once i j r h k = ground (arith, (Reach-Inv K r).owned i, (Reach-Inv K r).owned j)

  -- The state right after a call of `notify_one`.
  abbrev pub after_notify_one : (ℕ → ℕ) → System K → System K
  after_notify_one priority s = record s {
    slots = (notify_one priority s.slots).0;
    kernel = notify_task K (notify_one priority s.slots).1 s.kernel;
  }

  -- A thread whose wait has timed out stays in the table until it has the mutex again. In a
  -- reachable state where such a thread has a higher priority than every other task in the table,
  -- and the mutex is free, `notify_one` is spent on it: it picks this thread and takes it out of the
  -- table, and leaves every other thread as registered and as notified as before. From the state
  -- right after the call the thread, by its own steps alone, comes back with the mutex and `timeout`,
  -- while no other thread's place, registration or notification changes.
  pub notify_one_on_timed_out :
      (s : System K) (priority : ℕ → ℕ) (k j : ℕ)
      → Reach K s
      → s.owner ≡ none
      → s.pc j ≡ woken timeout
      → Holds s.slots k j
      → ((l t : ℕ) → Holds s.slots l t → t ≢ j → priority t < priority j)
      → let t = after_notify_one priority s in
        ((notify_one priority s.slots).1 ≡ some j)
        × (count j t.slots ≡ 0)
        × ((i : ℕ)
            → i ≢ j
            → (count i t.slots ≡ count i s.slots) × (pending t.kernel i ≡ pending s.kernel i))
        × (u : System K) × Run (Own K (λ i. i == j)) t u
        × (u.pc j ≡ relocked timeout)
        × (u.owner ≡ some j)
        × ((i : ℕ)
            → i ≢ j
            → (count i u.slots ≡ count i s.slots)
              × (pending u.kernel i ≡ pending s.kernel i)
              × (u.pc i ≡ s.pc i))
  notify_one_on_timed_out s priority k j r o e h low = elim (notify_one-IsChoice priority s.slots) [
    | inl (_, empty) ↦ absurd (empty k j h)
    | inr (l, t, f, c) ↦
        let same : t ≡ j = elim (ℕ_discrete t j) [
          | yes q ↦ q
          | no q ↦ absurd (omega (arith, low l t c.held q, c.highest k j h))
        ] in
        let picked : (notify_one priority s.slots).1 ≡ some j = ground arith in
        let x = effect s priority j picked in
        (
          picked,
          omega (arith, x.left, (Reach-Inv K r).once j),
          (λ i ne. (x.kept i ne, x.quiet i ne)),
          _,
          next here (relock j timeout e o, j, refl, ground arith),
          ground arith,
          refl,
          λ i ne. (x.kept i ne, x.quiet i ne, ground arith),
        )
  ]
