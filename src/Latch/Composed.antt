-- ===== src/Latch/Composed.antt =====
-- latch.h over condition_variable_opt.cpp: the latch's threads are those of CvOpt.System, with their mutex,
-- table and notifications. A thread in wait() looks at the counter each time that it has the mutex
-- and only sleeps where it is not zero.
use roo_threads.Base.{
  ℕ, ◌≡◌, ◌≢◌, refl, inl, inr, Bool, true, false, Option, none, some, Bool-cases, if◌then◌else◌,
  arith,
}
use roo_threads.Base.Int.{ℤ, pos, ◌-ℤ◌}
use roo_threads.Base.Runs.{Run, here, next}
use roo_threads.Kernel.{TaskNotify}
use roo_threads.CvOpt.{notify_one, notify_all}
use roo_threads.CvOpt.Count.{count-notify_all}
use roo_threads.CvOpt.System
use roo_threads.CvOpt.System.{
  Pc, holding, waiting, no_timeout, System, Step, lock_mutex, unlock_mutex, start_wait, overflow,
  expired_at_once, wake, time_out, relock, finish_wait, signal, broadcast, IsInit, notify_tasks,
  notify_task,
}
use roo_threads.CvOpt.System.Invariant.{
  is_waiting, Reach-Inv, pending-notify_tasks, pending-notify_task,
}
use roo_threads.Latch.{is_zero}

module _ (K : TaskNotify) where
  open K use {pending, pending-receive}

  pub record Composed : Type 0 where
    pub count : ℤ
    pub threads : System K

  -- A step by which a thread falls asleep.
  abbrev pub sleeps : {s t : System K} → Step K s t → Bool
  sleeps (start_wait i timed e q) = true
  sleeps _ = false

  -- The body of count_down(n), which its thread runs while it has the mutex.
  unfoldable pub count_down : ℤ → Composed → Composed
  count_down n s =
      let left = s.count -ℤ n in
      let r = notify_all s.threads.slots in
      record {
        count = left;
        threads =
            if is_zero left
            then record s.threads { slots = r.0; kernel = notify_tasks K r.1 s.threads.kernel }
            else s.threads;
      }

  pub data Moves (s : Composed) : Composed → Type 0 where
    -- any other step of the mutex, of the condition variable, or of other users of its tasks'
    -- notifications
    moves :
        {t : System K} (step : Step K s.threads t)
        → sleeps step ≡ false
        → Moves s (record s { threads = t })
    -- `while (!pred()) wait(lock);`
    waits :
        {t : System K} (step : Step K s.threads t)
        → is_zero s.count ≡ false
        → Moves s (record s { threads = t })
    counts_down : (i : ℕ) (n : ℤ) → s.threads.pc i ≡ holding → Moves s (count_down n s)

  -- A step that one thread takes itself: not a notification that others may send.
  abbrev pub actor : {s t : Composed} → Moves s t → Option ℕ
  actor (moves step quiet) = System.mover K step
  actor (waits step shut) = System.mover K step
  actor (counts_down i n e) = some i

  abbrev pub Own : ℕ → Composed → Composed → Type 0
  Own i s t = (move : Moves s t) × (actor move ≡ some i)

  pub data Runs (first : ℤ) : Composed → Type 0 where
    constructed : (s : System K) → IsInit K s → Runs first (record { count = first; threads = s })
    later : {s t : Composed} → Runs first s → Moves s t → Runs first t

  -- The threads of a latch are threads of the condition variable.
  count_down-Reach :
      (n : ℤ) (s : Composed) → System.Reach K s.threads → System.Reach K (count_down n s).threads
  unfolding count_down
  count_down-Reach n s r = elim (Bool-cases (is_zero (s.count -ℤ n))) [
    | inl e ↦ rw e (System.later r broadcast)
    | inr e ↦ rw e r
  ]

  Runs-Reach : {first : ℤ} {s : Composed} → Runs first s → System.Reach K s.threads
  Runs-Reach (constructed s init) = System.start init
  Runs-Reach (later r (moves step quiet)) = System.later (Runs-Reach r) step
  Runs-Reach (later r (waits step open')) = System.later (Runs-Reach r) step
  Runs-Reach (later {s} r (counts_down i n e)) = count_down-Reach n s (Runs-Reach r)

  -- Every thread that sleeps in the condition variable has been notified.
  abbrev pub AllNotified : System K → Type 0
  AllNotified s = (i : ℕ) → is_waiting (s.pc i) ≡ true → pending s.kernel i ≡ true

  -- A step by which no thread falls asleep leaves it so.
  Step-AllNotified :
      {s t : System K} (step : Step K s t) → sleeps step ≡ false → AllNotified s → AllNotified t
  Step-AllNotified {s} (lock_mutex j e o) quiet h i w = ground (arith, h i)
  Step-AllNotified {s} (unlock_mutex j e) quiet h i w = ground (arith, h i)
  Step-AllNotified {s} (start_wait j b e q) quiet h i w = cc
  Step-AllNotified {s} (overflow j e q) quiet h i w = ground (arith, h i)
  Step-AllNotified {s} (expired_at_once j e) quiet h i w = h i w
  Step-AllNotified {s} (wake j b e q) quiet h i w =
      ground (arith, h i, pending-receive j i s.kernel)
  Step-AllNotified {s} (time_out j e) quiet h i w = ground (arith, h i)
  Step-AllNotified {s} (relock j st e o) quiet h i w = ground (arith, h i)
  Step-AllNotified {s} (finish_wait j st e) quiet h i w = ground (arith, h i)
  Step-AllNotified {s} (signal p) quiet h i w =
      ground (arith, h i, pending-notify_task K (notify_one p s.slots).1 s.kernel i)
  Step-AllNotified {s} broadcast quiet h i w =
      ground (arith, h i, pending-notify_tasks K (notify_all s.slots).1 s.kernel i)

  count_down-AllNotified :
      (n : ℤ) (s : Composed)
      → System.Reach K s.threads
      → is_zero (count_down n s).count ≡ true
      → AllNotified (count_down n s).threads
  unfolding count_down
  count_down-AllNotified n s r z i w = ground (
    arith,
    (Reach-Inv K r).reachable i,
    count-notify_all i s.threads.slots,
    pending-notify_tasks K (notify_all s.threads.slots).1 s.threads.kernel i,
  )

  -- In a reachable state of a latch whose counter is zero, each thread that is asleep in wait() has its
  -- notification pending.
  pub zero_notifies :
      {first : ℤ} {s : Composed} → Runs first s → is_zero s.count ≡ true → AllNotified s.threads
  zero_notifies (constructed s (System.new memory e o p)) z = λ i w. ground (arith, p i)
  zero_notifies (later r (moves step quiet)) z = Step-AllNotified step quiet (zero_notifies r z)
  zero_notifies (later r (waits step open')) z = λ i w. cc
  zero_notifies (later {s} r (counts_down j n e)) z = count_down-AllNotified n s (Runs-Reach r) z

  -- In a reachable state of a latch whose counter is zero, a thread that is asleep in wait() has its
  -- notification pending; and if the mutex is free, there is a run from this state, of steps of this
  -- thread alone, by which it comes back from the condition variable with the mutex, and the counter is still
  -- zero, so that its loop ends, while no other thread's place changes.
  pub zero_wakes :
      {first : ℤ} {s : Composed} (i : ℕ) (timed : Bool)
      → Runs first s
      → s.count ≡ pos 0
      → s.threads.pc i ≡ waiting timed
      → (pending s.threads.kernel i ≡ true)
        × (s.threads.owner ≡ none
            → (t : Composed) × Run (Own i) s t
              × (t.count ≡ pos 0)
              × (t.threads.pc i ≡ holding)
              × (t.threads.owner ≡ some i)
              × ((k : ℕ) → k ≢ i → t.threads.pc k ≡ s.threads.pc k))
  zero_wakes {s} i timed r z e =
      let told : pending s.threads.kernel i ≡ true =
        zero_notifies r (ground arith) i (ground arith) in
      (
        told,
        λ free. (
          _,
          next
              (next (next here (moves (wake i timed e told) refl, refl))
                (moves (relock i no_timeout (ground arith) free) refl, refl))
              (moves (finish_wait i no_timeout (ground arith)) refl, refl),
          z,
          ground arith,
          refl,
          λ k ne. ground arith,
        ),
      )
