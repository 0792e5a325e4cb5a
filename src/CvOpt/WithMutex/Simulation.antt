-- ===== src/CvOpt/WithMutex/Simulation.antt =====
-- The steps of the threads around one condition variable and its mutex, both in detail, as steps of the
-- threads of CvOpt/System.
use roo_threads.Base.{ℕ, ◌≡◌, refl, sym, ◌≢◌, ◌⊎◌, inl, inr, Bool, true, false, none, some, arith}
use mathlib.Core.Path.{subst}
use roo_threads.Base.Family.{update}
use roo_threads.Kernel.{TaskNotify, MutexKernel}
use roo_threads.CvOpt.{enqueue, dequeue}
use roo_threads.Mutex.System as MutexSystem
use roo_threads.Mutex.System.{
  Op, lock, try_lock, unlock, idle, owning, check, entering, recheck, creating, marking, leaving,
  ready, call, call_unlock, is_ready, not_ready, enter, too_late, first, creates, marks, leaves,
  acquire, refuse, gives,
}
use roo_threads.Mutex.System.Invariant as MutexInvariant
use roo_threads.Mutex.System.Invariant.{owns}
use roo_threads.CvOpt.System as Abstract
use roo_threads.CvOpt.System.{Pc, outside, holding, relocked}
use roo_threads.CvOpt.WithMutex.{
  CvPc, user, unlocking, waiting, woken, aborted, System, Permits, Step, in_mutex, enqueues, exits,
  wakes, times_out, dequeues, signal, broadcast, IsInit, new, Reach, start, later,
}
use roo_threads.CvOpt.WithMutex.Fitting.{fits, Fitting, Reach-Fitting, Reach-mutex}
use roo_threads.CvOpt.Choice.{Holds}
use roo_threads.CvOpt.System.Wakeup.{no_lost_wakeup}
use roo_threads.CvOpt.WithMutex.Refinement.{gives_up, abstract, Simulates, stays, goes, mutex-stays}

module _ (K : TaskNotify) (M : MutexKernel) where
  abbrev taken_by : System K M → ℕ → System K M
  taken_by s j = record s {
    mutex = record s.mutex { sem = (M.take j s.mutex.sem).0; pc = update s.mutex.pc j owning };
  }

  abbrev given_by : System K M → ℕ → System K M
  given_by s j = record s {
    mutex = record s.mutex { sem = M.give j s.mutex.sem; pc = update s.mutex.pc j idle };
  }

  abbrev queued_by : System K M → ℕ → Bool → System K M
  queued_by s i timed = record s {
    slots = (enqueue i s.slots).0;
    section = some i;
    cv = update s.cv i (unlocking timed (enqueue i s.slots).1);
  }

  -- The thread `j` gets the mutex.
  acquired :
      (s : System K M) (j : ℕ) (op : Op) (c : CvPc)
      → s.cv j ≡ c
      → s.mutex.pc j ≡ ready op
      → op ≢ unlock
      → (M.take j s.mutex.sem).1 ≡ true
      → MutexInvariant.Inv M s.mutex
      → fits c (s.mutex.pc j) ≡ true
      → Simulates K M s (taken_by s j)
  acquired s j op user c e ne f inv fit =
      goes K M s (taken_by s j)
        (record (abstract K M s) { owner = some j; pc = update (abstract K M s).pc j holding })
        (Abstract.lock_mutex j (ground arith) (ground (arith, M.take_free j s.mutex.sem))) refl refl
        (ground (arith, inv.created j, M.holder-take j s.mutex.sem)) (λ i. ground arith)
  acquired s j op (woken status) c e ne f inv fit =
      goes K M s (taken_by s j)
        (record (abstract K M s) {
          owner = some j;
          pc = update (abstract K M s).pc j (relocked status);
        })
        (Abstract.relock j status (ground arith) (ground (arith, M.take_free j s.mutex.sem))) refl
        refl (ground (arith, inv.created j, M.holder-take j s.mutex.sem)) (λ i. ground arith)
  acquired s j op (unlocking timed queued) c e ne f inv fit = absurd (ground arith)
  acquired s j op (waiting timed) c e ne f inv fit = absurd (ground arith)
  acquired s j op aborted c e ne f inv fit = absurd (ground arith)

  -- The thread `j` gives the mutex back.
  given :
      (s : System K M) (j : ℕ) (c : CvPc)
      → s.cv j ≡ c
      → s.mutex.pc j ≡ ready unlock
      → MutexInvariant.Inv M s.mutex
      → fits c (s.mutex.pc j) ≡ true
      → Simulates K M s (given_by s j)
  given s j user c e inv fit =
      goes K M s (given_by s j)
        (record (abstract K M s) { owner = none; pc = update (abstract K M s).pc j outside })
        (Abstract.unlock_mutex j (ground arith)) refl refl
        (ground (arith, inv.held j, M.holder-give j s.mutex.sem)) (λ i. ground arith)
  given s j (unlocking timed queued) c e inv fit =
      stays K M s (given_by s j) refl refl (ground (arith, inv.held j, M.holder-give j s.mutex.sem))
        (λ i. ground arith)
  given s j (woken status) c e inv fit = absurd (ground arith)
  given s j (waiting timed) c e inv fit = absurd (ground arith)
  given s j aborted c e inv fit = absurd (ground arith)

  in_mutex-Simulates :
      (s : System K M) {m : MutexSystem.System M} (step : MutexSystem.Step M s.mutex m)
      → Permits K M s.cv step
      → MutexInvariant.Inv M s.mutex
      → Fitting K M s
      → Simulates K M s (record s { mutex = m })
  in_mutex-Simulates s {m} (call j op e ne) p inv fit = mutex-stays K M s m refl (λ i. ground arith)
  in_mutex-Simulates s {m} (call_unlock j e) p inv fit =
      mutex-stays K M s m refl (λ i. ground arith)
  in_mutex-Simulates s {m} (is_ready j op e f) p inv fit =
      mutex-stays K M s m refl (λ i. ground arith)
  in_mutex-Simulates s {m} (not_ready j op e f) p inv fit =
      mutex-stays K M s m refl (λ i. ground arith)
  in_mutex-Simulates s {m} (enter j op e f) p inv fit = mutex-stays K M s m refl (λ i. ground arith)
  in_mutex-Simulates s {m} (too_late j op e f) p inv fit =
      mutex-stays K M s m refl (λ i. ground arith)
  in_mutex-Simulates s {m} (first j op e f) p inv fit = mutex-stays K M s m refl (λ i. ground arith)
  in_mutex-Simulates s {m} (creates j op e) p inv fit =
      mutex-stays K M s m (ground (arith, inv.unmarked j)) (λ i. ground arith)
  in_mutex-Simulates s {m} (marks j op e) p inv fit =
      mutex-stays K M s m (ground (arith, inv.unmarked j, inv.fresh j op)) (λ i. ground arith)
  in_mutex-Simulates s {m} (leaves j op e) p inv fit = mutex-stays K M s m refl (λ i. ground arith)
  in_mutex-Simulates s {m} (refuse j e f) p inv fit =
      mutex-stays K M s m (ground (arith, M.holder-take j s.mutex.sem)) (λ i. ground arith)
  in_mutex-Simulates s (acquire j op e ne f) p inv fit =
      acquired s j op (s.cv j) refl e ne f inv (fit j)
  in_mutex-Simulates s (gives j e) p inv fit = given s j (s.cv j) refl e inv (fit j)

  enqueued :
      (s : System K M) (i : ℕ) (timed queued : Bool)
      → (enqueue i s.slots).1 ≡ queued
      → s.cv i ≡ user
      → s.mutex.pc i ≡ owning
      → MutexInvariant.Inv M s.mutex
      → Simulates K M s (queued_by s i timed)
  enqueued s i timed true q e o inv =
      goes K M s (queued_by s i timed)
        (record (abstract K M s) {
          slots = (enqueue i s.slots).0;
          owner = none;
          pc = update (abstract K M s).pc i (Pc.waiting timed);
        })
        (Abstract.start_wait i timed (ground arith) q) refl refl
        (ground (arith, inv.held i, inv.created i)) (λ k. ground arith)
  enqueued s i timed false q e o inv =
      goes K M s (queued_by s i timed)
        (record (abstract K M s) {
          slots = (enqueue i s.slots).0;
          owner = none;
          pc = update (abstract K M s).pc i Pc.aborted;
        })
        (Abstract.overflow i (ground arith) q) refl refl (ground (arith, inv.held i, inv.created i))
        (λ k. ground arith)

  Step-Simulates :
      {s t : System K M}
      → Step K M s t
      → MutexInvariant.Inv M s.mutex
      → Fitting K M s
      → Simulates K M s t
  Step-Simulates {s} {t} (in_mutex step p) inv fit = in_mutex-Simulates s step p inv fit
  Step-Simulates {s} {t} (enqueues i timed e o n) inv fit =
      enqueued s i timed (enqueue i s.slots).1 refl e o inv
  Step-Simulates {s} {t} (exits i timed queued e o) inv fit =
      stays K M s t refl refl (ground (arith, inv.known i)) (λ k. ground arith)
  Step-Simulates {s} {t} (wakes i timed e p) inv fit =
      goes K M s t
        (record (abstract K M s) {
          pc = update (abstract K M s).pc i (Pc.woken Abstract.no_timeout);
          kernel = K.receive i s.kernel;
        })
        (Abstract.wake i timed (ground arith) p) refl refl (ground (arith, fit i, inv.known i))
        (λ k. ground (arith, fit i))
  Step-Simulates {s} {t} (times_out i e) inv fit =
      goes K M s t
        (record (abstract K M s) { pc = update (abstract K M s).pc i (Pc.woken Abstract.timeout) })
        (Abstract.time_out i (ground arith)) refl refl (ground (arith, fit i, inv.known i))
        (λ k. ground (arith, fit i))
  Step-Simulates {s} {t} (dequeues i status e o n) inv fit =
      goes K M s t
        (record (abstract K M s) {
          slots = (dequeue i s.slots);
          pc = update (abstract K M s).pc i holding;
        })
        (Abstract.finish_wait i status (ground arith)) refl refl (ground arith) (λ k. ground arith)
  Step-Simulates (signal priority n) inv fit = inl (Abstract.signal priority)
  Step-Simulates (broadcast n) inv fit = inl Abstract.broadcast

  IsInit-abstract : {s : System K M} → IsInit K M s → Abstract.IsInit K (abstract K M s)
  IsInit-abstract (new memory e f c n p) =
      Abstract.new memory e (ground arith) (λ i. ground (arith, p i))

  follows :
      (s t : System K M)
      → Abstract.Reach K (abstract K M s)
      → Simulates K M s t
      → Abstract.Reach K (abstract K M t)
  follows s t r (inl step) = Abstract.Reach.later r step
  follows s t r (inr same) = subst (Abstract.Reach K) (sym same) r

  Reach-Step-Simulates : {s t : System K M} → Reach K M s → Step K M s t → Simulates K M s t
  Reach-Step-Simulates r step =
      Step-Simulates step (MutexInvariant.Reach-Inv M (Reach-mutex K M r)) (Reach-Fitting K M r)

  Reach-abstract : {s : System K M} → Reach K M s → Abstract.Reach K (abstract K M s)
  Reach-abstract (start init) = Abstract.Reach.start (IsInit-abstract init)
  Reach-abstract (later {s} {t} r step) =
      follows s t (Reach-abstract r) (Reach-Step-Simulates r step)

  -- The optimized condition variable and the mutex, both in detail, refine the condition variable with
  -- a mutex that is nothing but its owner. The abstract state of a reachable state, which forgets where the threads
  -- are in the mutex, is reachable in CvOpt/System; each step is one of CvOpt/System between the
  -- abstract states, or changes nothing in them; and a thread that has the mutex, and is not in the
  -- first critical section of a wait, is the abstract owner.
  pub Reach-refines :
      {s t : System K M}
      → Reach K M s
      → Step K M s t
      → Abstract.Reach K (abstract K M s)
        × ((Abstract.Step K (abstract K M s) (abstract K M t)) ⊎ (abstract K M t ≡ abstract K M s))
        × ((i : ℕ)
            → owns (s.mutex.pc i) ≡ true
            → gives_up (s.cv i) ≡ false
            → (abstract K M s).owner ≡ some i)
  Reach-refines {s} r step =
      let inv = MutexInvariant.Reach-Inv M (Reach-mutex K M r) in
      (
        Reach-abstract r,
        Reach-Step-Simulates r step,
        λ i h g. ground (arith, inv.held i, inv.created i),
      )

  -- Also with the mutex in detail no wakeup is lost. In every reachable state a thread that sleeps in
  -- `xTaskNotifyWait` is in the table, or its notification is pending.
  pub sleeper_found :
      {s : System K M} (i : ℕ) (timed : Bool)
      → Reach K M s
      → s.cv i ≡ waiting timed
      → ((k : ℕ) × Holds s.slots k i) ⊎ (K.pending s.kernel i ≡ true)
  sleeper_found {s} i timed r e =
      no_lost_wakeup K {s = abstract K M s} i timed (Reach-abstract r) (ground arith)
