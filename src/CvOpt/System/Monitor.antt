-- ===== src/CvOpt/System/Monitor.antt =====
-- The threads around condition_variable_opt.cpp are a monitor: what each step is for it.
pub mod Events
use roo_threads.Base.{
  ℕ, ◌≤◌, ltb, ◌≡◌, refl, ◌≢◌, ◌⊎◌, inl, inr, Bool, Option, none, some, true, false, if◌then◌else◌,
  arith, Bool-cases,
}
use roo_threads.Base.Family.{update}
use roo_threads.Kernel.{TaskNotify}
use roo_threads.CvOpt.{Slots, enqueue, notify_one, notify_all}
use roo_threads.CvOpt.Count.{
  count, count-enqueue, count-dequeue, count-notify_one, count-notify_all, count-Holds, Holds-count,
}
use roo_threads.CvOpt.Choice.{Holds, notify_one-IsChoice}
use roo_threads.CvOpt.System.{
  Pc, outside, holding, waiting, woken, relocked, aborted, timeout, System, Step, lock_mutex,
  unlock_mutex, start_wait, overflow, expired_at_once, wake, time_out, relock, finish_wait, signal,
  broadcast, Reach,
}
use roo_threads.CvOpt.System.Wakeup.{after_notify_one}
use roo_threads.CvOpt.System.Invariant.{Inv, Reach-Inv, pending-notify_tasks, pending-notify_task}
use roo_threads.CvOpt.System.Monitor.Events.{
  Stage, out, inside, awake, asleep, Monitor, is_asleep, Event, enters, leaves, fails, expires,
  is_told, gives_up, returns, finishes, waits, notifies_one, notifies_all, Goes, Wakes, Moves,
}

vacant-count : (ts : Slots) (k : ℕ) → ((j u : ℕ) → ¬ Holds ts j u) → count k ts ≡ 0
vacant-count ts k vacant = elim (Bool-cases (ltb 0 (count k ts))) [
  | inl h ↦ let (j, held) = count-Holds ts k (ground arith) in absurd (vacant j k held)
  | inr h ↦ ground arith
]

module _ (K : TaskNotify) where
  open K use {pending, pending-receive}

  -- A thread sleeps as long as its notification is not pending; a thread whose assertion has failed is out.
  abbrev pub stage_of : Pc → Bool → Stage
  stage_of outside told = out
  stage_of holding told = inside
  stage_of (waiting timed) told = if told then awake else asleep timed
  stage_of (woken _) told = awake
  stage_of (relocked _) told = inside
  stage_of aborted told = out

  abbrev pub monitor : System K → Monitor
  monitor s = record {
    owner = s.owner;
    stage = λ i. stage_of (s.pc i) (pending s.kernel i);
    queued = λ i. ltb 0 (count i s.slots);
  }

  -- What a step is for the monitor.
  abbrev pub event : {s t : System K} → Step K s t → Event
  event (lock_mutex i e o) = enters i
  event (unlock_mutex i e) = leaves i
  event (start_wait i timed e q) = waits i timed
  event (overflow i e q) = fails i
  event (expired_at_once i e) = expires i
  event (wake i timed e p) = is_told i
  event (time_out i e) = gives_up i
  event (relock i status e o) = returns i
  event (finish_wait i status e) = finishes i
  event (signal priority) = notifies_one priority
  event broadcast = notifies_all

  started :
      (s : System K) (i : ℕ) (timed told : Bool)
      → pending s.kernel i ≡ told
      → s.pc i ≡ holding
      → (enqueue i s.slots).1 ≡ true
      → let n = monitor (record s {
        slots = (enqueue i s.slots).0;
        owner = none;
        pc = update s.pc i (waiting timed);
      }) in
        Goes i inside (asleep timed) (monitor s) n ⊎ Goes i inside awake (monitor s) n
  started s i timed true p e q = inr record {
    before = ground arith;
    after = ground arith;
    others = λ k ne. (ground arith, ground (arith, count-enqueue k i s.slots));
  }
  started s i timed false p e q = inl record {
    before = ground arith;
    after = ground arith;
    others = λ k ne. (ground arith, ground (arith, count-enqueue k i s.slots));
  }

  ended :
      (s : System K) (i : ℕ) (told : Bool)
      → pending s.kernel i ≡ told
      → s.pc i ≡ waiting true
      → let n = monitor (record s { pc = update s.pc i (woken timeout) }) in
        Goes i (asleep true) awake (monitor s) n ⊎ Goes i awake awake (monitor s) n
  ended s i true p e =
      inr record {
        before = ground arith;
        after = ground arith;
        others = λ k ne. (ground arith, refl);
      }
  ended s i false p e =
      inl record {
        before = ground arith;
        after = ground arith;
        others = λ k ne. (ground arith, refl);
      }

  notified_one :
      (s : System K) (priority : ℕ → ℕ)
      → Inv K s
      → Moves (notifies_one priority) (monitor s) (monitor (after_notify_one K priority s))
  notified_one s priority inv =
      let told = pending-notify_task K (notify_one priority s.slots).1 s.kernel in
      elim (notify_one-IsChoice priority s.slots) [
        | inl (e, vacant) ↦
            let none_queued = λ (k : ℕ). vacant-count s.slots k vacant in
            (
              refl,
              inl (λ k. (
                ground (arith, none_queued k),
                ground (arith, none_queued k),
                ground (arith, told k),
              )),
            )
        | inr (l, j, f, c) ↦ (
          refl,
          inr (
            j,
            record {
              chosen = ground (arith, Holds-count s.slots l j c.held);
              highest =
                  λ k h. let (i, held) = count-Holds s.slots k (ground arith) in c.highest i k held;
              unqueued = ground (arith, count-notify_one priority j s.slots, inv.once j);
              awakened = ground (arith, told j);
              others = λ k ne.
                  (ground (arith, told k), ground (arith, count-notify_one priority k s.slots));
            },
          ),
        )
      ]

  Step-Moves :
      {s t : System K} (step : Step K s t) → Inv K s → Moves (event step) (monitor s) (monitor t)
  Step-Moves (lock_mutex i e o) inv = (
    o,
    refl,
    record { before = ground arith; after = ground arith; others = λ k ne. (ground arith, refl) },
    refl,
  )
  Step-Moves (unlock_mutex i e) inv = (
    inv.owned i (ground arith),
    refl,
    record { before = ground arith; after = ground arith; others = λ k ne. (ground arith, refl) },
    refl,
  )
  Step-Moves {s} (start_wait i b e q) inv = (
    inv.owned i (ground arith),
    refl,
    ground (arith, count-enqueue i i s.slots),
    started s i b (pending s.kernel i) refl e q,
  )
  Step-Moves {s} (overflow i e q) inv = (
    inv.owned i (ground arith),
    refl,
    record {
      before = ground arith;
      after = ground arith;
      others = λ k ne. (ground arith, ground (arith, count-enqueue k i s.slots));
    },
    ground (arith, count-enqueue i i s.slots),
  )
  Step-Moves (expired_at_once i e) inv = (
    inv.owned i (ground arith),
    inv.owned i (ground arith),
    record { before = ground arith; after = ground arith; others = λ k ne. (refl, refl) },
    refl,
  )
  Step-Moves {s} (wake i b e p) inv = (
    refl,
    record {
      before = ground arith;
      after = ground arith;
      others = λ k ne. (ground (arith, pending-receive i k s.kernel), refl);
    },
    refl,
  )
  Step-Moves {s} (time_out i e) inv = (refl, ended s i (pending s.kernel i) refl e, refl)
  Step-Moves (relock i st e o) inv = (
    o,
    refl,
    record { before = ground arith; after = ground arith; others = λ k ne. (ground arith, refl) },
    refl,
  )
  Step-Moves {s} (finish_wait i st e) inv = (
    inv.owned i (ground arith),
    inv.owned i (ground arith),
    record {
      before = ground arith;
      after = ground arith;
      others = λ k ne. (ground arith, ground (arith, count-dequeue k i s.slots));
    },
    ground (arith, count-dequeue i i s.slots, inv.once i),
  )
  Step-Moves {s} (signal p) inv = notified_one s p inv
  Step-Moves {s} broadcast inv = (
    refl,
    λ k. (
      ground (arith, count-notify_all k s.slots),
      ground (
        arith,
        inv.reachable k,
        count-notify_all k s.slots,
        pending-notify_tasks K (notify_all s.slots).1 s.kernel k,
      ),
    ),
  )

  -- From a reachable state, each step of the threads around an optimized condition variable is the event of a
  -- monitor that it stands for, and every thread that sleeps is queued. A thread enters where nobody has the monitor, leaves it,
  -- or leaves it, is queued and falls asleep, or is awake at once, in one move. notify_all
  -- wakes every thread that sleeps and empties the queue. notify_one takes one thread of the highest priority out
  -- of the queue, wakes it if it sleeps and changes nothing for the others, and does nothing only if nobody is queued. A
  -- timed sleep may end by itself, and a thread that is awake returns where nobody has the monitor
  -- and then leaves the queue.
  pub Reach-Moves :
      {s t : System K}
      → Reach K s
      → (step : Step K s t)
      → Moves (event step) (monitor s) (monitor t)
        × ((k : ℕ) → is_asleep ((monitor s).stage k) ≡ true → (monitor s).queued k ≡ true)
  Reach-Moves {s} r step =
      let inv = Reach-Inv K r in (Step-Moves step inv, λ k h. ground (arith, inv.reachable k))
