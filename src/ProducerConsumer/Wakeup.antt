-- ===== src/ProducerConsumer/Wakeup.antt =====
-- What the queue of ProducerConsumer.ino promises to its users.
use roo_threads.Base.{
  ℕ, ◌≤◌, ◌<◌, ◌≡◌, ◌≢◌, refl, ◌⊎◌, inl, inr, true, false, [], ◌∷◌, ◌++◌, none, some, length, arith,
  Bool-cases, Option-cases, List,
}
use roo_threads.Kernel.{TaskNotify}
use roo_threads.CvOpt.{enqueue}
use roo_threads.CvOpt.Choice.{Holds}
use roo_threads.CvOpt.Count.{count-Holds}
use roo_threads.ProducerConsumer.{
  Item, Call, put, take, awaits, blocks, Pc, idle, testing, must_wait, waiting, woken, relocked,
  may_act, acted, told, aborted, undefined, System, current, Step, locks, finds_blocked, finds_free,
  starts_wait, overflows, wakes, relocks, returns, appends, removes, has_no_front, notifies,
  unlocks, Reach,
}
use roo_threads.ProducerConsumer.Invariant.{has_mutex, WillTell, Inv}
use roo_threads.ProducerConsumer.Invariant.Reachable.{Reach-Inv}

module _ (K : TaskNotify) (m : ℕ) (script : ℕ → ℕ → Call) where
  open K use {pending}

  -- In every reachable state of any number of threads that put and take: what was put so far is what was
  -- taken so far followed by what is in the deque, in the same order; the deque has at most
  -- max_capacity items; and no thread
  -- calls front() of an empty deque, or is about to append to one that is full.
  pub deque-IsFifo :
      {s : System K}
      → Reach K m script s
      → (s.published ≡ s.consumed ++ s.deque)
        × (length s.deque ≤ m)
        × ((i : ℕ) → s.pc i ≢ undefined)
        × ((i : ℕ) (item : Item)
            → s.pc i ≡ may_act
            → current K m script s i ≡ put item
            → length s.deque < m)
  deque-IsFifo r =
      let inv = Reach-Inv K m script r in
      (inv.fifo, inv.bounded, inv.defined, λ i item e c. ground (arith, inv.free i, inv.bounded))

  -- In every reachable state a thread that sleeps in a wait of put() or take() with no notification pending
  -- is in the table of its condition variable, and the condition that it waits for does not hold, or some
  -- thread is about to call notify_all() on that condition variable.
  pub sleeps_with_reason :
      {s : System K} (i : ℕ)
      → Reach K m script s
      → s.pc i ≡ waiting
      → pending s.kernel i ≡ false
      → ((k : ℕ) × Holds (s.tables (awaits (current K m script s i))) k i)
        × ((blocks m s.deque (current K m script s i) ≡ true)
            ⊎ WillTell K m script s (awaits (current K m script s i)))
  sleeps_with_reason {s} i r e p =
      let inv = Reach-Inv K m script r in
      (
        elim (inv.registered i e) [
          | inl h ↦ count-Holds (s.tables (awaits (current K m script s i))) i h
          | inr told' ↦ absurd (ground arith)
        ],
        inv.awake i e p,
      )

  -- Thread `i` can take a step.
  abbrev pub CanStep : System K → ℕ → Type 0
  CanStep s i = (t : System K) × Step K m script i s t

  act-CanStep :
      (s : System K) (j : ℕ) (c : Call) (q : List Item)
      → s.pc j ≡ may_act
      → current K m script s j ≡ c
      → s.deque ≡ q
      → CanStep s j
  act-CanStep s j (put item) q e c d = (_, appends item e c)
  act-CanStep s j take [] e c d = (_, has_no_front e c d)
  act-CanStep s j take (x ∷ xs) e c d = (_, removes x xs e c d)

  -- A thread that has the mutex is never held up.
  owner-CanStep : (s : System K) (j : ℕ) (p : Pc) → s.pc j ≡ p → has_mutex p ≡ true → CanStep s j
  owner-CanStep s j testing e h = elim (Bool-cases (blocks m s.deque (current K m script s j))) [
    | inl b ↦ (_, finds_blocked e b)
    | inr b ↦ (_, finds_free e b)
  ]
  owner-CanStep s j must_wait e h =
      elim (Bool-cases (enqueue j (s.tables (awaits (current K m script s j)))).1) [
        | inl b ↦ (_, starts_wait e b)
        | inr b ↦ (_, overflows e b)
      ]
  owner-CanStep s j relocked e h = (_, returns e)
  owner-CanStep s j may_act e h = act-CanStep s j (current K m script s j) s.deque e refl refl
  owner-CanStep s j acted e h = (_, notifies e)
  owner-CanStep s j told e h = (_, unlocks e)
  owner-CanStep s j idle e h = cc
  owner-CanStep s j waiting e h = cc
  owner-CanStep s j woken e h = cc
  owner-CanStep s j aborted e h = cc
  owner-CanStep s j undefined e h = cc

  -- The thread sleeps, and has not been notified.
  abbrev pub IsHeldUp : System K → ℕ → Type 0
  IsHeldUp s i = (s.pc i ≡ waiting) × (pending s.kernel i ≡ false)

  free-CanStep :
      (s : System K) (i : ℕ) (p : Pc)
      → s.pc i ≡ p
      → p ≢ aborted
      → p ≢ undefined
      → s.owner ≡ none
      → has_mutex p ≡ false
      → CanStep s i ⊎ IsHeldUp s i
  free-CanStep s i idle e na nu o h = inl (_, locks e o)
  free-CanStep s i waiting e na nu o h = elim (Bool-cases (pending s.kernel i)) [
    | inl p ↦ inl (_, wakes e p)
    | inr p ↦ inr (e, p)
  ]
  free-CanStep s i woken e na nu o h = inl (_, relocks e o)
  free-CanStep s i aborted e na nu o h = absurd (na refl)
  free-CanStep s i undefined e na nu o h = absurd (nu refl)
  free-CanStep s i testing e na nu o h = cc
  free-CanStep s i must_wait e na nu o h = cc
  free-CanStep s i relocked e na nu o h = cc
  free-CanStep s i may_act e na nu o h = cc
  free-CanStep s i acted e na nu o h = cc
  free-CanStep s i told e na nu o h = cc

  pub no_mutex :
      {s : System K} (i : ℕ) → Inv K m script s → s.owner ≡ none → has_mutex (s.pc i) ≡ false
  no_mutex {s} i inv o = elim (Bool-cases (has_mutex (s.pc i))) [
    | inl h ↦ absurd (ground (arith, inv.owned i))
    | inr h ↦ h
  ]

  pub IsHeldUp-blocks :
      {s : System K} (i : ℕ)
      → Inv K m script s
      → s.owner ≡ none
      → IsHeldUp s i
      → blocks m s.deque (current K m script s i) ≡ true
  IsHeldUp-blocks {s} i inv o (e, p) = elim (inv.awake i e p) [
    | inl b ↦ b
    | inr (k, e', c) ↦ absurd (ground (arith, inv.owned k))
  ]

  -- A queue is never both empty and full.
  blocks-once :
      (q : List Item) (x : Item) → 0 < m → blocks m q (put x) ≡ true → blocks m q take ≡ false
  blocks-once [] x lt h = ground arith
  blocks-once (y ∷ q) x lt h = refl

  -- There is no deadlock. In every reachable state of a queue of a capacity that is not 0, where one thread is in or
  -- before a call of take() and another one in or before a call of put(), and neither has failed its
  -- assertion: one of the two, or the thread that has the mutex, can take a step.
  pub one-CanStep :
      {s : System K} (a b : ℕ) (item : Item)
      → Reach K m script s
      → 0 < m
      → current K m script s a ≡ take
      → current K m script s b ≡ put item
      → s.pc a ≢ aborted
      → s.pc b ≢ aborted
      → (i : ℕ) × CanStep s i × ((i ≡ a) ⊎ (i ≡ b) ⊎ (s.owner ≡ some i))
  one-CanStep {s} a b item r lt ca cb na nb =
      let inv = Reach-Inv K m script r in
      elim (Option-cases s.owner) [
        | inr (j, o) ↦ (j, owner-CanStep s j (s.pc j) refl (inv.known j o), inr (inr o))
        | inl o ↦ elim (free-CanStep s a (s.pc a) refl na (inv.defined a) o (no_mutex a inv o)) [
          | inl step ↦ (a, step, inl refl)
          | inr sleeps ↦
              elim (free-CanStep s b (s.pc b) refl nb (inv.defined b) o (no_mutex b inv o)) [
                | inl step ↦ (b, step, inr (inl refl))
                | inr sleeps' ↦
                    let h = IsHeldUp-blocks a inv o sleeps in
                    let h' = IsHeldUp-blocks b inv o sleeps' in
                    absurd (ground (arith, blocks-once s.deque item))
              ]
        ]
      ]
