-- ===== src/ProducerConsumer/Invariant/Waiting.antt =====
-- Who sleeps on a condition variable of the queue has a reason, and is found by its `notify_all`.
use roo_threads.Base.{ℕ, suc, ◌≢◌, ◌≡◌, ap, sym, ◌∙◌, ◌⊎◌, inl, inr, true, false, arith, Bool-cases}
use native.Mathlib.Decide.{ℕ_discrete}
use mathlib.Core.Path.{subst}
use roo_threads.Base.Family.{update, update-other}
use roo_threads.Kernel.{TaskNotify}
use roo_threads.CvOpt.{enqueue}
use roo_threads.ProducerConsumer.{
  set_table, Call, awaits, tells, blocks, Pc, testing, must_wait, waiting, woken, relocked, may_act,
  acted, aborted, undefined, System, current, Step, locks, finds_blocked, finds_free, starts_wait,
  overflows, wakes, relocks, returns, appends, removes, has_no_front, notifies, unlocks,
}
use roo_threads.ProducerConsumer.Invariant.Tables.{
  Registered, enqueue-Registered, enqueue_self, dequeue-Registered, notify_all-Registered,
  notify_all_tells, pending-notify_all,
}
use roo_threads.ProducerConsumer.Invariant.{has_mutex, append-blocks, remove-blocks, WillTell, Inv}

module _ (K : TaskNotify) (m : ℕ) (script : ℕ → ℕ → Call) where
  open K use {State, pending, notify, receive, pending-receive, pending-notify}

  pub Step-Registered :
      (j : ℕ) {s t : System K}
      → Step K m script j s t
      → Inv K m script s
      → (i : ℕ) → t.pc i ≡ waiting
      → Registered i (awaits (current K m script t i)) t.tables ⊎ (pending t.kernel i ≡ true)
  Step-Registered j (locks e o) inv i h = inv.registered i (ground arith)
  Step-Registered j (finds_blocked e b) inv i h = inv.registered i (ground arith)
  Step-Registered j (finds_free e b) inv i h = inv.registered i (ground arith)
  Step-Registered j {s} (starts_wait e q) inv i h = elim (ℕ_discrete j i) [
    | yes same ↦ inl (
        subst
          (λ k. Registered k (awaits (current K m script s k)) (
            set_table s.tables (awaits (current K m script s j))
              (enqueue j (s.tables (awaits (current K m script s j)))).0))
          same (enqueue_self j s.tables (awaits (current K m script s j)) q))
    | no ne ↦ elim (inv.registered i (ground arith)) [
      | inl r ↦ inl (
          enqueue-Registered i s.tables j (awaits (current K m script s j))
            (awaits (current K m script s i)) r)
      | inr p ↦ inr p
    ]
  ]
  Step-Registered j {s} (overflows e q) inv i h = elim (inv.registered i (ground arith)) [
    | inl r ↦ inl (
        enqueue-Registered i s.tables j (awaits (current K m script s j))
          (awaits (current K m script s i)) r)
    | inr p ↦ inr p
  ]
  Step-Registered j {s} (wakes e p) inv i h = elim (inv.registered i (ground arith)) [
    | inl r ↦ inl r
    | inr noticed ↦ inr (ground (arith, pending-receive j i s.kernel))
  ]
  Step-Registered j (relocks e o) inv i h = inv.registered i (ground arith)
  Step-Registered j {s} (returns e) inv i h = elim (inv.registered i (ground arith)) [
    | inl r ↦ inl (
        dequeue-Registered i s.tables j (awaits (current K m script s j))
          (awaits (current K m script s i)) (ground arith) r)
    | inr p ↦ inr p
  ]
  Step-Registered j (appends x e c) inv i h = inv.registered i (ground arith)
  Step-Registered j (removes x r e c q) inv i h = inv.registered i (ground arith)
  Step-Registered j (has_no_front e c q) inv i h = inv.registered i (ground arith)
  Step-Registered j {s} (notifies e) inv i h =
      notify_all-Registered i s.tables K s.kernel (tells (current K m script s j))
        (awaits (current K m script s i)) (inv.registered i (ground arith))
  Step-Registered j {s} (unlocks e) inv i h =
      let ne : j ≢ i = (λ q. ground arith) in
      rw (update-other s.calls j i (suc (s.calls j)) ne) (inv.registered i (ground arith))

  -- A thread that is about to notify has the mutex.
  the_teller :
      {s : System K} (j k : ℕ)
      → Inv K m script s
      → has_mutex (s.pc j) ≡ true
      → s.pc k ≡ acted
      → k ≡ j
  the_teller j k inv h e = ground (arith, inv.owned j, inv.owned k)

  abbrev pub Awake : System K → ℕ → Type 0
  Awake s i =
      (blocks m s.deque (current K m script s i) ≡ true)
      ⊎ WillTell K m script s (awaits (current K m script s i))

  -- A step by a thread that does not notify leaves the one that does, and the reasons, alone.
  Awake-step :
      (s : System K) (j i : ℕ) (p : Pc)
      → s.pc j ≢ acted
      → Awake s i
      → Awake (record s { pc = update s.pc j p }) i
  Awake-step s j i p ne (inl b) = inl b
  Awake-step s j i p ne (inr (k, e, c)) = inr (k, ground arith, c)

  pub Step-Awake :
      (j : ℕ) {s t : System K}
      → Step K m script j s t
      → Inv K m script s
      → (i : ℕ) → t.pc i ≡ waiting
      → pending t.kernel i ≡ false
      → Awake t i
  Step-Awake j {s} (locks e o) inv i h p =
      Awake-step s j i testing (λ q. ground arith) (inv.awake i (ground arith) p)
  Step-Awake j {s} (finds_blocked e b) inv i h p =
      Awake-step s j i must_wait (λ q. ground arith) (inv.awake i (ground arith) p)
  Step-Awake j {s} (finds_free e b) inv i h p =
      Awake-step s j i may_act (λ q. ground arith) (inv.awake i (ground arith) p)
  Step-Awake j {s} (starts_wait e q) inv i h p = elim (ℕ_discrete j i) [
    | yes same ↦
        inl (subst (λ k. blocks m s.deque (current K m script s k) ≡ true) same (inv.blocked j e))
    | no ne ↦ Awake-step s j i waiting (λ q. ground arith) (inv.awake i (ground arith) p)
  ]
  Step-Awake j {s} (overflows e q) inv i h p =
      Awake-step s j i aborted (λ q. ground arith) (inv.awake i (ground arith) p)
  Step-Awake j {s} (wakes e q) inv i h p =
      Awake-step s j i woken (λ q. ground arith)
        (inv.awake i (ground arith) (ground (arith, pending-receive j i s.kernel)))
  Step-Awake j {s} (relocks e o) inv i h p =
      Awake-step s j i relocked (λ q. ground arith) (inv.awake i (ground arith) p)
  Step-Awake j {s} (returns e) inv i h p =
      Awake-step s j i testing (λ q. ground arith) (inv.awake i (ground arith) p)
  Step-Awake j {s} (appends x e c) inv i h p = inr (
    j,
    ground arith,
    elim (inv.awake i (ground arith) p) [
      | inl b ↦
          ap tells c
          ∙ append-blocks m s.deque x x (current K m script s i) (ground (arith, inv.free j)) b
      | inr (k, e', c') ↦ absurd (ground (arith, the_teller {s = s} j k inv))
    ],
  )
  Step-Awake j {s} (removes x r e c q) inv i h p = inr (
    j,
    ground arith,
    elim (inv.awake i (ground arith) p) [
      | inl b ↦
          ap tells c
          ∙ remove-blocks m s.deque (current K m script s i) (ground (arith, inv.free j)) b
      | inr (k, e', c') ↦ absurd (ground (arith, the_teller {s = s} j k inv))
    ],
  )
  Step-Awake j {s} (has_no_front e c q) inv i h p =
      Awake-step s j i undefined (λ q. ground arith) (inv.awake i (ground arith) p)
  Step-Awake j {s} (notifies e) inv i h p =
      let quiet : pending s.kernel i ≡ false = elim (Bool-cases (pending s.kernel i)) [
        | inr f ↦ f
        | inl t ↦ absurd (
            ground
              (arith, pending-notify_all i s.tables K s.kernel (tells (current K m script s j)) t))
      ] in
      elim (inv.awake i (ground arith) quiet) [
        | inl b ↦ inl b
        | inr (k, e', c') ↦
            let same = the_teller {s = s} j k inv (ground arith) e' in
            absurd (
              ground (
                arith,
                notify_all_tells i s.tables K s.kernel (tells (current K m script s j)) (
                    subst (λ d. Registered i d s.tables ⊎ (pending s.kernel i ≡ true))
                      (sym c' ∙ ap (λ k'. tells (current K m script s k')) same)
                      (inv.registered i (ground arith))),
              ))
      ]
  Step-Awake j {s} (unlocks e) inv i h p =
      let ne : j ≢ i = (λ q. ground arith) in
      rw (update-other s.calls j i (suc (s.calls j)) ne) (elim (inv.awake i (ground arith) p) [
        | inl b ↦ inl b
        | inr (k, e', c') ↦ absurd (ground (arith, the_teller {s = s} j k inv))
      ])
