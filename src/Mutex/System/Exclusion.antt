-- ===== src/Mutex/System/Exclusion.antt =====
-- What the mutex of impl/freertos/mutex.cpp promises to its users.
use roo_threads.Base.{
  ℕ, ◌≡◌, refl, inl, inr, true, false, Option, none, some, if◌then◌else◌, arith, Bool-cases,
  Option-cases,
}
use roo_threads.Kernel.{MutexKernel}
use roo_threads.Mutex.System.{
  Op, lock, owning, creating, ready, System, Step, creates, marks, acquire, refuse, gives, Reach,
}
use roo_threads.Mutex.System.Invariant.{owns, relies, Inv, Reach-Inv}

module _ (K : MutexKernel) where
  open K use {holder, take_busy}

  -- In a reachable state two tasks that have the mutex, from the return of lock() or of a try_lock()
  -- that succeeded up to the call of xSemaphoreGive in unlock(), are one.
  pub mutual_exclusion :
      {s : System K} (i j : ℕ) → Reach K s → owns (s.pc i) ≡ true → owns (s.pc j) ≡ true → i ≡ j
  mutual_exclusion i j r h k = ground (arith, (Reach-Inv K r).held i, (Reach-Inv K r).held j)

  -- When a task is about to create the semaphore in a reachable state, no other is, and no task
  -- has come past the initialization: a mutex in use is never created again.
  pub created_once :
      {s : System K} (i : ℕ) (op : Op)
      → Reach K s
      → s.pc i ≡ creating op
      → ((j : ℕ) → relies (s.pc j) ≡ false) × ((j : ℕ) (op' : Op) → s.pc j ≡ creating op' → i ≡ j)
  created_once {s} i op r e = (
    λ j. elim (Bool-cases (relies (s.pc j))) [
      | inl h ↦ ground (arith, (Reach-Inv K r).created j, (Reach-Inv K r).unmarked i)
      | inr h ↦ h
    ],
    λ j op' e'. ground (arith, (Reach-Inv K r).alone i, (Reach-Inv K r).alone j),
  )

  -- Who has the mutex: nobody before it is created.
  abbrev pub owner : System K → Option ℕ
  owner s = if s.initialized then holder s.sem else none

  -- What one step does to a mutex that is nothing but its owner.
  pub data OwnerStep : Option ℕ → Option ℕ → Type 0 where
    keeps : (o o' : Option ℕ) → o' ≡ o → OwnerStep o o'
    locks : (i : ℕ) (o o' : Option ℕ) → o ≡ none → o' ≡ some i → OwnerStep o o'
    unlocks : (i : ℕ) (o o' : Option ℕ) → o ≡ some i → o' ≡ none → OwnerStep o o'

  Step-OwnerStep : {s t : System K} → Step K s t → Inv K s → OwnerStep (owner s) (owner t)
  Step-OwnerStep {s} (acquire j op e ne f) inv =
      locks j _ _ (ground (arith, K.take_free j s.sem f, inv.created j))
        (ground (arith, K.holder-take j s.sem, inv.created j))
  Step-OwnerStep {s} (gives j e) inv =
      unlocks j _ _ (ground (arith, inv.created j, inv.held j))
        (ground (arith, inv.created j, inv.held j, K.holder-give j s.sem))
  Step-OwnerStep (creates j op e) inv = keeps _ _ (ground (arith, inv.unmarked j))
  Step-OwnerStep (marks j op e) inv = keeps _ _ (ground (arith, inv.unmarked j, inv.fresh j op))
  Step-OwnerStep {s} (refuse j e f) inv = keeps _ _ (ground (arith, K.holder-take j s.sem))
  Step-OwnerStep step inv = keeps _ _ refl

  -- The tasks refine a mutex that is nothing but its owner. From a reachable state every step
  -- leaves the owner, makes a task the owner where there was none, or leaves none where there was
  -- one; and the owner is the task that has the mutex.
  pub Step-refines :
      {s t : System K}
      → Reach K s
      → Step K s t
      → OwnerStep (owner s) (owner t)
        × ((i : ℕ) → owns (s.pc i) ≡ true → owner s ≡ some i)
        × ((i : ℕ) → owner s ≡ some i → owns (s.pc i) ≡ true)
  Step-refines {s} r step =
      let inv = Reach-Inv K r in
      (
        Step-OwnerStep step inv,
        (λ i h. ground (arith, inv.held i, inv.created i)),
        λ i h. ground (arith, inv.known i),
      )

  -- In a reachable state where no task has the mutex, a task that waits in lock() can get it.
  pub lock_available :
      {s : System K} (i : ℕ)
      → Reach K s
      → s.pc i ≡ ready lock
      → ((j : ℕ) → owns (s.pc j) ≡ false)
      → (t : System K) × Step K s t × (t.pc i ≡ owning)
  lock_available {s} i r e free = elim (Bool-cases (K.take i s.sem).1) [
    | inl taken ↦ (_, acquire i lock e (λ q. cc) taken, ground arith)
    | inr busy ↦ elim (Option-cases (holder s.sem)) [
      | inl none' ↦ absurd (take_busy i s.sem busy none')
      | inr (j, h) ↦ ground (arith, (Reach-Inv K r).known j, (Reach-Inv K r).created i, free j)
    ]
  ]
