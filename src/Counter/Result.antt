-- ===== src/Counter/Result.antt =====
-- The count that loop() of Counter.ino prints.
use roo_threads.Base.{
  ℕ, zero, suc, ◌+◌, ◌-◌, ◌*◌, ◌≤◌, ◌<◌, ◌≡◌, ◌≢◌, refl, true, none, arith, ◌⊎◌, Option-cases, inl,
  inr,
}
use roo_threads.Base.Family.{total, total-update}
use native.Mathlib.Decide.{dec_lt}
use roo_threads.Counter.{
  Pc, absent, looping, entered, loaded, stored, returned, Worker, MainPc, constructs, joins, gets,
  reads, leaves, prints, System, Step, locks, loads, stores, unlocks, ends, constructs_one,
  constructed_all, joins_one, joined_all, get_locks, get_reads, get_unlocks, Reach,
}
use roo_threads.Counter.Invariant.{has_mutex, main_has_mutex, increments, Inv}
use roo_threads.Counter.Invariant.Joining.{Reach-Inv}

abbrev pub number : ℕ → ℕ
number k = k

total-eq :
    {A B : Type 0} (v : A → ℕ) (w : B → ℕ) (f : ℕ → A) (g : ℕ → B) (n : ℕ)
    → ((j : ℕ) → j < n → v (f j) ≡ w (g j))
    → total v n f ≡ total w n g
unfolding total
total-eq v w f g zero h = refl
total-eq v w f g (suc n) h =
    omega (arith, h n (omega arith), total-eq v w f g n (λ j b. h j (omega arith)))

total_mono :
    {A B : Type 0} (v : A → ℕ) (w : B → ℕ) (f : ℕ → A) (g : ℕ → B) (n : ℕ)
    → ((j : ℕ) → j < n → v (f j) ≤ w (g j))
    → total v n f ≤ total w n g
unfolding total
total_mono v w f g zero h = omega arith
total_mono v w f g (suc n) h =
    omega (arith, h n (omega arith), total_mono v w f g n (λ j b. h j (omega arith)))

-- How many steps a thread has before it.
abbrev pub cost : Pc → ℕ → ℕ
cost absent rounds = rounds + 1
cost looping rounds = rounds + 1
cost entered rounds = rounds
cost (loaded v) rounds = rounds - 1
cost stored rounds = rounds - 2
cost returned rounds = 0

abbrev pub left : Worker → ℕ
left w = cost w.pc (4 * (w.steps - w.i))

abbrev pub left_main : ℕ → MainPc → ℕ
left_main n (constructs k) = (n - k) + n + 5
left_main n (joins k) = (n - k) + 4
left_main n gets = 3
left_main n reads = 2
left_main n (leaves v) = 1
left_main n (prints v) = 0

-- How many steps the program has before it.
abbrev pub remaining : ℕ → System → ℕ
remaining n s = total left n s.worker + left_main n s.main

module _ (n : ℕ) (steps : ℕ → ℕ) where
  -- In every reachable state the counter is at most the sum of the numbers of steps of all threads, and what
  -- loop() prints, once it has joined all threads and read the counter, is exactly this sum: no increment is lost.
  pub result-eq-total :
      {s : System}
      → Reach n steps s
      → (s.val ≤ total number n steps) × ((v : ℕ) → s.main ≡ prints v → v ≡ total number n steps)
  result-eq-total {s} r =
      let inv = Reach-Inv n steps r in
      (
        omega (
          arith,
          inv.counted,
          total_mono increments number s.worker steps n
              (λ j b. ground (arith, inv.within j, inv.busy j, inv.given j)),
        ),
        λ v e. omega (
          arith,
          inv.counted,
          inv.printed v e,
          total-eq increments number s.worker steps n
              (λ j b. ground (arith, inv.done j, inv.whole j, inv.given j)),
        ),
      )

  Step-decreases : {s t : System} → Step n s t → Inv n steps s → remaining n t < remaining n s
  Step-decreases {s} (locks k lt e l o) inv = ground (
    arith,
    total-update left s.worker n k
        (record { pc = entered; steps = (s.worker k).steps; i = (s.worker k).i }),
  )
  Step-decreases {s} (loads k lt e) inv = ground (
    arith,
    inv.busy k,
    total-update left s.worker n k
        (record { pc = loaded s.val; steps = (s.worker k).steps; i = (s.worker k).i }),
  )
  Step-decreases {s} (stores k v lt e) inv = ground (
    arith,
    inv.busy k,
    total-update left s.worker n k
        (record { pc = stored; steps = (s.worker k).steps; i = (s.worker k).i }),
  )
  Step-decreases {s} (unlocks k lt e) inv = ground (
    arith,
    inv.busy k,
    total-update left s.worker n k
        (record { pc = looping; steps = (s.worker k).steps; i = (s.worker k).i + 1 }),
  )
  Step-decreases {s} (ends k lt e l) inv = ground (
    arith,
    total-update left s.worker n k
        (record { pc = returned; steps = (s.worker k).steps; i = (s.worker k).i }),
  )
  Step-decreases {s} (constructs_one k lt e) inv = ground (
    arith,
    inv.unborn k,
    total-update left s.worker n k
        (record { pc = looping; steps = (s.worker k).steps; i = (s.worker k).i }),
  )
  Step-decreases (constructed_all e) inv = ground arith
  Step-decreases (joins_one k lt e r) inv = ground arith
  Step-decreases (joined_all e) inv = ground arith
  Step-decreases (get_locks e o) inv = ground arith
  Step-decreases (get_reads e) inv = ground arith
  Step-decreases (get_unlocks v e) inv = ground arith

  abbrev pub CanStep : System → Type 0
  CanStep s = (t : System) × Step n s t

  -- A thread that has been constructed and has not returned can go on, where nobody has the mutex or it has it itself.
  worker-CanStep :
      (s : System) (j : ℕ) (pc : Pc)
      → j < n
      → (s.worker j).pc ≡ pc
      → pc ≢ absent
      → pc ≢ returned
      → (has_mutex pc ≡ true) ⊎ (s.owner ≡ none)
      → CanStep s
  worker-CanStep s j absent lt e na nr h = absurd (na refl)
  worker-CanStep s j returned lt e na nr h = absurd (nr refl)
  worker-CanStep s j entered lt e na nr h = (_, loads j lt e)
  worker-CanStep s j (loaded v) lt e na nr h = (_, stores j v lt e)
  worker-CanStep s j stored lt e na nr h = (_, unlocks j lt e)
  worker-CanStep s j looping lt e na nr (inl h) = absurd (cc)
  worker-CanStep s j looping lt e na nr (inr o) = elim (dec_lt (s.worker j).i (s.worker j).steps) [
    | yes l ↦ (_, locks j lt e l o)
    | no l ↦ (_, ends j lt e (omega arith))
  ]

  -- Where nobody has the mutex, the task can go on, or the thread that it waits for.
  main-CanStep :
      (s : System) (m : MainPc)
      → s.main ≡ m
      → Inv n steps s
      → s.owner ≡ none
      → ((v : ℕ) → m ≢ prints v)
      → CanStep s
  main-CanStep s (constructs k) e inv o np = elim (dec_lt k n) [
    | yes lt ↦ (_, constructs_one k lt e)
    | no ge ↦ (_, constructed_all (ground (arith, inv.main_le)))
  ]
  main-CanStep s (joins k) e inv o np = elim (dec_lt k n) [
    | no ge ↦ (_, joined_all (ground (arith, inv.main_le)))
    | yes lt ↦ join_or_wait s k (s.worker k).pc lt e refl inv o
  ]
    where
      join_or_wait :
          (s : System) (k : ℕ) (pc : Pc)
          → k < n
          → s.main ≡ joins k
          → (s.worker k).pc ≡ pc
          → Inv n steps s
          → s.owner ≡ none
          → CanStep s
      join_or_wait s k returned lt e w inv o = (_, joins_one k lt e w)
      join_or_wait s k absent lt e w inv o = absurd (ground (arith, inv.present k))
      join_or_wait s k looping lt e w inv o =
          worker-CanStep s k looping lt w (λ q. cc) (λ q. cc) (inr o)
      join_or_wait s k entered lt e w inv o =
          worker-CanStep s k entered lt w (λ q. cc) (λ q. cc) (inr o)
      join_or_wait s k (loaded v) lt e w inv o =
          worker-CanStep s k (loaded v) lt w (λ q. cc) (λ q. cc) (inr o)
      join_or_wait s k stored lt e w inv o =
          worker-CanStep s k stored lt w (λ q. cc) (λ q. cc) (inr o)
  main-CanStep s gets e inv o np = (_, get_locks e o)
  main-CanStep s reads e inv o np = (_, get_reads e)
  main-CanStep s (leaves v) e inv o np = (_, get_unlocks v e)
  main-CanStep s (prints v) e inv o np = absurd (np v refl)

  main_owner-CanStep : (s : System) (m : MainPc) → s.main ≡ m → main_has_mutex m ≡ true → CanStep s
  main_owner-CanStep s reads e h = (_, get_reads e)
  main_owner-CanStep s (leaves v) e h = (_, get_unlocks v e)
  main_owner-CanStep s (constructs k) e h = absurd (cc)
  main_owner-CanStep s (joins k) e h = absurd (cc)
  main_owner-CanStep s gets e h = absurd (cc)
  main_owner-CanStep s (prints v) e h = absurd (cc)

  -- loop() prints its result in any interleaving: in every reachable state where it has not, some step can be
  -- taken, and every step leaves fewer steps to go, so that the threads can neither block one
  -- another nor run on for ever.
  pub Reach-terminates :
      {s : System}
      → Reach n steps s
      → (((v : ℕ) → s.main ≢ prints v) → CanStep s)
        × ((t : System) → Step n s t → remaining n t < remaining n s)
  Reach-terminates {s} r =
      let inv = Reach-Inv n steps r in
      (
        (λ np. elim (Option-cases s.owner) [
          | inl o ↦ main-CanStep s s.main refl inv o np
          | inr (j, o) ↦ elim (inv.known j o) [
            | inl (lt, h) ↦
                worker-CanStep s j (s.worker j).pc lt refl (λ q. ground arith) (λ q. ground arith)
                  (inl h)
            | inr (e, h) ↦ main_owner-CanStep s s.main refl h
          ]
        ]),
        λ t step. Step-decreases step inv,
      )
