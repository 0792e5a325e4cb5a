-- ===== src/CvClassic/Timed.antt =====
-- The timed waits of impl/freertos/condition_variable_classic.h and .cpp, as one thread runs them, over the
-- semaphore of impl/freertos/semaphore.h. `enter` is the first block of wait_until, `relock` its
-- lock.lock(), and `discount` its end after a timeout; other threads run during them.
mod Tests
use roo_threads.Base.{
  ℕ, zero, suc, ◌+◌, ◌≤◌, ◌<◌, ◌≡◌, refl, ◌⊎◌, inl, inr, Bool, true, false, Option, none, some,
  if◌then◌else◌, arith, Bool-cases,
}
use roo_threads.Base.Int.{ℤ, pos, pos_part, leb_ℤ, ◌-ℤ◌, ◌≤ℤ◌}
use roo_threads.Kernel.{SemaphoreKernel}
use roo_threads.TimeUtil.{TickConfig, IsTickConfig, to_ticks, calculate_deadline_from_duration}
use roo_threads.TimeUtil.Wrap.{deadline_near}
use roo_threads.PredicateWait.{CvStatus, no_timeout, timeout}
use roo_threads.Semaphore.{try_acquire_until}
use roo_threads.Semaphore.Timed.{try_acquire_until-Outcome}

module _ (K : SemaphoreKernel) (c : TickConfig) where
  open K use {World, uptime, take, uptime-take}

  module _ (enter relock discount : World → World) where
    -- `if (acquired) return cv_status::no_timeout; … --waitcount_; return cv_status::timeout;`
    ended : World × Bool → World × CvStatus
    ended (w, acquired) =
        if acquired then (relock w, no_timeout) else (discount (relock w), timeout)

    unfoldable pub wait_until : ℕ → ℤ → World → Option (World × CvStatus)
    unfolding ended
    wait_until fuel when w = elim (try_acquire_until K c fuel when (enter w)) [
      | none ↦ none
      | some r ↦ some (ended r)
    ]

    unfoldable pub wait_for : ℕ → ℤ → ℤ → World → Option (World × CvStatus)
    unfolding wait_until
    wait_for fuel uptime_max duration w =
        wait_until fuel (calculate_deadline_from_duration uptime_max (pos (uptime w)) duration) w

    module _ (pred : World → World × Bool) where
      -- `while (!p()) if (wait_until(lock, when) == cv_status::timeout) return p(); return true;`
      unfoldable pub wait_until_holds : ℕ → ℕ → ℤ → World → Option (World × Bool)
      unfolding wait_until
      wait_until_holds zero fuel when w = none
      wait_until_holds (suc rounds) fuel when w = elim (pred w).1 [
        | true ↦ some ((pred w).0, true)
        | false ↦ elim (wait_until fuel when (pred w).0) [
          | none ↦ none
          | some r ↦ elim r.1 [
            | timeout ↦ some (pred r.0)
            | no_timeout ↦ wait_until_holds rounds fuel when r.0
          ]
        ]
      ]

      unfoldable pub wait_for_holds : ℕ → ℕ → ℤ → ℤ → World → Option (World × Bool)
      unfolding wait_until_holds
      wait_for_holds rounds fuel uptime_max duration w =
          wait_until_holds rounds fuel
            (calculate_deadline_from_duration uptime_max (pos (uptime w)) duration) w

  -- How many tokens the semaphore still gives to the thread. A part of the program that does not
  -- acquire leaves it, or what is left of it, and the clock does not run backwards.
  pub record IsBudget (budget : World → ℕ) : Type 0 where
    pub budget-take :
        (ticks : ℕ) (w : World)
        → budget (take ticks w).0 + (if (take ticks w).1 then 1 else 0) ≤ budget w

  pub record IsForth (budget : World → ℕ) (run : World → World) : Type 0 where
    pub forth : (w : World) → uptime w ≤ uptime (run w)
    pub kept : (w : World) → budget (run w) ≤ budget w

  module _ (budget : World → ℕ) (paid : IsBudget budget) where
    budget-try_acquire_until :
        (fuel : ℕ) (when : ℤ) (w v : World) (b : Bool)
        → try_acquire_until K c fuel when w ≡ some (v, b)
        → budget v + (if b then 1 else 0) ≤ budget w
    unfolding try_acquire_until
    budget-try_acquire_until zero when w v b h = ground arith
    budget-try_acquire_until (suc fuel) when w v b h =
        let t = to_ticks c (when -ℤ pos (uptime w)) in
        ground (arith, paid.budget-take t w, budget-try_acquire_until fuel when (take t w).0 v b)

    nearer :
        (when : ℤ) (now now' fuel : ℕ)
        → now ≤ now'
        → pos_part (when -ℤ pos now) < fuel
        → pos_part (when -ℤ pos now') < fuel
    unfolding ◌-ℤ◌
    nearer when now now' fuel le h = ground arith

    module _ (enter relock discount : World → World) (enters : IsForth budget enter)
        (relocks : IsForth budget relock) (discounts : IsForth budget discount) where
      -- A wait ends after a token was acquired, or not before its time.
      record Ends (when : ℤ) (w : World) (r : World × CvStatus) : Type 0 where
        forth : uptime w ≤ uptime r.0
        kept : budget r.0 ≤ budget w
        verdict :
            ((r.1 ≡ no_timeout) × (budget r.0 < budget w))
            ⊎ ((r.1 ≡ timeout) × (when ≤ℤ pos (uptime r.0)))

      wait_until-Ends :
          (fuel : ℕ) (when : ℤ) (w : World)
          → IsTickConfig c
          → pos_part (when -ℤ pos (uptime w)) < fuel
          → (r : World × CvStatus) × (wait_until enter relock discount fuel when w ≡ some r)
            × Ends when w r
      unfolding wait_until
      wait_until-Ends fuel when w good h =
          let v = enter w in
          let ((u, b), q, o) =
            try_acquire_until-Outcome K c fuel when v good
              (nearer when (uptime w) (uptime v) fuel (enters.forth w) h) in
          let tokens = budget-try_acquire_until fuel when v u b q in
          elim (Bool-cases b) [
            | inl e ↦ (
              (relock u, no_timeout),
              ground arith,
              record {
                forth = omega (arith, enters.forth w, relocks.forth u, o.0);
                kept = ground (arith, enters.kept w, relocks.kept u, tokens);
                verdict = ground (arith, enters.kept w, relocks.kept u, tokens);
              },
            )
            | inr e ↦ (
              (discount (relock u), timeout),
              ground arith,
              record {
                forth =
                    omega (arith, enters.forth w, relocks.forth u, discounts.forth (relock u), o.0);
                kept =
                    ground
                      (arith, enters.kept w, relocks.kept u, discounts.kept (relock u), tokens);
                verdict = ground (arith, relocks.forth u, discounts.forth (relock u));
              },
            )
          ]

      -- How such a wait ends: with the value of the predicate that was evaluated last, and with
      -- false not before the time.
      abbrev pub Verdict : (World → World × Bool) → ℤ → World × Bool → Type 0
      Verdict pred when r = (u : World) × (pred u ≡ r) × ((r.1 ≡ true) ⊎ (when ≤ℤ pos (uptime u)))

      module _ (pred : World → World × Bool) (asks : IsForth budget (λ w. (pred w).0)) where
        -- wait_until() with a predicate returns, if it may go round once more than the semaphore gives the
        -- thread tokens, and its acquisitions once more than there are microseconds up to the time. Its result
        -- is what the predicate gave last, and false not before the time.
        pub wait_until_holds-Verdict :
            (rounds fuel : ℕ) (when : ℤ) (w : World)
            → IsTickConfig c
            → pos_part (when -ℤ pos (uptime w)) < fuel
            → budget w < rounds
            → (r : World × Bool) × (wait_until_holds enter relock discount pred rounds fuel when w
                ≡ some r)
              × Verdict pred when r
        unfolding wait_until_holds
        wait_until_holds-Verdict zero fuel when w good h more = absurd (omega arith)
        wait_until_holds-Verdict (suc rounds) fuel when w good h more =
            elim (Bool-cases (pred w).1) [
              | inl e ↦ (((pred w).0, true), ground arith, (w, ground arith, inl refl))
              | inr e ↦
                  let v = (pred w).0 in
                  let near = nearer when (uptime w) (uptime v) fuel (asks.forth w) h in
                  let (r, q, o) = wait_until-Ends fuel when v good near in
                  elim o.verdict [
                    | inr (e', past) ↦ (pred r.0, ground arith, (r.0, refl, inr past))
                    | inl (e', spent) ↦
                        let (r', q', o') =
                          wait_until_holds-Verdict rounds fuel when r.0 good
                            (nearer when (uptime v) (uptime r.0) fuel o.forth near)
                            (omega (arith, asks.kept w)) in
                        (r', ground arith, o')
                  ]
            ]

        -- wait_for() with a predicate keeps the same promise for the time that
        -- CalculateDeadlineFromDuration gives, if its acquisitions may go round once more than the
        -- duration has microseconds.
        pub wait_for_holds-Verdict :
            (rounds fuel : ℕ) (uptime_max duration : ℤ) (w : World)
            → IsTickConfig c
            → pos_part duration < fuel
            → budget w < rounds
            → (r : World × Bool) × (wait_for_holds enter relock discount pred rounds fuel uptime_max
                  duration w
                ≡ some r)
              × Verdict pred
                  (calculate_deadline_from_duration uptime_max (pos (uptime w)) duration)
                  r
        unfolding wait_for_holds
        wait_for_holds-Verdict rounds fuel uptime_max duration w good h more =
            wait_until_holds-Verdict rounds fuel _ w good
              (omega (arith, deadline_near uptime_max (pos (uptime w)) duration)) more
