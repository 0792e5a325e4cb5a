-- ===== src/CvOpt/TimedWait.antt =====
-- The waits of impl/freertos/condition_variable_opt.h with a deadline and a predicate, over
-- wait_until_impl. What other threads do while the thread waits for the mutex, and what the
-- predicate does, are functions on the same world.
use roo_threads.Base.{
  ℕ, zero, suc, ◌+◌, ◌-◌, ◌%◌, ◌≤◌, ◌<◌, ◌≡◌, refl, ◌⊎◌, inl, inr, Bool, true, false, Option, none,
  some, if◌then◌else◌, arith, Bool-cases,
}
use roo_threads.Base.Int.{ℤ, ◌-ℤ◌}
use native.Mathlib.Decide.{dec_lt}
use roo_threads.TimeUtil.{
  TickConfig, IsTickConfig, max_ticks_delay, to_ticks, tick_deadline, ticks_until, is_expired,
}
use roo_threads.CvOpt.System.{CvStatus, no_timeout, timeout}
use roo_threads.CvOpt.Timeout.{
  TickKernel, wait_notified, wait_notified-Ends, left_lem, deadline_of, get_tick_count,
}

module _ (K : TickKernel) (c : TickConfig) where
  open K use {World, ticks, late, wakes_left}

  -- A part of the program that runs between two waits, and takes `most` ticks at most.
  pub record IsShort (most : ℕ) (run : World → World) : Type 0 where
    pub forth : (w : World) → ticks w ≤ ticks (run w)
    pub near : (w : World) → ticks (run w) ≤ ticks w + most
    pub kept : (w : World) → wakes_left (run w) ≤ wakes_left w

  module _ (relock : World → World) (pred : World → World × Bool) (uptime : World → ℤ) where
    -- wait_until_impl(), with the lock of the mutex at its end; where the deadline has passed it returns
    -- before it gives the mutex up.
    relocked : Option (World × CvStatus) → Option (World × CvStatus)
    relocked none = none
    relocked (some (v, status)) = some (relock v, status)

    pub wait_once : ℕ → ℕ → World → Option (World × CvStatus)
    unfolding relocked
    wait_once fuel when w =
        let delay = ticks_until c when (get_tick_count K c w) in
        if is_expired c delay
        then some (w, timeout)
        else relocked (wait_notified K c fuel when delay w)

    -- `while (!p()) if (wait_until_impl(lock, deadline) == cv_status::timeout) return p(); return true;`
    pub loop : ℕ → ℕ → ℕ → World → Option (World × Bool)
    unfolding wait_once
    loop zero fuel when w = none
    loop (suc rounds) fuel when w = elim (pred w).1 [
      | true ↦ some ((pred w).0, true)
      | false ↦ elim (wait_once fuel when (pred w).0) [
        | none ↦ none
        | some r ↦ elim r.1 [ timeout ↦ some (pred r.0) | no_timeout ↦ loop rounds fuel when r.0 ]
      ]
    ]

    pub wait_for : ℕ → ℕ → ℤ → World → Option (World × Bool)
    unfolding loop
    wait_for rounds fuel duration w = loop rounds fuel (deadline_of K c duration w) w

    pub wait_until : ℕ → ℕ → ℤ → World → Option (World × Bool)
    unfolding loop
    wait_until rounds fuel when w = loop rounds fuel (deadline_of K c (when -ℤ uptime w) w) w

    module _ (lock_late pred_late : ℕ) (short : IsShort lock_late relock)
        (quick : IsShort pred_late (λ w. (pred w).0)) where
      -- How such a wait ends: with the value of the predicate that was evaluated last, and with
      -- false not before the end.
      abbrev pub Verdict : ℕ → World × Bool → Type 0
      Verdict end r = (u : World) × (pred u ≡ r) × ((r.1 ≡ true) ⊎ (end ≤ ticks u))

      abbrev pub slack : ℕ
      slack = late + lock_late + pred_late

      loop-Verdict :
          (rounds fuel : ℕ) (duration : ℤ) (start elapsed : ℕ) (w : World)
          → IsTickConfig c
          → to_ticks c duration + slack + max_ticks_delay c ≤ c.max_delay
          → ticks w ≡ start + elapsed
          → elapsed ≤ to_ticks c duration + late + lock_late
          → to_ticks c duration ≤ fuel
          → wakes_left w < rounds
          → (r : World × Bool) × (loop rounds fuel
                (tick_deadline c (start % (c.max_delay + 1)) (to_ticks c duration))
                w
              ≡ some r)
            × Verdict (start + to_ticks c duration) r
      unfolding loop
      loop-Verdict zero fuel duration start elapsed w good fits e bound h more =
          absurd (omega arith)
      loop-Verdict (suc rounds) fuel duration start elapsed w good fits e bound h more =
          let total = to_ticks c duration in
          let v = (pred w).0 in
          elim (Bool-cases (pred w).1) [
            | inl holds ↦ ((v, true), ground arith, (w, ground arith, inl refl))
            | inr fails ↦
                let now = ticks v - start in
                let at : ticks v ≡ start + now = omega (arith, quick.forth w) in
                let left =
                  left_lem K c duration start now v good (omega (arith, quick.near w)) at in
                elim (dec_lt now total) [
                  | no over ↦
                      (pred v, ground (arith, left.1 (omega arith)), (v, refl, inr (omega arith)))
                  | yes open' ↦
                      let (r, q, o) =
                        wait_notified-Ends K c fuel duration start now v good (omega arith) at open'
                          (omega arith) in
                      let u = relock r.0 in
                      let (went, unexpired) = left.0 open' in
                      elim o.verdict [
                        | inr (e', past) ↦ (
                          pred u,
                          ground (arith, q, went, unexpired),
                          (u, refl, inr (omega (arith, short.forth r.0))),
                        )
                        | inl e' ↦
                            let later = ticks u - start in
                            let (r', q', o') =
                              loop-Verdict rounds fuel duration start later u good fits
                                (omega (arith, short.forth r.0, o.forth))
                                (omega (arith, short.near r.0, o.near)) h
                                (omega (arith, short.kept r.0, o.paid e', quick.kept w)) in
                            (r', ground (arith, q, went, unexpired, q'), o')
                      ]
                ]
          ]

      -- wait_for() with a predicate returns, if it may go round once more than the thread is sent
      -- notifications and each wait as often as the duration has ticks, and if these, the time that
      -- the thread may be held up and kMaxTicksDelay together fit TickType_t. Its result is what the
      -- predicate gave last, and false not before the ticks of the duration have passed.
      pub wait_for-Verdict :
          (rounds fuel : ℕ) (duration : ℤ) (w : World)
          → IsTickConfig c
          → to_ticks c duration + slack + max_ticks_delay c ≤ c.max_delay
          → to_ticks c duration ≤ fuel
          → wakes_left w < rounds
          → (r : World × Bool) × (wait_for rounds fuel duration w ≡ some r)
            × Verdict (ticks w + to_ticks c duration) r
      unfolding wait_for deadline_of
      wait_for-Verdict rounds fuel duration w good fits h more =
          loop-Verdict rounds fuel duration (ticks w) 0 w good fits (omega arith) (omega arith) h
            more

      -- wait_until() with a predicate keeps the same promise, for the ticks from the call to its time.
      pub wait_until_lem :
          (rounds fuel : ℕ) (when : ℤ) (w : World)
          → let total = to_ticks c (when -ℤ uptime w) in
            IsTickConfig c
            → total + slack + max_ticks_delay c ≤ c.max_delay
            → total ≤ fuel
            → wakes_left w < rounds
            → (r : World × Bool) × (wait_until rounds fuel when w ≡ some r)
              × Verdict (ticks w + total) r
      unfolding wait_until deadline_of
      wait_until_lem rounds fuel when w good fits h more =
          loop-Verdict rounds fuel (when -ℤ uptime w) (ticks w) 0 w good fits (omega arith)
            (omega arith) h more
