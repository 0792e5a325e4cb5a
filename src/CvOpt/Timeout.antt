-- ===== src/CvOpt/Timeout.antt =====
-- The loop of wait_until_impl() in impl/freertos/condition_variable_opt.cpp that waits for a
-- notification, with the deadline of wait_for(). What the thread does to the table and to the mutex
-- before and after is in System.antt.
use roo_threads.Base.{
  ℕ, zero, suc, ◌+◌, ◌-◌, ◌%◌, ◌≤◌, ◌<◌, ◌≡◌, refl, ◌⊎◌, inl, inr, Bool, true, false, Option, none,
  some, if◌then◌else◌, arith, Bool-cases,
}
use roo_threads.Base.Int.{ℤ, ◌-ℤ◌}
use mathlib.Core.Path.{ap, sym, ◌∙◌}
use native.Mathlib.Decide.{dec_lt}
use native.Mathlib.Nat.{mod-add-mod, mod-lt}
use roo_threads.TimeUtil.{
  TickConfig, IsTickConfig, max_ticks_delay, to_ticks, tick_deadline, ticks_until, is_expired,
}
use roo_threads.TimeUtil.Wrap.{tick_deadline-is_expired}
use roo_threads.CvOpt.System.{CvStatus, no_timeout, timeout}

-- The scheduler as a waiting task sees it: `ticks` since it was started, which xTaskGetTickCount()
-- gives modulo the range of TickType_t, and `notify_wait delay`, which is
-- `xTaskNotifyWait(0, 0, nullptr, delay) == pdPASS`. `late` is how many ticks a task may have to wait
-- for the processor when its delay is over, and `wakes_left` how many more notifications it is sent.
pub record TickKernel : Type 1 where
  pub World : Type 0
  pub ticks : World → ℕ
  pub late : ℕ
  pub wakes_left : World → ℕ
  pub notify_wait : ℕ → World → World × Bool
  pub ticks-notify_wait : (delay : ℕ) (w : World) → ticks w ≤ ticks (notify_wait delay w).0
  pub ticks-notify_wait_failed :
      (delay : ℕ) (w : World)
      → 0 < delay
      → (notify_wait delay w).1 ≡ false
      → (ticks w < ticks (notify_wait delay w).0)
        × (ticks (notify_wait delay w).0 ≤ ticks w + delay + late)
        × (wakes_left (notify_wait delay w).0 ≤ wakes_left w)
  pub ticks-notify_wait_signaled :
      (delay : ℕ) (w : World)
      → (notify_wait delay w).1 ≡ true
      → (ticks (notify_wait delay w).0 ≤ ticks w + delay + late)
        × (wakes_left (notify_wait delay w).0 < wakes_left w)

module _ (K : TickKernel) (c : TickConfig) where
  open K use {
    World, ticks, late, wakes_left, notify_wait, ticks-notify_wait, ticks-notify_wait_failed,
    ticks-notify_wait_signaled,
  }

  unfoldable pub get_tick_count : World → ℕ
  get_tick_count w = ticks w % (c.max_delay + 1)

  -- The loop, at most `fuel` times round, with the delay that it starts with.
  pub wait_notified : ℕ → ℕ → ℕ → World → Option (World × CvStatus)
  unfolding get_tick_count
  wait_notified zero when delay w = none
  wait_notified (suc fuel) when delay w =
      let v = (notify_wait delay w).0 in
      let left = ticks_until c when (get_tick_count v) in
      let again = wait_notified fuel when left v in
      if (notify_wait delay w).1
      then some (v, no_timeout)
      else if is_expired c left
      then some (v, timeout)
      else again

  -- `wait_until_impl(lock, when)`, but for the table and the mutex
  pub wait_until_impl : ℕ → ℕ → World → Option (World × CvStatus)
  unfolding get_tick_count wait_notified
  wait_until_impl fuel when w =
      let delay = ticks_until c when (get_tick_count w) in
      if is_expired c delay then some (w, timeout) else wait_notified fuel when delay w

  -- `xTaskGetTickCount() + ToTicks(duration)`
  unfoldable pub deadline_of : ℤ → World → ℕ
  unfolding get_tick_count
  deadline_of duration w = tick_deadline c (get_tick_count w) (to_ticks c duration)

  pub wait_for : ℕ → ℤ → World → Option (World × CvStatus)
  unfolding wait_until_impl deadline_of
  wait_for fuel duration w = wait_until_impl fuel (deadline_of duration w) w

  -- `uptime` is roo_time::Uptime::Now().
  pub wait_until : (World → ℤ) → ℕ → ℤ → World → Option (World × CvStatus)
  unfolding wait_until_impl deadline_of
  wait_until uptime fuel when w = wait_until_impl fuel (deadline_of (when -ℤ uptime w) w) w

  -- What the loop computes, `elapsed` ticks after the wait began.
  pub left_lem :
      (duration : ℤ) (start elapsed : ℕ) (v : World)
      → IsTickConfig c
      → elapsed + max_ticks_delay c ≤ c.max_delay
      → ticks v ≡ start + elapsed
      → let total = to_ticks c duration in
        let left =
          ticks_until c (tick_deadline c (start % (c.max_delay + 1)) total) (get_tick_count v) in
        (elapsed < total → (left ≡ total - elapsed) × (is_expired c left ≡ false))
        × (total ≤ elapsed → is_expired c left ≡ true)
  unfolding get_tick_count tick_deadline
  left_lem duration start elapsed v good fits e =
      let start' = start % (c.max_delay + 1) in
      let same : ticks v % (c.max_delay + 1) ≡ (start' + elapsed) % (c.max_delay + 1) =
        ap (λ x. x % (c.max_delay + 1)) e ∙ sym (mod-add-mod start (c.max_delay + 1) elapsed) in
      rw same (
        tick_deadline-is_expired c duration start' elapsed good
          (omega (arith, mod-lt start {m = c.max_delay + 1} (omega arith))) fits)

  -- How a timed wait ends: with a notification, or when its ticks have passed.
  abbrev pub IsVerdict : ℕ → World × CvStatus → Type 0
  IsVerdict end (v, status) = (status ≡ no_timeout) ⊎ ((status ≡ timeout) × (end ≤ ticks v))

  -- The same with what it has cost: the clock has not run far past the end, and a notification is used
  -- up.
  pub record Ends (end : ℕ) (w : World) (r : World × CvStatus) : Type 0 where
    pub verdict : IsVerdict end r
    pub forth : ticks w ≤ ticks r.0
    pub near : ticks r.0 ≤ end + late
    pub kept : wakes_left r.0 ≤ wakes_left w
    pub paid : r.1 ≡ no_timeout → wakes_left r.0 < wakes_left w

  pub wait_notified-Ends :
      (fuel : ℕ) (duration : ℤ) (start elapsed : ℕ) (w : World)
      → IsTickConfig c
      → to_ticks c duration + late + max_ticks_delay c ≤ c.max_delay
      → ticks w ≡ start + elapsed
      → elapsed < to_ticks c duration
      → to_ticks c duration - elapsed < suc fuel
      → (r : World × CvStatus) × (wait_notified fuel
            (tick_deadline c (start % (c.max_delay + 1)) (to_ticks c duration))
            (to_ticks c duration - elapsed)
            w
          ≡ some r)
        × Ends (start + to_ticks c duration) w r
  unfolding wait_notified
  wait_notified-Ends zero duration start elapsed w good fits e before_end h = absurd (omega arith)
  wait_notified-Ends (suc fuel) duration start elapsed w good fits e before_end h =
      let total = to_ticks c duration in
      let delay = total - elapsed in
      let v = (notify_wait delay w).0 in
      let forth = ticks-notify_wait delay w in
      elim (Bool-cases (notify_wait delay w).1) [
        | inl signaled ↦
            let (near, paid) = ticks-notify_wait_signaled delay w signaled in
            (
              (v, no_timeout),
              ground arith,
              record {
                verdict = inl refl;
                forth = forth;
                near = omega arith;
                kept = omega arith;
                paid = λ _. paid;
              },
            )
        | inr expired ↦
            let (more, most, kept) = ticks-notify_wait_failed delay w (omega arith) expired in
            let now = ticks v - start in
            let at : ticks v ≡ start + now = omega arith in
            let left = left_lem duration start now v good (omega arith) at in
            elim (dec_lt now total) [
              | no over ↦ (
                (v, timeout),
                ground (arith, left.1 (omega arith)),
                record {
                  verdict = inr (refl, omega arith);
                  forth = forth;
                  near = omega arith;
                  kept = kept;
                  paid = λ e'. cc;
                },
              )
              | yes open' ↦
                  let (r, q, o) =
                    wait_notified-Ends fuel duration start now v good fits at open' (omega arith) in
                  (
                    r,
                    ground (arith, left.0 open', q),
                    record {
                      verdict = o.verdict;
                      forth = omega (arith, o.forth);
                      near = o.near;
                      kept = omega (arith, o.kept);
                      paid = λ e'. omega (arith, o.paid e');
                    },
                  )
            ]
      ]

  -- A wait until a deadline that was set `elapsed` ticks ago, which may have passed.
  pub wait_until_impl-Ends :
      (fuel : ℕ) (duration : ℤ) (start elapsed : ℕ) (w : World)
      → IsTickConfig c
      → to_ticks c duration + late + max_ticks_delay c ≤ c.max_delay
      → elapsed + max_ticks_delay c ≤ c.max_delay
      → ticks w ≡ start + elapsed
      → to_ticks c duration ≤ fuel
      → (r : World × CvStatus) × (wait_until_impl fuel
            (tick_deadline c (start % (c.max_delay + 1)) (to_ticks c duration))
            w
          ≡ some r)
        × (Ends (start + to_ticks c duration) w r
            ⊎ ((r ≡ (w, timeout)) × (to_ticks c duration ≤ elapsed)))
  unfolding wait_until_impl
  wait_until_impl-Ends fuel duration start elapsed w good fits fits' e h =
      let left = left_lem duration start elapsed w good fits' e in
      elim (dec_lt elapsed (to_ticks c duration)) [
        | no none_left ↦
            ((w, timeout), ground (arith, left.1 (omega arith)), inr (refl, omega arith))
        | yes some_left ↦
            let (r, q, o) =
              wait_notified-Ends fuel duration start elapsed w good fits e some_left
                (omega arith) in
            (r, ground (arith, left.0 some_left, q), inl o)
      ]

  -- A wait for a duration returns, if its loop may go round as often as the duration has ticks, and the
  -- ticks, the time that the task may be late and kMaxTicksDelay together fit TickType_t. It ends with
  -- no_timeout, by a notification, or with timeout when its ticks have passed, also where the tick
  -- count wraps around meanwhile.
  pub wait_for_lem :
      (fuel : ℕ) (duration : ℤ) (w : World)
      → IsTickConfig c
      → to_ticks c duration + late + max_ticks_delay c ≤ c.max_delay
      → to_ticks c duration ≤ fuel
      → (r : World × CvStatus) × (wait_for fuel duration w ≡ some r)
        × IsVerdict (ticks w + to_ticks c duration) r
  unfolding wait_for get_tick_count
  wait_for_lem fuel duration w good fits h =
      let (r, q, o) =
        wait_until_impl-Ends fuel duration (ticks w) 0 w good fits (omega arith) (omega arith) h in
      elim o [
        | inl ends ↦ (r, q, ends.verdict)
        | inr (e, over) ↦ (r, q, rw e (inr (refl, omega arith)))
      ]

  -- A wait until a time keeps that promise for the ticks that are left until then.
  pub wait_until_lem :
      (uptime : World → ℤ) (fuel : ℕ) (when : ℤ) (w : World)
      → let total = to_ticks c (when -ℤ uptime w) in
        IsTickConfig c
        → total + late + max_ticks_delay c ≤ c.max_delay
        → total ≤ fuel
        → (r : World × CvStatus) × (wait_until uptime fuel when w ≡ some r)
          × IsVerdict (ticks w + total) r
  unfolding wait_until wait_for
  wait_until_lem uptime fuel when w = wait_for_lem fuel (when -ℤ uptime w) w
