-- ===== src/Thread/Sleep.antt =====
-- this_thread::sleep_until() and sleep_for() of impl/freertos/thread.cpp.
use roo_threads.Base.{
  ℕ, zero, suc, ◌+◌, ◌-◌, ◌*◌, ◌/◌, ◌%◌, ◌≤◌, ◌<◌, ◌≡◌, inl, inr, Option, none, some, if◌then◌else◌,
  arith, Bool-cases,
}
use roo_threads.Base.Int.{before, closer, ℤ, pos, pos_part, leb_ℤ, ◌-ℤ◌, ◌+ℤ◌, ◌≤ℤ◌}
use roo_threads.Base.Division.{div_up_bounds, le_of_mul_lt}
use native.Mathlib.Decide.{dec_lt}
use native.Mathlib.Nat.{mod-eq_of_lt}
use roo_threads.TimeUtil.{TickConfig, IsTickConfig}

-- The clock, in microseconds; `delay` is vTaskDelay, which takes some time for a tick or more; and
-- `millis` is inMillisRoundedUp() of a duration that is not negative.
pub record DelayKernel : Type 1 where
  pub World : Type 0
  pub uptime : World → ℕ
  pub delay : ℕ → World → World
  pub millis : ℕ → ℕ
  pub uptime-delay : (ticks : ℕ) (w : World) → uptime w ≤ uptime (delay ticks w)
  pub uptime-delay_pos : (ticks : ℕ) (w : World) → 0 < ticks → uptime w < uptime (delay ticks w)
  pub millis_up : (d : ℕ) → d ≤ millis d * 1000
  pub millis_mono : (d e : ℕ) → d ≤ e → millis d ≤ millis e

module _ (K : DelayKernel) (c : TickConfig) where
  open K use {World, uptime, delay, millis, uptime-delay, uptime-delay_pos, millis_up, millis_mono}

  -- `(delta.inMillisRoundedUp() + portTICK_PERIOD_MS - 1) / portTICK_PERIOD_MS`
  abbrev pub sleep_ticks : ℕ → ℕ
  sleep_ticks delta = (millis delta + c.period - 1) / c.period

  -- At most `fuel` times round; the argument of vTaskDelay is a TickType_t.
  unfoldable pub sleep_until : ℕ → ℤ → World → Option World
  sleep_until zero when w = none
  sleep_until (suc fuel) when w =
      let delta = pos_part (when -ℤ pos (uptime w)) in
      let rest = sleep_until fuel when (delay (sleep_ticks delta % (c.max_delay + 1)) w) in
      if leb_ℤ when (pos (uptime w)) then some w else rest

  unfoldable pub sleep_for : ℕ → ℤ → World → Option World
  unfolding sleep_until
  sleep_for fuel duration w = sleep_until fuel (pos (uptime w) +ℤ duration) w

  -- The delay is some ticks, if the port's ticks are a millisecond or more.
  sleep_ticks_pos : (delta : ℕ) → IsTickConfig c → 0 < delta → 0 < sleep_ticks delta
  sleep_ticks_pos delta v h = elim (dec_lt 0 (sleep_ticks delta)) [
    | yes p ↦ p
    | no p ↦
        let none_left : sleep_ticks delta ≡ 0 = omega arith in
        grind
          (arith, none_left, div_up_bounds (millis delta) c.period v.period_pos, millis_up delta)
  ]

  sleep_ticks_mono : (d e : ℕ) → IsTickConfig c → d ≤ e → sleep_ticks d ≤ sleep_ticks e
  sleep_ticks_mono d e v h = le_of_mul_lt (sleep_ticks d) (sleep_ticks e) c.period (
      omega (
        arith,
        div_up_bounds (millis d) c.period v.period_pos,
        div_up_bounds (millis e) c.period v.period_pos,
        millis_mono d e h,
      ))

  -- sleep_until() returns, if it may go round once more than there are microseconds up to its time and
  -- the delay fits TickType_t, and not before its time.
  pub sleep_until_lem :
      (fuel : ℕ) (when : ℤ) (w : World)
      → IsTickConfig c
      → sleep_ticks (pos_part (when -ℤ pos (uptime w))) ≤ c.max_delay
      → pos_part (when -ℤ pos (uptime w)) < fuel
      → (v : World) × (sleep_until fuel when w ≡ some v) × (when ≤ℤ pos (uptime v))
  unfolding sleep_until
  sleep_until_lem zero when w v fits h = absurd (omega arith)
  sleep_until_lem (suc fuel) when w v fits h = elim (Bool-cases (leb_ℤ when (pos (uptime w)))) [
    | inl e ↦ (w, ground arith, ground arith)
    | inr e ↦
        let delta = pos_part (when -ℤ pos (uptime w)) in
        let ticks = sleep_ticks delta % (c.max_delay + 1) in
        let whole : ticks ≡ sleep_ticks delta = mod-eq_of_lt (omega arith) in
        let w' = delay ticks w in
        let later : uptime w < uptime w' =
          uptime-delay_pos ticks w
            (omega (arith, whole, sleep_ticks_pos delta v (before when (uptime w) e))) in
        let near = closer when (uptime w) (uptime w') delta e later (omega arith) in
        let (u, q, o) =
          sleep_until_lem fuel when w' v
            (omega
              (arith, sleep_ticks_mono (pos_part (when -ℤ pos (uptime w'))) delta v (omega arith)))
            (omega arith) in
        (u, ground arith, o)
  ]
