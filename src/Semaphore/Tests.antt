-- ===== src/Semaphore/Tests.antt =====
-- Tests of impl/freertos/semaphore.h, and its theorems over a small kernel.
use roo_threads.Base.{
  ℕ, ◌+◌, ◌-◌, ◌*◌, ◌^◌, ◌≤◌, ◌<◌, ◌≡◌, refl, Bool, true, false, some, arith, ltb, if◌then◌else◌,
}
use roo_threads.Base.Int.{pos, ◌+ℤ◌, ◌≤ℤ◌, ◌-ℤ◌}
use roo_threads.Kernel.{SemaphoreKernel}
use roo_threads.TimeUtil.{TickConfig, IsTickConfig}
use roo_threads.Semaphore.{counting_semaphore, binary_semaphore, try_acquire_until, try_acquire_for}
use roo_threads.Semaphore.Timed.{Outcome, try_acquire_until-Outcome, try_acquire_for-Outcome}
use roo_threads.Semaphore.Tokens.{releases, count-counting_semaphore, count-binary_semaphore}

-- One thread alone: a wait for a semaphore with no token lets the time pass.
pub record Small : Type 0 where
  pub clock : ℕ
  pub tokens : ℕ
  pub most : ℕ
  pub mine : ℕ

unfoldable pub small_take : ℕ → Small → Small × Bool
small_take ticks w =
    if ltb 0 w.tokens
    then (record w { tokens = w.tokens - 1; mine = w.mine + 1 }, true)
    else (record w { clock = w.clock + ticks * 1000 }, false)

pub small_give : Small → Small × Bool
small_give w =
    if ltb w.tokens w.most then (record w { tokens = w.tokens + 1 }, true) else (w, false)

pub count-small_give :
    (w : Small) → (small_give w).0.tokens ≡ (if ltb w.tokens w.most then w.tokens + 1 else w.tokens)
unfolding small_give
count-small_give w = ground arith

pub capacity-small_give : (w : Small) → (small_give w).0.most ≡ w.most
unfolding small_give
capacity-small_give w = ground arith

pub taken-small_take :
    (ticks : ℕ) (w : Small)
    → (small_take ticks w).0.mine ≡ (if (small_take ticks w).1 then w.mine + 1 else w.mine)
unfolding small_take
taken-small_take ticks w = ground arith

pub clock-small_take : (ticks : ℕ) (w : Small) → w.clock ≤ (small_take ticks w).0.clock
unfolding small_take
clock-small_take ticks w = ground arith

pub clock-small_take_failed :
    (ticks : ℕ) (w : Small)
    → 0 < ticks
    → (small_take ticks w).1 ≡ false
    → w.clock < (small_take ticks w).0.clock
unfolding small_take
clock-small_take_failed ticks w h e = ground arith

abbrev pub small : SemaphoreKernel
small = record {
  World = Small;
  uptime = λ w. w.clock;
  count = λ w. w.tokens;
  capacity = λ w. w.most;
  taken = λ w. w.mine;
  create_counting = λ most first w. record w { tokens = first; most = most };
  create_binary = λ w. record w { tokens = 0; most = 1 };
  take = small_take;
  give = small_give;
  count-create_counting = λ most first w h. refl;
  capacity-create_counting = λ most first w. refl;
  count-create_binary = λ w. refl;
  capacity-create_binary = λ w. refl;
  count-give = count-small_give;
  capacity-give = capacity-small_give;
  taken-take = taken-small_take;
  uptime-take = clock-small_take;
  uptime-take_failed = clock-small_take_failed;
}

-- 1000 ticks a second, 32-bit ticks
abbrev pub config : TickConfig
config = record { period = 1; max_delay = 2 ^ 32 - 1 }

pub config-IsTickConfig : IsTickConfig config
config-IsTickConfig = omega arith

abbrev empty_at_5 : Small
empty_at_5 = record { clock = 5; tokens = 0; most = 4; mine = 0 }

abbrev pub one_token : Small
one_token = record { clock = 5; tokens = 1; most = 4; mine = 0 }

try_acquire_until-Outcome_example :
    (r : Small × Bool) × (try_acquire_until small config 1000 (pos 905) empty_at_5 ≡ some r)
    × Outcome small config (pos 905) empty_at_5 r
unfolding ◌-ℤ◌
try_acquire_until-Outcome_example =
    try_acquire_until-Outcome small config 1000 (pos 905) empty_at_5 config-IsTickConfig
      (omega arith)

try_acquire_for-Outcome_example :
    (r : Small × Bool) × (try_acquire_for small config 1000 (pos 1_000_000) (pos 900) one_token
      ≡ some r)
    × ((pos 5 +ℤ pos 900 ≤ℤ pos 1_000_000 → Outcome small config (pos 5 +ℤ pos 900) one_token r)
        × (pos 1_000_000 ≤ℤ pos 5 +ℤ pos 900 → Outcome small config (pos 1_000_000) one_token r))
try_acquire_for-Outcome_example =
    try_acquire_for-Outcome small config 1000 (pos 1_000_000) (pos 900) one_token
      config-IsTickConfig (omega arith)

count-counting_semaphore_example :
    (releases small 3 (counting_semaphore small 4 2 empty_at_5)).tokens ≡ 4
count-counting_semaphore_example = count-counting_semaphore small 4 2 3 empty_at_5 (omega arith)

count-binary_semaphore_example : (releases small 2 (binary_semaphore small 0 empty_at_5)).tokens ≡ 1
count-binary_semaphore_example = count-binary_semaphore small 0 2 empty_at_5
