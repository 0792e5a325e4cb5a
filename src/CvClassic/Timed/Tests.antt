-- ===== src/CvClassic/Timed/Tests.antt =====
-- A timed wait of the classic condition variable for a predicate that never holds, with one token that
-- was left over.
use roo_threads.Base.{ℕ, ◌+◌, ◌≤◌, ◌≡◌, ◌⊎◌, Bool, true, false, some, if◌then◌else◌, arith}
use roo_threads.Base.Int.{pos, ◌≤ℤ◌}
use roo_threads.TimeUtil.{calculate_deadline_from_duration}
use roo_threads.Semaphore.Tests.{Small, small, small_take, config, config-IsTickConfig, one_token}
use roo_threads.CvClassic.Timed.{wait_for_holds, IsBudget, IsForth, wait_for_holds-Verdict}

budget-small_take :
    (ticks : ℕ) (w : Small)
    → (small_take ticks w).0.tokens + (if (small_take ticks w).1 then 1 else 0) ≤ w.tokens
unfolding small_take
budget-small_take ticks w = ground arith

tokens-IsBudget : IsBudget small config (λ w. w.tokens)
tokens-IsBudget = record { budget-take = budget-small_take }

-- Three microseconds pass.
abbrev pass : Small → Small
pass w = record w { clock = w.clock + 3 }

pass-IsForth : IsForth small config (λ w. w.tokens) pass
pass-IsForth = record { forth = λ w. omega arith; kept = λ w. omega arith }

abbrev never : Small → Small × Bool
never w = (pass w, false)

wait_for_holds-Verdict_example :
    (r : Small × Bool) × (wait_for_holds small config pass pass pass never 2 1000
        (pos 1_000_000)
        (pos 900)
        one_token
      ≡ some r)
    × ((u : Small) × (never u ≡ r)
        × ((r.1 ≡ true)
            ⊎ (calculate_deadline_from_duration (pos 1_000_000) (pos 5) (pos 900) ≤ℤ pos u.clock)))
wait_for_holds-Verdict_example =
    wait_for_holds-Verdict small config (λ w. w.tokens) tokens-IsBudget pass pass pass pass-IsForth
      pass-IsForth pass-IsForth never pass-IsForth 2 1000 (pos 1_000_000) (pos 900) one_token
      config-IsTickConfig (omega arith) (omega arith)
