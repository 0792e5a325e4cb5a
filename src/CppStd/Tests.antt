-- ===== src/CppStd/Tests.antt =====
-- The theorems on impl/cppstd, for a program that is a clock.
use roo_threads.Base.{ℕ, ◌+◌, ◌≡◌, refl, ◌⊎◌, false, none, some, arith}
use roo_threads.Base.Int.{ℤ, pos, pos_part, ◌+ℤ◌, ◌≤ℤ◌, +ℤ_parts}
use roo_threads.PredicateWait.{timeout}
use roo_threads.CppStd.{StdKernel, sleep_until, wait_until, wait_until_holds}
use roo_threads.CppStd.Clamp.{ten_days, clamp_lem, wait_until_holds_early}

-- Nobody notifies, and every wait takes its time.
abbrev pass : ℤ → ℕ → ℕ
pass d n = n + pos_part d

pass_lem : (d : ℤ) (n : ℕ) → pos n +ℤ d ≤ℤ pos (pass d n)
pass_lem d n = ground (arith, +ℤ_parts (pos n) d)

abbrev alone : StdKernel
alone = record {
  World = ℕ;
  uptime = λ n. pos n;
  std_sleep_for = pass;
  std_wait = λ n. none;
  std_wait_for = λ d n. (pass d n, timeout);
  std_wait_for_holds = λ p d n. p (pass d n);
  std_notify_one = λ n. n;
  std_notify_all = λ n. n;
  std_yield = λ n. n;
  std_get_id = λ n. 1;
  uptime-std_sleep_for = pass_lem;
  uptime-std_wait_for = λ d n h. pass_lem d n;
}

-- eleven days
abbrev too_far : ℤ
too_far = pos 950400000000

clamp_lem_example :
    ((too_far ≤ℤ pos (sleep_until alone too_far 5))
      ⊎ ((¬ (too_far ≤ℤ pos 5 +ℤ ten_days alone))
          × (pos 5 +ℤ ten_days alone ≤ℤ pos (sleep_until alone too_far 5))))
    × ((wait_until alone too_far 5).1 ≡ timeout
        → (too_far ≤ℤ pos (wait_until alone too_far 5).0)
          ⊎ ((¬ (too_far ≤ℤ pos 5 +ℤ ten_days alone))
              × (pos 5 +ℤ ten_days alone ≤ℤ pos (wait_until alone too_far 5).0)))
clamp_lem_example = clamp_lem alone too_far 5

far_away : ¬ (too_far ≤ℤ pos 5 +ℤ ten_days alone)
far_away h = ground (arith, +ℤ_parts (pos 5) (ten_days alone))

wait_until_holds_early_example :
    (wait_until_holds alone (λ n. (n, false)) 1 too_far 5 ≡ some (864000000005, false))
    × (¬ (too_far ≤ℤ pos 864000000005))
unfolding ◌+ℤ◌
wait_until_holds_early_example =
    wait_until_holds_early alone (λ n. (n, false)) 0 too_far 5 864000000005 far_away refl refl refl
      refl
