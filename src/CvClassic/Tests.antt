-- ===== src/CvClassic/Tests.antt =====
-- Tests of condition_variable_classic.cpp, and its theorems on concrete schedules.
use roo_threads.Base.{ℕ, ◌+◌, ◌≤◌, ◌<◌, ◌≡◌, refl, true, none, some, arith}
use roo_threads.Base.Int.{ℤ, pos, negsuc, ◌+ℤ◌, ◌-ℤ◌}
use roo_threads.Base.Family.{update, total}
use roo_threads.Base.Runs.{Run}
use roo_threads.Kernel.Concrete.{tokens}
use roo_threads.CvClassic.{
  outside, holding, waiting, CvClassic, condition_variable_classic, notify_one, give_times,
  notify_all, System, Own, lock_mutex, start_wait, Reach, start, later,
}
use roo_threads.CvClassic.Counting.{waiters}
use roo_threads.CvClassic.Overtaking.{late_waiter_overtakes}
use roo_threads.CvClassic.Wakeup.{
  tokens_cover_waiters, notify_all_serves, notify_one_serves, timeout_after_signal,
}

abbrev counted : ℤ → ℕ → CvClassic tokens
counted c n = record { waitlist = n; waitcount = c }

notify_one_gives_a_token : notify_one tokens (counted (pos 2) 0) ≡ counted (pos 1) 1
unfolding notify_one ◌-ℤ◌
notify_one_gives_a_token = refl

notify_one_of_nobody : notify_one tokens (counted (pos 0) 0) ≡ counted (pos 0) 0
unfolding notify_one
notify_one_of_nobody = refl

notify_all_gives_tokens : notify_all tokens (counted (pos 3) 1) ≡ counted (pos 0) 4
unfolding notify_all give_times
notify_all_gives_tokens = refl

abbrev unused : System tokens
unused = record { cv = condition_variable_classic tokens; owner = none; pc = λ _. outside }

abbrev locked_by_0 : System tokens
locked_by_0 = record unused { owner = some 0; pc = update (λ _. outside) 0 holding }

-- Thread 0 is in a wait with a timeout.
abbrev one_waits : System tokens
one_waits = record {
  cv = record { waitlist = 0; waitcount = pos 1 };
  owner = none;
  pc = update (update (λ _. outside) 0 holding) 0 (waiting true);
}

Reach-one_waits : Reach tokens 2 one_waits
unfolding condition_variable_classic ◌+ℤ◌
Reach-one_waits =
    later (later (start unused refl refl (λ _. refl)) (lock_mutex 0 (omega arith) refl refl))
      (start_wait 0 true (omega arith) refl)

tokens_cover_waiters_example : waiters tokens 2 one_waits + 0 ≤ 1 + 0
tokens_cover_waiters_example = tokens_cover_waiters tokens 2 (omega arith) Reach-one_waits

notify_all_serves_example : waiters tokens 2 one_waits ≤ (notify_all tokens one_waits.cv).waitlist
notify_all_serves_example = notify_all_serves tokens 2 (omega arith) Reach-one_waits

notify_one_serves_example : 0 < (notify_one tokens one_waits.cv).waitlist
unfolding total
notify_one_serves_example = notify_one_serves tokens 2 (omega arith) Reach-one_waits (omega arith)

timeout_after_signal_example :
    let u = record one_waits { cv = notify_one tokens one_waits.cv } in
    (u.cv.waitcount ≡ pos 0)
    × (t : System tokens) × Run (Own tokens 2 0) u t
    × (t.pc 0 ≡ holding)
    × (t.owner ≡ some 0)
    × (t.cv.waitcount ≡ negsuc 0)
timeout_after_signal_example =
    timeout_after_signal tokens 2 0 Reach-one_waits (omega arith) refl refl refl

-- Thread 1 takes the token that notify_one() gave for thread 0.
late_waiter_overtakes_example :
    let u = record one_waits { cv = notify_one tokens one_waits.cv } in
    (u.cv.waitlist ≡ 1)
    × (u.cv.waitcount ≡ pos 0)
    × (t : System tokens) × Run (Own tokens 2 1) u t
    × (t.pc 1 ≡ holding)
    × (t.pc 0 ≡ waiting true)
    × (t.cv.waitcount ≡ pos 1)
    × (t.cv.waitlist ≡ 0)
late_waiter_overtakes_example =
    late_waiter_overtakes tokens 2 {s = one_waits} 0 1 true (omega arith) (omega arith)
      (omega arith) refl refl refl refl refl
