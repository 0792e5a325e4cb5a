-- ===== src/SingleThreaded/Tests.antt =====
-- Tests of the backend for a single thread, and its theorems at concrete states.
use roo_threads.Base.{
  ℕ, ◌+◌, ◌≡◌, refl, ◌≢◌, ◌⊎◌, Bool, true, false, some, List, [], ◌∷◌, ◌==◌, arith,
}
use roo_threads.Base.Int.{ℤ, pos, negsuc, pos_part, ◌+ℤ◌, ◌≤ℤ◌, +ℤ_parts}
use roo_threads.SingleThreaded.Waiting.{
  TimeKernel, wait_until_holds, sleep_for, sleep_until, observes, sleep_lem, wait_until_holds_lem,
}
use roo_threads.SingleThreaded.Values.{
  joinable, get_id, this_id, ThreadCall, constructs, constructs_moved, swaps, perform_all,
  perform_all_lem, relaxed, seq_cst, store, load, exchange,
}

-- A program with a number and a clock.
abbrev delay_by : ℤ → ℕ × ℕ → ℕ × ℕ
delay_by d (n, t) = (n, t + pos_part d)

uptime_delay_lem : (d : ℤ) (w : ℕ × ℕ) → pos w.1 +ℤ d ≤ℤ pos (delay_by d w).1
uptime_delay_lem d w = ground (arith, +ℤ_parts (pos w.1) d)

abbrev clock : TimeKernel
clock = record {
  World = ℕ × ℕ;
  Rest = ℕ;
  rest = λ w. w.0;
  uptime = λ w. pos w.1;
  delay = delay_by;
  rest-delay = λ d w. refl;
  uptime-delay = uptime_delay_lem;
}

sleep_lem_example :
    (pos 9 ≤ℤ pos (sleep_until clock (pos 9) (4, 5)).1)
    × ((sleep_until clock (pos 9) (4, 5)).0 ≡ 4)
    × (pos 5 +ℤ negsuc 2 ≤ℤ pos (sleep_for clock (negsuc 2) (4, 5)).1)
    × ((sleep_for clock (negsuc 2) (4, 5)).0 ≡ 4)
sleep_lem_example = sleep_lem clock (pos 9) (negsuc 2) (4, 5)

abbrev is_seven : ℕ → Bool
is_seven n = n == 7

wait_until_holds_lem_example :
    ((is_seven 4 ≡ true)
      × (wait_until_holds clock (observes clock is_seven) 1 (pos 9) (4, 5) ≡ some ((4, 5), true)))
    ⊎ ((is_seven 4 ≡ false)
        × (v : ℕ × ℕ) × (wait_until_holds clock (observes clock is_seven) 1 (pos 9) (4, 5)
            ≡ some (v, false))
        × (pos 9 ≤ℤ pos v.1)
        × (v.0 ≡ 4))
wait_until_holds_lem_example = wait_until_holds_lem clock is_seven 0 (pos 9) (4, 5)

abbrev some_calls : List ThreadCall
some_calls = constructs 1 ∷ constructs_moved 2 1 ∷ swaps 1 2 ∷ []

perform_all_lem_example :
    (joinable 2 (perform_all some_calls (λ _. 0)) ≡ false)
    × (get_id 2 (perform_all some_calls (λ _. 0)) ≢ this_id)
unfolding joinable
perform_all_lem_example = perform_all_lem some_calls (λ _. 0) (λ l. refl) 2

exchange_gives_the_old_value : exchange {T = ℕ} 5 relaxed (store {T = ℕ} 3 seq_cst 8) ≡ (3, 5)
unfolding exchange store
exchange_gives_the_old_value = refl

load_gives_the_stored_value : load {T = ℕ} relaxed (store {T = ℕ} 3 seq_cst 8) ≡ 3
unfolding load store
load_gives_the_stored_value = refl
