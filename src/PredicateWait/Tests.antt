-- ===== src/PredicateWait/Tests.antt =====
-- Tests of the waits with a predicate, and their theorems for a counter that other threads raise.
use roo_threads.Base.{
  ℕ, zero, suc, ◌<◌, ◌≡◌, refl, ◌⊎◌, Bool, true, false, Option, none, some, ◌==◌, arith,
}
use roo_threads.PredicateWait.{CvStatus, no_timeout, timeout, wait, wait_until}
use roo_threads.PredicateWait.Ends.{wait_until-Verdict, wait_lem}

-- The rounds that are left before the deadline; the predicate asks for 3.
abbrev is_three : ℕ → ℕ × Bool
is_three n = (n, n == 3)

abbrev wait_once : ℕ → ℕ × CvStatus
wait_once zero = (0, timeout)
wait_once (suc n) = (n, no_timeout)

times_out : wait_until is_three wait_once 9 2 ≡ some (0, false)
unfolding wait_until
times_out = refl

wakes_up : wait_until is_three wait_once 9 5 ≡ some (3, true)
unfolding wait_until
wakes_up = refl

wait_once_paid : (n : ℕ) → (wait_once n).1 ≡ no_timeout → (wait_once n).0 < n
wait_once_paid n h = ground arith

wait_until-Verdict_example :
    (r : ℕ × Bool) × (wait_until is_three wait_once 6 5 ≡ some r)
    × ((u : ℕ) × (is_three u ≡ r) × ((r.1 ≡ true) ⊎ (v : ℕ) × (wait_once v ≡ (u, timeout))))
wait_until-Verdict_example =
    wait_until-Verdict is_three (λ n. n) wait_once 6 5 (λ n. omega arith) wait_once_paid
      (omega arith)

-- A thread that is woken as many times as the number says.
abbrev wait_woken : ℕ → Option ℕ
wait_woken zero = none
wait_woken (suc n) = some n

wait_woken_paid : (v u : ℕ) → wait_woken v ≡ some u → u < v
wait_woken_paid v u h = ground arith

wait_lem_example :
    (u v : ℕ) × (((wait is_three wait_woken 6 5 ≡ some (some v)) × (is_three u ≡ (v, true)))
      ⊎ ((wait is_three wait_woken 6 5 ≡ some none)
          × (is_three u ≡ (v, false))
          × (wait_woken v ≡ none)))
wait_lem_example =
    wait_lem is_three (λ n. n) wait_woken 6 5 (λ n. omega arith) wait_woken_paid (omega arith)
