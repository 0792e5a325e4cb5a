-- ===== src/Counter/Tests.antt =====
-- A run of Counter.ino with one thread, the sum of the five, and the theorems in the states of the run.
use roo_threads.Base.{ℕ, ◌≤◌, ◌<◌, ◌≡◌, ◌≢◌, refl, zero, suc, none, true, arith}
use roo_threads.Base.Family.{total}
use roo_threads.Counter.{
  absent, constructs, prints, System, Step, is_ok, locks, loads, stores, unlocks, ends,
  constructs_one, constructed_all, joins_one, joined_all, get_locks, get_reads, get_unlocks, new,
  Reach, start, later,
}
use roo_threads.Counter.Result.{number, remaining, CanStep, result-eq-total, Reach-terminates}

-- The numbers of steps of the five threads.
abbrev five : ℕ → ℕ
five zero = 10000
five (suc zero) = 8000
five (suc (suc zero)) = 12000
five (suc (suc (suc zero))) = 15000
five (suc (suc (suc (suc j)))) = 5000

-- So the program prints "(OK)" for the sum that `result-eq-total` gives.
five-is_ok : is_ok 50000 (total number 5 five) ≡ true
unfolding total
five-is_ok = refl

abbrev once : ℕ → ℕ
once j = 1

abbrev init : System
init = record {
  val = 0;
  owner = none;
  main = constructs zero;
  worker = λ j. record { pc = absent; steps = 1; i = 0 };
}

-- One thread increments the counter, and the task reads it.
abbrev finished : (s : System) × Reach 1 once s
finished = (
  _,
  later
      (later
        (later
          (later
            (later
              (later
                (later
                  (later
                    (later
                      (later
                        (later
                          (later (start (new refl refl refl (λ j. refl)))
                            (constructs_one 0 (omega arith) refl))
                          (constructed_all refl))
                        (locks 0 (omega arith) refl (omega arith) refl))
                      (loads 0 (omega arith) refl))
                    (stores 0 0 (omega arith) refl))
                  (unlocks 0 (omega arith) refl))
                (ends 0 (omega arith) refl (omega arith)))
              (joins_one 0 (omega arith) refl refl))
            (joined_all refl))
          (get_locks refl refl))
        (get_reads refl))
      (get_unlocks 1 refl),
)

result-eq-total_example :
    (finished.0.val ≤ total number 1 once)
    × ((v : ℕ) → finished.0.main ≡ prints v → v ≡ total number 1 once)
result-eq-total_example = result-eq-total 1 once finished.1

Reach-terminates_example :
    (((v : ℕ) → init.main ≢ prints v) → CanStep 1 once init)
    × ((t : System) → Step 1 init t → remaining 1 t < remaining 1 init)
Reach-terminates_example = Reach-terminates 1 once (start (new refl refl refl (λ j. refl)))
