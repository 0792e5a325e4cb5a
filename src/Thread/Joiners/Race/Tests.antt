-- ===== src/Thread/Joiners/Race/Tests.antt =====
-- Threads 4 and 5 join the thread of task 9.
use roo_threads.Base.{ℕ, ◌≡◌, refl, ◌≢◌, true, false, some, arith}
use roo_threads.Thread.Joiners.{
  System, finishes, calls, take_mutex, is_other, take_barrier, give_back, delete_barrier,
  clear_state, Reach, begin, later,
}
use roo_threads.Thread.Joiners.Phases.{is_past, has_mutex, is_joined}
use roo_threads.Thread.Joiners.Race.{one_joins}

four_not_nine : ◌≢◌ {A = ℕ} 4 9
four_not_nine e = ground arith

-- Both have read `state_`, and 4 has come to the give of join_mutex.
abbrev late : (s : System) × Reach 9 s
late = (
  _,
  later
      (later
        (later
          (later
            (later
              (later
                (later (later (later begin (calls 4 refl refl)) (calls 5 refl refl))
                  (take_mutex 4 refl refl))
                (is_other 4 refl refl four_not_nine))
              (finishes refl))
            (take_barrier 4 refl refl))
          (give_back 4 refl))
        (delete_barrier 4 refl))
      (clear_state 4 refl),
)

one_joins_example :
    ((j : ℕ) → is_past (late.0.pc j) ≡ true → 4 ≡ j)
    × (4 ≢ late.0.task)
    × (is_joined (late.0.pc 4) ≡ false → late.0.exists ≡ true)
    × (has_mutex (late.0.pc 4) ≡ true → late.0.mutex ≡ some true)
one_joins_example = one_joins 4 late.1 refl
