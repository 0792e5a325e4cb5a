-- ===== src/Semaphore/System/Section/Tests.antt =====
-- Three threads, and a semaphore of two tokens.
use roo_threads.Base.{◌+◌, ◌≡◌, ◌<◌, ◌≤◌, ◌↔◌, refl, true, arith}
use roo_threads.Base.Family.{update}
use roo_threads.Kernel.Concrete.{tokens}
use roo_threads.Semaphore.System.{
  outside, inside, System, acquires, fails, releases, Reach, start, later,
}
use roo_threads.Semaphore.System.Section.{entered, entered_lem}

-- 0 and 1 have entered, 2 has not got in, and 1 has left.
abbrev one_inside : System tokens
one_inside = record {
  sem = 1;
  pc = update (update (update (λ _. outside) 0 inside) 1 inside) 1 outside;
}

Reach-one_inside : Reach tokens 3 2 one_inside
Reach-one_inside =
    later
      (later
        (later
          (later (start (λ _. outside) (omega arith) (λ i. refl))
            (acquires 0 (omega arith) refl refl))
          (acquires 1 (omega arith) refl refl))
        (fails 2 (omega arith) refl))
      (releases 1 (omega arith) refl)

entered_lem_example :
    (entered tokens 3 one_inside ≤ 2)
    × (1 + entered tokens 3 one_inside ≡ 2)
    × (((tokens.take 1).1 ≡ true) ↔ (entered tokens 3 one_inside < 2))
entered_lem_example = entered_lem tokens Reach-one_inside
