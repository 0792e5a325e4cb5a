-- ===== src/Thread/Tests.antt =====
-- The theorems on thread.cpp, on runs from start() to the return of join().
use roo_threads.Base.{
  ℕ, ◌+◌, ◌*◌, ◌<◌, ◌≤◌, ◌≡◌, refl, ◌⊎◌, ◌≢◌, true, false, none, some, ◌==◌, if◌then◌else◌, arith,
}
use roo_threads.Thread.{
  moves_start, suspended, frees_state, deleted, joined, takes_barrier, dropped, System, Step,
  creates, set_state, join, take_barrier, give_back, delete_barrier, clear_state, give_mutex,
  delete_mutex, delete_task, delete_state, move_start, call, drop_start, read_joinable,
  give_barrier, suspend, unused, Reach, begin, later,
}
use roo_threads.Base.Int.{pos, ◌≤ℤ◌, ◌-ℤ◌}
use roo_threads.TimeUtil.{TickConfig, IsTickConfig}
use roo_threads.Thread.Objects.{Objects, joinable, assigns_moved, perform, origin, perform_lem}
use roo_threads.Thread.Sleep.{DelayKernel, sleep_until, sleep_until_lem}
use roo_threads.Thread.Handshake.{uses_state, uses_state_owner}
use roo_threads.Thread.Join.{join_lem, state_exists, called_once, left, join_ends}

-- The owner waits in join() before the task has run.
abbrev waiting : System
waiting = record unused {
  state_set = true;
  exists = true;
  joinable = true;
  barrier = some 0;
  mutex = some true;
  task = moves_start;
  owner = takes_barrier;
}

Reach-waiting : Reach waiting
Reach-waiting =
    later (later (later begin (creates true refl)) (set_state refl)) (join refl refl refl refl)

-- The task has given the barrier and is suspended.
abbrev finished : System
finished = record waiting { callable = dropped; runs = 1; barrier = some 1; task = suspended }

Reach-finished : Reach finished
Reach-finished =
    later
      (later
        (later (later (later (later Reach-waiting (move_start refl)) (call refl)) (drop_start refl))
          (read_joinable refl))
        (give_barrier refl))
      (suspend refl)

abbrev done : System
done = record finished {
  state_set = false;
  exists = false;
  barrier = none;
  mutex = none;
  task = deleted;
  owner = joined;
}

Reach-done : Reach done
Reach-done =
    later
      (later
        (later
          (later
            (later
              (later (later (later Reach-finished (take_barrier refl refl)) (give_back refl))
                (delete_barrier refl))
              (clear_state refl))
            (give_mutex refl))
          (delete_mutex refl))
        (delete_task refl))
      (delete_state refl)

join_lem_example :
    (done.runs ≡ 1)
    × (done.callable ≡ dropped)
    × (done.task ≡ deleted)
    × (done.state_set ≡ false)
    × (done.exists ≡ false)
    × (done.barrier ≡ none)
    × (done.mutex ≡ none)
join_lem_example = join_lem Reach-done refl

state_exists_example :
    (uses_state finished.task ≡ true → finished.exists ≡ true)
    × (uses_state_owner finished.owner ≡ true → finished.exists ≡ true)
    × (finished.task ≢ frees_state)
state_exists_example = state_exists Reach-finished refl

called_once_example : (finished.runs ≤ 1) × (finished.callable ≡ dropped → finished.runs ≡ 1)
called_once_example = called_once Reach-finished

join_ends_example :
    ((waiting.owner ≡ joined) ⊎ (t : System) × Step waiting t)
    × ((t : System) → Step waiting t → left t < left waiting)
join_ends_example = join_ends Reach-waiting refl

-- A clock that only vTaskDelay moves, by 10 ms a tick, and durations of whole milliseconds.
abbrev tick_clock : DelayKernel
tick_clock = record {
  World = ℕ;
  uptime = λ n. n;
  delay = λ ticks n. n + ticks * 10000;
  millis = λ d. d;
  uptime-delay = λ ticks n. omega arith;
  uptime-delay_pos = λ ticks n h. omega arith;
  millis_up = λ d. omega arith;
  millis_mono = λ d e h. h;
}

abbrev port : TickConfig
port = record { period = 10; max_delay = 4294967295 }

port-IsTickConfig : IsTickConfig port
port-IsTickConfig = record {
  period_pos = omega arith;
  period_small = omega arith;
  delay_wide = omega arith;
  delay_fits = omega arith;
}

sleep_until_lem_example :
    (v : ℕ) × (sleep_until tick_clock port 9 (pos 12) 7 ≡ some v) × (pos 12 ≤ℤ pos v)
unfolding ◌-ℤ◌
sleep_until_lem_example =
    sleep_until_lem tick_clock port 9 (pos 12) 7 port-IsTickConfig (omega arith) (omega arith)

abbrev one_thread : Objects
one_thread = λ l. if l == 4 then some 70 else none

perform_lem_example :
    (t : Objects) × (perform (assigns_moved 3 4) one_thread ≡ some t)
    × ((k : ℕ) → t k ≡ one_thread (origin (assigns_moved 3 4) k))
    × ((k : ℕ) → origin (assigns_moved 3 4) (origin (assigns_moved 3 4) k) ≡ k)
unfolding joinable
perform_lem_example = perform_lem (assigns_moved 3 4) one_thread (λ l e. ground arith)
