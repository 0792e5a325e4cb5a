-- ===== src/Thread/Whole/Tests.antt =====
-- A thread that is made of a callable and two arguments, run and joined.
use roo_threads.Base.{ℕ, ◌+◌, ◌≡◌, refl, true, false, [], ◌∷◌, none, some}
use roo_threads.Callable
use roo_threads.Callable.{lvalue, rvalue, StdInvoke, DynamicCallable}
use roo_threads.Thread.{
  drops_start, suspended, deleted, in_task, joined, takes_barrier, dropped, System, creates,
  set_state, join, take_barrier, give_back, delete_barrier, clear_state, give_mutex, delete_mutex,
  delete_task, delete_state, move_start, call, drop_start, read_joinable, give_barrier, suspend,
  unused, Step,
}
use roo_threads.Thread.Whole.{Whole, Moves, steps, calls, Runs, constructed, goes_on, joined-given}

-- A callable that counts its calls.
abbrev counts : StdInvoke ℕ
counts = record {
  World = ℕ;
  Result = Unit {0};
  invoke = λ objects w. (objects, tt, 1 + w);
  length-invoke = λ objects w. refl;
}

abbrev callable_2 : DynamicCallable ℕ
callable_2 = record { callable = record { tuple = 1 ∷ 2 ∷ 3 ∷ [] } }

-- The task has called the callable, and the owner waits in join().
abbrev life_called : System
life_called = record unused {
  state_set = true;
  exists = true;
  joinable = true;
  callable = in_task;
  runs = 1;
  barrier = some 0;
  mutex = some true;
  task = drops_start;
  owner = takes_barrier;
}

abbrev called : Whole counts
called = record {
  life = life_called;
  callable = callable_2;
  world = 1;
  given = (1 ∷ 2 ∷ 3 ∷ []) ∷ [];
}

abbrev RunsOf : Whole counts → Type 0
RunsOf = Runs counts (λ _. 0) false (lvalue 1) (rvalue 2 ∷ lvalue 3 ∷ []) (λ v. v)

Runs-called : RunsOf called
unfolding Callable.call Callable.make_dynamic_callable_with_args
Runs-called =
    goes_on
      (goes_on
        (goes_on
          (goes_on (goes_on (constructed 0) (steps (creates true refl) refl))
            (steps (set_state refl) refl))
          (steps (join refl refl refl refl) refl))
        (steps (move_start refl) refl))
      (calls (call refl) callable_2 1 ((1 ∷ 2 ∷ 3 ∷ []) ∷ []) refl refl)

abbrev finished : Whole counts
finished = record called {
  life = record life_called { callable = dropped; barrier = some 1; task = suspended };
}

Runs-finished : RunsOf finished
Runs-finished =
    goes_on
      (goes_on
        (goes_on (goes_on (Runs-called) (steps (drop_start refl) refl))
          (steps (read_joinable refl) refl))
        (steps (give_barrier refl) refl))
      (steps (suspend refl) refl)

abbrev over : Whole counts
over = record finished {
  life = record finished.life {
    state_set = false;
    exists = false;
    barrier = none;
    mutex = none;
    task = deleted;
    owner = joined;
  };
}

Runs-over : RunsOf over
Runs-over =
    goes_on
      (goes_on
        (goes_on
          (goes_on
            (goes_on
              (goes_on
                (goes_on (goes_on (Runs-finished) (steps (take_barrier refl refl) refl))
                  (steps (give_back refl) refl))
                (steps (delete_barrier refl) refl))
              (steps (clear_state refl) refl))
            (steps (give_mutex refl) refl))
          (steps (delete_mutex refl) refl))
        (steps (delete_task refl) refl))
      (steps (delete_state refl) refl)

joined-given_example :
    (over.life.owner ≡ joined → over.given ≡ (1 ∷ 2 ∷ 3 ∷ []) ∷ [])
    × ((t : System) → Step over.life t → (u : Whole counts) × Moves counts over u × (u.life ≡ t))
joined-given_example =
    joined-given counts (λ _. 0) false (lvalue 1) (rvalue 2 ∷ lvalue 3 ∷ []) (λ v. v) refl Runs-over
