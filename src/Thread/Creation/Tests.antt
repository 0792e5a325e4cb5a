-- ===== src/Thread/Creation/Tests.antt =====
-- The constructor of a thread with attributes, at a stack of 4000 bytes on a port with words of 16.
use roo_threads.Base.{ℕ, zero, suc, ◌<◌, ◌≤◌, ◌*◌, ◌+◌, refl, true, [], ◌∷◌, none, some, arith}
use roo_threads.Backend.{Config}
use roo_threads.Callable.{lvalue, rvalue, StdInvoke}
use roo_threads.Callable.Passing.{values}
use roo_threads.Thread.Attributes.{
  Attributes, attributes, set_stack_size, constructed, stack_size_set,
}
use roo_threads.Thread.Create.{TaskCreate, Memory, request, construct_with}
use roo_threads.Thread.Creation.{Outcome, construct_with-Outcome}

-- A callable that leaves its arguments as they are, and says how many it has got.
abbrev keeps : StdInvoke ℕ
keeps = record {
  World = ℕ;
  Result = Unit {0};
  invoke = λ objects w. (objects, tt, w);
  length-invoke = λ objects w. refl;
}

-- A kernel with room for a number of tasks, whose handles count down.
abbrev room : TaskCreate
room = record {
  World = ℕ;
  stack_type_size = 16;
  create = λ request n. elim n [ zero ↦ (0, none) | suc m ↦ (m, some (100 + m)) ];
}

abbrev no_config : Config
no_config = record {
  lazy_initialize = none;
  use_optimized_condition_variable = none;
  default_thread_stack_size = none;
  default_thread_priority = some 5;
}

abbrev large : Attributes
large = set_stack_size 4000 (attributes no_config 77)

abbrev memory : ℕ → Memory ℕ ℕ
memory n = record { states = λ _. none; objects = λ _. none; world = n }

construct_with-Outcome_example :
    let asked = request room large 900 in
    let bytes = asked.stack_depth * room.stack_type_size in
    ((bytes ≤ large.stack_size) × (large.stack_size < bytes + room.stack_type_size))
    × Outcome keeps room true 3 900 large
        (values (λ v. v) (rvalue 1 ∷ lvalue 2 ∷ []))
        (memory 2)
        (room.create asked 2).1
        (construct_with
          (λ _. 0)
          true
          room
          true
          3
          900
          large
          (rvalue 1)
          (lvalue 2 ∷ [])
          (λ v. v)
          (memory 2)).0
construct_with-Outcome_example =
    construct_with-Outcome (λ _. 0) true keeps room true 3 900 no_config large (rvalue 1)
      (lvalue 2 ∷ []) (λ v. v) (memory 2) (stack_size_set 4000 (constructed 77)) (omega arith) refl
