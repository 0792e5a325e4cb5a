-- ===== src/Thread/Create.antt =====
-- thread::start of impl/freertos/thread.cpp and the constructors that call it: the new thread_state, what
-- xTaskCreate is asked for, and what is left where it fails.
use roo_threads.Base.{ℕ, ◌/◌, Bool, false, List, Option, none, some, if◌then◌else◌}
use roo_threads.Base.Family.{update}
use roo_threads.Backend.{Config}
use roo_threads.Callable.{Arg, DynamicCallable, make_dynamic_callable_with_args}
use roo_threads.Thread.Attributes.{Attributes, attributes}

-- struct thread_state; `task` is unset until xTaskCreate has written it, a semaphore until it is made.
pub record ThreadState (A : Type 0) : Type 0 where
  pub attr : Attributes
  pub start : DynamicCallable A
  pub task : Option ℕ
  pub join_barrier : Option ℕ
  pub join_mutex : Option Bool

-- The arguments of xTaskCreate.
pub record Request : Type 0 where
  pub name : ℕ
  pub stack_depth : ℕ
  pub parameter : ℕ
  pub priority : ℕ

-- `sizeof(portSTACK_TYPE)`, and xTaskCreate, which gives the handle of the new task, or fails.
pub record TaskCreate : Type 1 where
  pub World : Type 0
  pub stack_type_size : ℕ
  pub create : Request → World → World × Option ℕ

-- The states in the heap, the field `state_` of the thread objects, and the kernel.
pub record Memory (A : Type 0) (World : Type 0) : Type 0 where
  pub states : ℕ → Option (ThreadState A)
  pub objects : ℕ → Option ℕ
  pub world : World

module _ (T : TaskCreate) where
  abbrev pub request : Attributes → ℕ → Request
  request a p = record {
    name = a.name;
    stack_depth = a.stack_size / T.stack_type_size;
    parameter = p;
    priority = a.priority;
  }

module _ {A : Type 0} where
  abbrev pub new_state : Attributes → DynamicCallable A → Option ℕ → ThreadState A
  new_state a callable task = record {
    attr = a;
    start = callable;
    task = task;
    join_barrier = if a.joinable then some 0 else none;
    join_mutex = if a.joinable then some false else none;
  }

  -- `state_` of the object at `l` and the state at the address `p`, after a call of xTaskCreate.
  abbrev pub with_state :
      {W : Type 0} → ℕ → ℕ → Option (ThreadState A) → W → Memory A W → Memory A W
  with_state l p state w s = record {
    states = update s.states p state;
    objects = update s.objects l (some p);
    world = w;
  }

  -- The object at `l`, where `new` gives the address `p`. Nothing where an assertion fails, which
  -- is not looked at if `asserts` is false, as under NDEBUG.
  unfoldable pub start :
      (T : TaskCreate)
      → Bool
      → ℕ
      → ℕ
      → Attributes
      → DynamicCallable A
      → Memory A T.World
      → Option (Memory A T.World)
  start T asserts l p a callable s =
      let r = T.create (request T a p) s.world in
      elim r.1 [
        | some task ↦ some (with_state l p (some (new_state a callable (some task))) r.0 s)
        | none ↦ if asserts then none else some (with_state l p none r.0 s)
      ]

  module _ (moved : A → A) (last_first : Bool) (T : TaskCreate) (asserts : Bool) where
    -- The constructors, with the variables that the callable and the arguments come from.
    unfoldable pub construct_with :
        ℕ
        → ℕ
        → Attributes
        → Arg
        → List Arg
        → (ℕ → A)
        → Memory A T.World
        → Option (Memory A T.World) × (ℕ → A)
    unfolding start
    construct_with l p a callable args vars s =
        let made = make_dynamic_callable_with_args moved last_first callable args vars in
        (start T asserts l p a made.0 s, made.1)

    unfoldable pub construct :
        Config
        → ℕ
        → ℕ
        → ℕ
        → Arg
        → List Arg
        → (ℕ → A)
        → Memory A T.World
        → Option (Memory A T.World) × (ℕ → A)
    unfolding construct_with
    construct c roo l p = construct_with l p (attributes c roo)
