-- ===== src/Thread/Creation.antt =====
-- What the constructors of a thread achieve, by impl/freertos/thread.h, thread.cpp and callable.h.
mod Tests
use roo_threads.Base.{
  ℕ, ◌<◌, ◌≤◌, ◌≡◌, ◌≢◌, ◌*◌, ◌+◌, refl, ◌⊎◌, inl, inr, Bool, true, false, List, ◌∷◌, Option, none,
  some, if◌then◌else◌, arith, Option-cases, Bool-cases,
}
use roo_threads.Base.Division.{div_bounds}
use roo_threads.Backend.{Config}
use roo_threads.Callable.{Arg, StdInvoke, make_dynamic_callable_with_args, call}
use roo_threads.Callable.Passing.{are_separate, values, call-make_dynamic_callable_with_args}
use roo_threads.Thread.Attributes.{Attributes, attributes, IsMade, constructed, IsMade-IsValid}
use roo_threads.Thread.Create.{
  TaskCreate, Memory, ThreadState, request, start, new_state, with_state, construct_with, construct,
}

-- The thread at the address `p` is new, and its object is `l`.
pub record IsStarted {A : Type 0} (S : StdInvoke A) (T : TaskCreate) (l p task : ℕ) (a : Attributes)
    (objects : List A) (t : Memory A T.World) : Type 0 where
  pub object : t.objects l ≡ some p
  pub state : ThreadState A
  pub stored : t.states p ≡ some state
  pub attr : state.attr ≡ a
  pub handle : state.task ≡ some task
  pub barrier : state.join_barrier ≡ some 0
  pub mutex : state.join_mutex ≡ some false
  -- what the task will call
  pub calls :
      (w : S.World)
      → call S state.start w
        ≡ some (
          record { callable = record { tuple = (S.invoke objects w).0 } },
          (S.invoke objects w).2,
        )

-- No other object and no other state is touched.
pub record IsAlone {A W : Type 0} (l p : ℕ) (s t : Memory A W) : Type 0 where
  pub objects : (k : ℕ) → k ≢ l → t.objects k ≡ s.objects k
  pub states : (k : ℕ) → k ≢ p → t.states k ≡ s.states k

-- How a constructor ends, by what xTaskCreate gives.
pub data Outcome {A : Type 0} (S : StdInvoke A) (T : TaskCreate) (asserts : Bool) (l p : ℕ)
    (a : Attributes) (objects : List A) (s : Memory A T.World) (created : Option ℕ)
    (made : Option (Memory A T.World)) : Type 0 where
  started :
      (task : ℕ) (t : Memory A T.World)
      → created ≡ some task
      → made ≡ some t
      → IsStarted S T l p task a objects t
      → IsAlone l p s t
      → Outcome S T asserts l p a objects s created made
  assertion_failed :
      created ≡ none
      → asserts ≡ true
      → made ≡ none
      → Outcome S T asserts l p a objects s created made
  -- the state is deleted, and the object has its address
  left_dangling :
      (t : Memory A T.World)
      → created ≡ none
      → asserts ≡ false
      → made ≡ some t
      → t.objects l ≡ some p
      → t.states p ≡ none
      → IsAlone l p s t
      → Outcome S T asserts l p a objects s created made

with_state-IsAlone :
    {A W : Type 0} (l p : ℕ) (state : Option (ThreadState A)) (w : W) (s : Memory A W)
    → IsAlone l p s (with_state l p state w s)
with_state-IsAlone l p state w s = record {
  objects = λ k ne. ground arith;
  states = λ k ne. ground arith;
}

module _ {A : Type 0} (moved : A → A) (last_first : Bool) (S : StdInvoke A) (T : TaskCreate) where
  -- A constructor with attributes that a program can make, and a callable and arguments where no variable
  -- that is moved from is passed twice. Where xTaskCreate gives a task, the constructor returns; the
  -- object has a new joinable state with the attributes, the handle of the task and its semaphores, of which the
  -- task will call the callable on the arguments as they were. Where xTaskCreate fails the assertion
  -- does; where assertions are off, the object is left with the address of a state that is deleted. In
  -- each case no other object or state is touched by the end, and the stack that is asked for is the most
  -- whole words that fit the size of the attributes.
  pub construct_with-Outcome :
      (asserts : Bool) (l p : ℕ) (c : Config) (a : Attributes) (callable : Arg) (args : List Arg)
      (vars : ℕ → A) (s : Memory A T.World)
      → IsMade c a
      → 0 < T.stack_type_size
      → are_separate (callable ∷ args) ≡ true
      → let asked = request T a p in
        let bytes = asked.stack_depth * T.stack_type_size in
        ((bytes ≤ a.stack_size) × (a.stack_size < bytes + T.stack_type_size))
        × Outcome S T asserts l p a
            (values vars (callable ∷ args))
            s
            (T.create asked s.world).1
            (construct_with moved last_first T asserts l p a callable args vars s).0
  unfolding construct_with start
  construct_with-Outcome asserts l p c a callable args vars s made pos separate = (
    div_bounds a.stack_size T.stack_type_size pos,
    elim (Option-cases (T.create (request T a p) s.world).1) [
      | inr (task, e) ↦
          let callable' = (make_dynamic_callable_with_args moved last_first callable args vars).0 in
          let state = new_state a callable' (some task) in
          started task (with_state l p (some state) (T.create (request T a p) s.world).0 s) e
            (ground arith)
            (record {
              object = ground arith;
              state = state;
              stored = ground arith;
              attr = refl;
              handle = refl;
              barrier = ground (arith, (IsMade-IsValid made).is_joinable);
              mutex = ground (arith, (IsMade-IsValid made).is_joinable);
              calls = λ w.
                  (call-make_dynamic_callable_with_args moved last_first S callable args vars w
                    separate).0;
            })
            (with_state-IsAlone l p _ _ s)
      | inl e ↦ elim (Bool-cases asserts) [
        | inl on ↦ assertion_failed e on (ground arith)
        | inr off ↦
            left_dangling (with_state l p none (T.create (request T a p) s.world).0 s) e off
              (ground arith) (ground arith) (ground arith) (with_state-IsAlone l p _ _ s)
      ]
    ],
  )

  -- The constructor without attributes takes those of config.h.
  pub construct-construct_with :
      (asserts : Bool) (c : Config) (roo l p : ℕ) (callable : Arg) (args : List Arg) (vars : ℕ → A)
      (s : Memory A T.World)
      → (construct moved last_first T asserts c roo l p callable args vars s
          ≡ construct_with moved last_first T asserts l p (attributes c roo) callable args vars s)
        × IsMade c (attributes c roo)
  unfolding construct
  construct-construct_with asserts c roo l p callable args vars s = (refl, constructed roo)
