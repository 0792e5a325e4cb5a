-- ===== src/Counter.antt =====
-- examples/Counter/Counter.ino: threads that increment one counter under its mutex, and the task that
-- starts and joins them and reads the counter, interleaved in any order. Each access to `val_` is a
-- step of its own, so that an increment is a load and a store, and so is each lock and unlock of the
-- mutex, which is its owner. join() returns once the thread has returned from run(). yield() gives
-- way to any other thread, as every step does.
pub mod Invariant
pub mod Result
mod Tests
use roo_threads.Base.{ℕ, zero, suc, ◌+◌, ◌<◌, ◌≤◌, ◌≡◌, Bool, Option, none, some, ◌==◌}
use roo_threads.Base.Family.{update}

-- Where a thread stands in run().
pub data Pc : Type 0 where
  absent : Pc  -- not constructed yet
  looping : Pc  -- before `i < steps`
  entered : Pc  -- in increment(), with the mutex
  loaded : (val : ℕ) → Pc  -- `++val_` has read the counter
  stored : Pc  -- and has written it
  returned : Pc

-- A thread in run(), with its argument `steps` and its variable `i`.
pub record Worker : Type 0 where
  pub pc : Pc
  pub steps : ℕ
  pub i : ℕ

-- Where the task stands in loop().
pub data MainPc : Type 0 where
  constructs : (k : ℕ) → MainPc  -- before the constructor of the k-th thread
  joins : (k : ℕ) → MainPc  -- before the join() of the k-th thread
  gets : MainPc  -- before the lock in get()
  reads : MainPc  -- with the mutex
  leaves : (val : ℕ) → MainPc  -- before the unlock, with the value read
  prints : (result : ℕ) → MainPc

-- The fields of the counter, its mutex by its owner, and the threads. The task is number `n`.
pub record System : Type 0 where
  pub val : ℕ
  pub owner : Option ℕ
  pub main : MainPc
  pub worker : ℕ → Worker

-- `result == 50000`, for the sum that the program expects
abbrev pub is_ok : ℕ → ℕ → Bool
is_ok expected result = result == expected

-- The thread goes on to `pc`.
abbrev pub moved : System → ℕ → Pc → ℕ → Worker
moved s j pc =
    update s.worker j (record { pc = pc; steps = (s.worker j).steps; i = (s.worker j).i })

-- The steps of a task with `n` threads.
pub data Step (n : ℕ) (s : System) : System → Type 0 where
  locks :
      (j : ℕ)
      → j < n
      → (s.worker j).pc ≡ looping
      → (s.worker j).i < (s.worker j).steps
      → s.owner ≡ none
      → Step n s (record s { owner = some j; worker = moved s j entered })
  loads :
      (j : ℕ)
      → j < n
      → (s.worker j).pc ≡ entered
      → Step n s (record s { worker = moved s j (loaded s.val) })
  stores :
      (j v : ℕ)
      → j < n
      → (s.worker j).pc ≡ loaded v
      → Step n s (record s { val = v + 1; worker = moved s j stored })
  -- the destructor of `lock`, yield() and `i++`
  unlocks :
      (j : ℕ)
      → j < n
      → (s.worker j).pc ≡ stored
      → Step n s (record s {
        owner = none;
        worker =
            update s.worker j
              (record { pc = looping; steps = (s.worker j).steps; i = (s.worker j).i + 1 });
      })
  ends :
      (j : ℕ)
      → j < n
      → (s.worker j).pc ≡ looping
      → (s.worker j).steps ≤ (s.worker j).i
      → Step n s (record s { worker = moved s j returned })
  constructs_one :
      (k : ℕ)
      → k < n
      → s.main ≡ constructs k
      → Step n s (record s { main = constructs (suc k); worker = moved s k looping })
  constructed_all : s.main ≡ constructs n → Step n s (record s { main = joins zero })
  joins_one :
      (k : ℕ)
      → k < n
      → s.main ≡ joins k
      → (s.worker k).pc ≡ returned
      → Step n s (record s { main = joins (suc k) })
  joined_all : s.main ≡ joins n → Step n s (record s { main = gets })
  get_locks : s.main ≡ gets → s.owner ≡ none → Step n s (record s { owner = some n; main = reads })
  get_reads : s.main ≡ reads → Step n s (record s { main = leaves s.val })
  get_unlocks : (v : ℕ) → s.main ≡ leaves v → Step n s (record s { owner = none; main = prints v })

-- A new counter, with threads that are about to be constructed, each with its number of steps.
pub data IsInit (steps : ℕ → ℕ) (s : System) : Type 0 where
  new :
      s.val ≡ 0
      → s.owner ≡ none
      → s.main ≡ constructs zero
      → ((j : ℕ) → s.worker j ≡ record { pc = absent; steps = steps j; i = 0 })
      → IsInit steps s

pub data Reach (n : ℕ) (steps : ℕ → ℕ) : System → Type 0 where
  start : {s : System} → IsInit steps s → Reach n steps s
  later : {s t : System} → Reach n steps s → Step n s t → Reach n steps t
