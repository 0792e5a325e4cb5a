-- ===== src/ProducerConsumer.antt =====
-- examples/ProducerConsumer/ProducerConsumer.ino: a queue of bounded capacity over one mutex and two
-- condition variables, `nonfull_` and `nonempty_`, used by any number of threads in any order. The
-- condition variables are those of condition_variable_opt.cpp, by the loops of its functions; each
-- of their critical sections is one step, and so is each access to the queue. The mutex is its owner.
pub mod Invariant
pub mod Wakeup
pub mod Completion
pub mod Program
mod Tests
use roo_threads.Base.{
  ℕ, suc, ◌≡◌, Bool, true, false, List, [], ◌∷◌, ◌++◌, Option, none, some, ◌==◌, length,
}
use roo_threads.Base.Family.{update}
use roo_threads.Kernel.{TaskNotify}
use roo_threads.CvOpt.{Slots, condition_variable_opt, enqueue, dequeue, notify_all}
use roo_threads.CvOpt.System.{notify_tasks}

-- Queue::Item
pub record Item : Type 0 where
  pub tag : ℕ  -- which thread made it
  pub value : ℕ

-- A call of a member of Queue.
pub data Call : Type 0 where
  put : (item : Item) → Call
  take : Call

-- The condition variables of a queue.
pub data Condition : Type 0 where
  nonfull nonempty : Condition

-- Which condition variable a member waits on, and which it notifies.
abbrev pub awaits : Call → Condition
awaits (put item) = nonfull
awaits take = nonempty

abbrev pub tells : Call → Condition
tells (put item) = nonempty
tells take = nonfull

abbrev pub is_empty : List Item → Bool
is_empty [] = true
is_empty (x ∷ xs) = false

-- The conditions of the two while loops.
abbrev pub blocks : ℕ → List Item → Call → Bool
blocks max_capacity deque (put item) = length deque == max_capacity
blocks max_capacity deque take = is_empty deque

-- The tables of the two condition variables.
abbrev pub Tables : Type 0
Tables = Condition → Slots

abbrev pub set_table : Tables → Condition → Slots → Tables
set_table ts nonfull table nonfull = table
set_table ts nonfull table nonempty = ts nonempty
set_table ts nonempty table nonempty = table
set_table ts nonempty table nonfull = ts nonfull

-- Where a thread stands.
pub data Pc : Type 0 where
  idle : Pc  -- between two calls, or before the lock of `guard` is taken
  testing : Pc  -- with the mutex, before the condition of the while loop
  must_wait : Pc  -- before `wait(guard)`
  waiting : Pc  -- in `xTaskNotifyWait`
  woken : Pc  -- before `lock.lock()` in `wait`
  relocked : Pc  -- before the last critical section of `wait`
  may_act : Pc  -- past the loop
  acted : Pc  -- before `notify_all()`
  told : Pc  -- before the destructor of `guard`
  aborted : Pc  -- `assert(queued)` has failed
  undefined : Pc  -- front() of an empty deque

module _ (K : TaskNotify) where
  open K use {State, pending, receive}

  pub record System : Type 0 where
    pub deque : List Item
    pub published : List Item  -- what has been put so far, in order
    pub consumed : List Item  -- what has been taken so far, in order
    pub tables : Tables
    pub owner : Option ℕ
    pub pc : ℕ → Pc
    pub calls : ℕ → ℕ  -- how many calls a thread has completed
    pub kernel : State

  -- What the threads call: `script i k` is the call that thread `i` makes after `k` others.
  module _ (max_capacity : ℕ) (script : ℕ → ℕ → Call) where
    -- The call that a thread is in.
    abbrev pub current : System → ℕ → Call
    current s i = script i (s.calls i)

    -- The steps of thread `i`.
    pub data Step (i : ℕ) (s : System) : System → Type 0 where
      -- `roo::unique_lock<roo::mutex> guard(mutex_)`
      locks :
          s.pc i ≡ idle
          → s.owner ≡ none
          → Step i s (record s { owner = some i; pc = update s.pc i testing })
      -- the condition of the while loop
      finds_blocked :
          s.pc i ≡ testing
          → blocks max_capacity s.deque (current s i) ≡ true
          → Step i s (record s { pc = update s.pc i must_wait })
      finds_free :
          s.pc i ≡ testing
          → blocks max_capacity s.deque (current s i) ≡ false
          → Step i s (record s { pc = update s.pc i may_act })
      -- `wait(guard)`: its first critical section, with the unlock in it
      starts_wait :
          s.pc i ≡ must_wait
          → (enqueue i (s.tables (awaits (current s i)))).1 ≡ true
          → Step i s (record s {
            tables =
                set_table s.tables
                  (awaits (current s i))
                  (enqueue i (s.tables (awaits (current s i)))).0;
            owner = none;
            pc = update s.pc i waiting;
          })
      overflows :
          s.pc i ≡ must_wait
          → (enqueue i (s.tables (awaits (current s i)))).1 ≡ false
          → Step i s (record s {
            tables =
                set_table s.tables
                  (awaits (current s i))
                  (enqueue i (s.tables (awaits (current s i)))).0;
            owner = none;
            pc = update s.pc i aborted;
          })
      wakes :
          s.pc i ≡ waiting
          → pending s.kernel i ≡ true
          → Step i s (record s { pc = update s.pc i woken; kernel = receive i s.kernel })
      relocks :
          s.pc i ≡ woken
          → s.owner ≡ none
          → Step i s (record s { owner = some i; pc = update s.pc i relocked })
      -- the last critical section of `wait`, and back to the condition
      returns :
          s.pc i ≡ relocked
          → Step i s (record s {
            tables =
                set_table s.tables
                  (awaits (current s i))
                  (dequeue i (s.tables (awaits (current s i))));
            pc = update s.pc i testing;
          })
      -- `deque_.push_back(std::move(item))`
      appends :
          (item : Item)
          → s.pc i ≡ may_act
          → current s i ≡ put item
          → Step i s (record s {
            deque = s.deque ++ item ∷ [];
            published = s.published ++ item ∷ [];
            pc = update s.pc i acted;
          })
      -- `Item result = std::move(deque_.front()); deque_.pop_front()`
      removes :
          (item : Item) (rest : List Item)
          → s.pc i ≡ may_act
          → current s i ≡ take
          → s.deque ≡ item ∷ rest
          → Step i s (record s {
            deque = rest;
            consumed = s.consumed ++ item ∷ [];
            pc = update s.pc i acted;
          })
      has_no_front :
          s.pc i ≡ may_act
          → current s i ≡ take
          → s.deque ≡ []
          → Step i s (record s { pc = update s.pc i undefined })
      notifies :
          s.pc i ≡ acted
          → Step i s (record s {
            tables =
                set_table s.tables
                  (tells (current s i))
                  (notify_all (s.tables (tells (current s i)))).0;
            kernel = notify_tasks K (notify_all (s.tables (tells (current s i)))).1 s.kernel;
            pc = update s.pc i told;
          })
      -- the destructor of `guard`, and the return
      unlocks :
          s.pc i ≡ told
          → Step i s (record s {
            owner = none;
            pc = update s.pc i idle;
            calls = update s.calls i (suc (s.calls i));
          })

    -- A new queue, its condition variables in memory of any contents, with any notifications.
    pub data IsInit (s : System) : Type 0 where
      new :
          (memory : Tables)
          → s.deque ≡ []
          → s.published ≡ []
          → s.consumed ≡ []
          → ((c : Condition) → s.tables c ≡ condition_variable_opt (memory c))
          → s.owner ≡ none
          → ((i : ℕ) → (s.pc i ≡ idle) × (s.calls i ≡ 0))
          → IsInit s

    pub data Reach : System → Type 0 where
      start : {s : System} → IsInit s → Reach s
      later : {s t : System} (i : ℕ) → Reach s → Step i s t → Reach t
