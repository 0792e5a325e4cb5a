-- ===== src/ProducerConsumer/Tests.antt =====
-- A run of ProducerConsumer.ino with a queue of one place, and the theorems in its states.
use roo_threads.Base.{
  ℕ, ◌≡◌, refl, ◌≢◌, ◌⊎◌, ◌<◌, ◌≤◌, true, false, [], ◌∷◌, ◌++◌, none, some, length, arith,
}
use roo_threads.Kernel.Concrete.{flags}
use roo_threads.CvOpt.{condition_variable_opt, enqueue, dequeue, notify_all}
use roo_threads.CvOpt.Choice.{Holds}
use roo_threads.CvOpt.System.{notify_tasks}
use roo_threads.ProducerConsumer.{
  Item, put, nonfull, Tables, blocks, idle, may_act, undefined, System, current, locks,
  finds_blocked, finds_free, starts_wait, wakes, relocks, returns, appends, removes, notifies,
  unlocks, new, Reach, start, later,
}
use roo_threads.ProducerConsumer.Invariant.{WillTell}
use roo_threads.ProducerConsumer.Completion.{Completes, call-Completes}
use roo_threads.ProducerConsumer.Wakeup.{deque-IsFifo, sleeps_with_reason, CanStep, one-CanStep}
use roo_threads.ProducerConsumer.Program.{program, run, values, count_up, puts, taken_in_order}

-- Tables of three slots, with anything in them.
abbrev memory : Tables
memory c = some 3 ∷ none ∷ none ∷ []

abbrev init : System flags
init = record {
  deque = [];
  published = [];
  consumed = [];
  tables = λ c. none ∷ none ∷ none ∷ [];
  owner = none;
  pc = λ _. idle;
  calls = λ _. 0;
  kernel = λ _. false;
}

Reach-init : Reach flags 1 program init
unfolding condition_variable_opt
Reach-init = start (new memory refl refl refl (λ c. refl) refl (λ i. (refl, refl)))

abbrev item_1 : Item
item_1 = record { tag = 1; value = 0 }

-- The consumer finds the queue empty and sleeps.
abbrev asleep : (s : System flags) × Reach flags 1 program s
unfolding enqueue
asleep = (
  _,
  later 0 (later 0 (later 0 Reach-init (locks refl refl)) (finds_blocked refl refl))
      (starts_wait refl refl),
)

-- Producer 1 puts its first item, and the second finds the queue full and sleeps.
abbrev both_asleep : (s : System flags) × Reach flags 1 program s
unfolding enqueue notify_all notify_tasks
both_asleep = (
  _,
  later 2
      (later 2
        (later 2
          (later 1
            (later 1
              (later 1 (later 1 (later 1 asleep.1 (locks refl refl)) (finds_free refl refl))
                (appends item_1 refl refl))
              (notifies refl))
            (unlocks refl))
          (locks refl refl))
        (finds_blocked refl refl))
      (starts_wait refl refl),
)

-- The consumer has been notified, and takes the item.
abbrev taken : (s : System flags) × Reach flags 1 program s
unfolding dequeue enqueue notify_all notify_tasks
taken = (
  _,
  later 0
      (later 0
        (later 0 (later 0 (later 0 both_asleep.1 (wakes refl refl)) (relocks refl refl))
          (returns refl))
        (finds_free refl refl))
      (removes item_1 [] refl refl refl),
)

consumed_item_1 : taken.0.consumed ≡ item_1 ∷ []
unfolding dequeue enqueue notify_all notify_tasks
consumed_item_1 = refl

deque-IsFifo_example :
    (taken.0.published ≡ taken.0.consumed ++ taken.0.deque)
    × (length taken.0.deque ≤ 1)
    × ((i : ℕ) → taken.0.pc i ≢ undefined)
    × ((i : ℕ) (item : Item)
        → taken.0.pc i ≡ may_act
        → current flags 1 program taken.0 i ≡ put item
        → length taken.0.deque < 1)
deque-IsFifo_example = deque-IsFifo flags 1 program taken.1

-- Producer 2 sleeps since the queue is full.
sleeps_with_reason_example :
    ((k : ℕ) × Holds (both_asleep.0.tables nonfull) k 2)
    × ((blocks 1 both_asleep.0.deque (run 2 0) ≡ true)
        ⊎ WillTell flags 1 program both_asleep.0 nonfull)
unfolding enqueue notify_all notify_tasks
sleeps_with_reason_example = sleeps_with_reason flags 1 program 2 both_asleep.1 refl refl

one-CanStep_example :
    (i : ℕ) × CanStep flags 1 program both_asleep.0 i
    × ((i ≡ 0) ⊎ (i ≡ 2) ⊎ (both_asleep.0.owner ≡ some i))
unfolding enqueue notify_all notify_tasks
one-CanStep_example =
    one-CanStep flags 1 program 0 2 (record { tag = 2; value = 0 }) both_asleep.1 (omega arith) refl
      refl (λ h. cc) (λ h. cc)

taken_in_order_example :
    (values 1 taken.0.consumed ≡ count_up 0 (length (values 1 taken.0.consumed)))
    × (values 1 taken.0.consumed ++ values 1 taken.0.deque ≡ count_up 0 (puts flags 1 taken.0 1))
taken_in_order_example = taken_in_order flags 1 0 taken.1

-- The consumer, which sleeps, can take the item with producer 2 asleep.
call-Completes_example : Completes flags 1 program both_asleep.0 0
unfolding enqueue notify_all notify_tasks
call-Completes_example = call-Completes flags 1 program 0 both_asleep.1 refl (λ h. cc) refl
