-- ===== src/CvOpt/System/Monitor/Events.antt =====
-- A monitor with a queue of waiting threads, as a program that uses a condition variable sees it.
use roo_threads.Base.{ℕ, ◌≤◌, ◌≡◌, ◌≢◌, ◌⊎◌, Bool, true, false, Option, none, some}

-- Where a thread of a monitor stands: it is out of it, it is inside, it sleeps, or it has been
-- woken and wants to get in again.
pub data Stage : Type 0 where
  out inside awake : Stage
  asleep : (timed : Bool) → Stage  -- a timed sleep may end without a notification

-- `queued` says who will be found by a notification.
pub record Monitor : Type 0 where
  pub owner : Option ℕ
  pub stage : ℕ → Stage
  pub queued : ℕ → Bool

abbrev pub woken_stage : Stage → Stage
woken_stage (asleep timed) = awake
woken_stage p = p

abbrev pub is_asleep : Stage → Bool
is_asleep (asleep timed) = true
is_asleep p = false

-- What happens in a monitor, and by whom.
pub data Event : Type 0 where
  enters leaves fails expires is_told gives_up returns finishes : (i : ℕ) → Event
  waits : (i : ℕ) (timed : Bool) → Event
  notifies_one : (priority : ℕ → ℕ) → Event
  notifies_all : Event

-- Thread `i` goes from one stage to another, and nothing changes for the others.
pub record Goes (i : ℕ) (p p' : Stage) (m n : Monitor) : Type 0 where
  pub before : m.stage i ≡ p
  pub after : n.stage i ≡ p'
  pub others : (k : ℕ) → k ≢ i → (n.stage k ≡ m.stage k) × (n.queued k ≡ m.queued k)

-- One queued thread of the highest priority is taken out of the queue, and woken if it sleeps.
pub record Wakes (priority : ℕ → ℕ) (i : ℕ) (m n : Monitor) : Type 0 where
  pub chosen : m.queued i ≡ true
  pub highest : (k : ℕ) → m.queued k ≡ true → priority k ≤ priority i
  pub unqueued : n.queued i ≡ false
  pub awakened : n.stage i ≡ woken_stage (m.stage i)
  pub others : (k : ℕ) → k ≢ i → (n.stage k ≡ m.stage k) × (n.queued k ≡ m.queued k)

-- What each event does to a monitor.
abbrev pub Moves : Event → Monitor → Monitor → Type 0
Moves (enters i) m n =
    (m.owner ≡ none) × (n.owner ≡ some i) × Goes i out inside m n × (n.queued i ≡ m.queued i)
Moves (leaves i) m n =
    (m.owner ≡ some i) × (n.owner ≡ none) × Goes i inside out m n × (n.queued i ≡ m.queued i)
-- the monitor is left and the thread falls asleep, or is awake at once, as one that has been told before
Moves (waits i timed) m n =
    (m.owner ≡ some i)
    × (n.owner ≡ none)
    × (n.queued i ≡ true)
    × (Goes i inside (asleep timed) m n ⊎ Goes i inside awake m n)
-- it could not be queued
Moves (fails i) m n =
    (m.owner ≡ some i) × (n.owner ≡ none) × Goes i inside out m n × (n.queued i ≡ m.queued i)
-- the time of a wait is over before it begins
Moves (expires i) m n =
    (m.owner ≡ some i) × (n.owner ≡ some i) × Goes i inside inside m n × (n.queued i ≡ m.queued i)
-- a thread that has been told runs again
Moves (is_told i) m n = (n.owner ≡ m.owner) × Goes i awake awake m n × (n.queued i ≡ m.queued i)
-- a timed sleep is over, and the thread is still queued
Moves (gives_up i) m n =
    (n.owner ≡ m.owner)
    × (Goes i (asleep true) awake m n ⊎ Goes i awake awake m n)
    × (n.queued i ≡ m.queued i)
Moves (returns i) m n =
    (m.owner ≡ none) × (n.owner ≡ some i) × Goes i awake inside m n × (n.queued i ≡ m.queued i)
Moves (finishes i) m n =
    (m.owner ≡ some i) × (n.owner ≡ some i) × Goes i inside inside m n × (n.queued i ≡ false)
Moves (notifies_one priority) m n =
    (n.owner ≡ m.owner)
    × ((((k : ℕ) → (m.queued k ≡ false) × (n.queued k ≡ false) × (n.stage k ≡ m.stage k)))
        ⊎ ((i : ℕ) × Wakes priority i m n))
Moves notifies_all m n =
    (n.owner ≡ m.owner) × ((k : ℕ) → (n.queued k ≡ false) × (n.stage k ≡ woken_stage (m.stage k)))
