-- ===== src/CvOpt.antt =====
-- impl/freertos/condition_variable_opt.h and .cpp: the table of waiting tasks.
pub mod Choice
pub mod Count
pub mod Registration
pub mod System
pub mod Timeout
pub mod TimedWait
pub mod WithMutex
mod Tests
mod TimedTests
use roo_threads.Base.{
  ℕ, zero, suc, Bool, true, false, List, [], ◌∷◌, Option, none, some, ltb, ◌==◌, if◌then◌else◌, set,
}

-- `tasks_waiting_`: a slot is null or a task handle.
abbrev pub Slots : Type 0
Slots = List (Option ℕ)

-- kMaxWaitingThreads, by default
abbrev pub max_waiting_threads : ℕ
max_waiting_threads = 8

-- The constructor, over an array of any contents.
unfoldable pub condition_variable_opt : Slots → Slots
condition_variable_opt [] = []
condition_variable_opt (slot ∷ ts) = none ∷ condition_variable_opt ts

-- The first loop of `wait` and of `wait_until_impl`: the table, and `queued`.
unfoldable pub enqueue : ℕ → Slots → Slots × Bool
enqueue me [] = ([], false)
enqueue me (none ∷ ts) = (some me ∷ ts, true)
enqueue me (some t ∷ ts) = let (rest, queued) = enqueue me ts in (some t ∷ rest, queued)

-- Their last loop.
unfoldable pub dequeue : ℕ → Slots → Slots
dequeue me [] = []
dequeue me (none ∷ ts) = none ∷ dequeue me ts
dequeue me (some t ∷ ts) = if t == me then none ∷ ts else some t ∷ dequeue me ts

-- `task_to_notify`: null, or a slot by its index and the task in it.
abbrev pub Candidate : Type 0
Candidate = Option (ℕ × ℕ)

abbrev pub is_better : (ℕ → ℕ) → ℕ → Candidate → Bool
is_better priority t none = true
is_better priority t (some (j, u)) = ltb (priority u) (priority t)

-- The loop of `notify_one` from slot `i` on; `priority` is `uxTaskPriorityGet`.
pub scan : (ℕ → ℕ) → ℕ → Candidate → Slots → Candidate
scan priority i best [] = best
scan priority i best (none ∷ ts) = scan priority (suc i) best ts
scan priority i best (some t ∷ ts) =
    scan priority (suc i) (if is_better priority t best then some (i, t) else best) ts

-- The table after `notify_one`, and the task that it notifies.
pub notify_one : (ℕ → ℕ) → Slots → Slots × Option ℕ
notify_one priority ts = elim (scan priority zero none ts) [
  | none ↦ (ts, none)
  | some (i, t) ↦ (set ts i none, some t)
]

-- The table after `notify_all`, and the tasks that it notifies, in the order of the calls.
unfoldable pub notify_all : Slots → Slots × List ℕ
notify_all [] = ([], [])
notify_all (none ∷ ts) = let (rest, notified) = notify_all ts in (none ∷ rest, notified)
notify_all (some t ∷ ts) = let (rest, notified) = notify_all ts in (none ∷ rest, t ∷ notified)
