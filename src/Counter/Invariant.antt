-- ===== src/Counter/Invariant.antt =====
-- What holds in every state of the threads that increment one counter.
pub mod Locking
pub mod Counting
pub mod Joining
use roo_threads.Base.{
  ℕ, zero, suc, ◌+◌, ◌-◌, ◌*◌, ◌≤◌, ◌<◌, ◌≡◌, ◌≢◌, ◌⊎◌, refl, Bool, true, false, none, some, arith,
  Bool-cases, inl, inr,
}
use roo_threads.Base.Family.{update, total, total-update, total-eq-zero}
use roo_threads.Counter.{
  Pc, absent, looping, entered, loaded, stored, returned, Worker, MainPc, constructs, joins, gets,
  reads, leaves, prints, System, moved, Step, locks, loads, stores, unlocks, ends, constructs_one,
  constructed_all, joins_one, joined_all, get_locks, get_reads, get_unlocks, IsInit, new, Reach,
  start, later,
}

-- The thread has the mutex.
abbrev pub has_mutex : Pc → Bool
has_mutex entered = true
has_mutex (loaded v) = true
has_mutex stored = true
has_mutex _ = false

abbrev pub main_has_mutex : MainPc → Bool
main_has_mutex reads = true
main_has_mutex (leaves v) = true
main_has_mutex _ = false

-- How many increments a thread has made.
abbrev pub stored_once : Pc → ℕ
stored_once stored = 1
stored_once _ = 0

abbrev pub increments : Worker → ℕ
increments w = w.i + stored_once w.pc

-- Up to which thread the task has constructed, and joined.
abbrev pub constructed : ℕ → MainPc → ℕ
constructed n (constructs k) = k
constructed n _ = n

abbrev pub joined : ℕ → MainPc → ℕ
joined n (constructs k) = 0
joined n (joins k) = k
joined n _ = n

module _ (n : ℕ) (steps : ℕ → ℕ) where
  pub record Inv (s : System) : Type 0 where
    pub owned : (j : ℕ) → j < n → has_mutex (s.worker j).pc ≡ true → s.owner ≡ some j
    pub owned_main : main_has_mutex s.main ≡ true → s.owner ≡ some n
    pub known :
        (j : ℕ)
        → s.owner ≡ some j
        → (j < n) × (has_mutex (s.worker j).pc ≡ true) ⊎ (j ≡ n) × (main_has_mutex s.main ≡ true)
    pub fresh : (j v : ℕ) → j < n → (s.worker j).pc ≡ loaded v → v ≡ s.val
    pub counted : total increments n s.worker ≡ s.val
    pub given : (j : ℕ) → (s.worker j).steps ≡ steps j
    pub within : (j : ℕ) → (s.worker j).i ≤ (s.worker j).steps
    pub busy : (j : ℕ) → has_mutex (s.worker j).pc ≡ true → (s.worker j).i < (s.worker j).steps
    pub whole : (j : ℕ) → (s.worker j).pc ≡ returned → (s.worker j).i ≡ (s.worker j).steps
    pub present : (j : ℕ) → j < constructed n s.main → (s.worker j).pc ≢ absent
    pub unborn : (j : ℕ) → constructed n s.main ≤ j → j < n → (s.worker j).pc ≡ absent
    pub done : (j : ℕ) → j < joined n s.main → (s.worker j).pc ≡ returned
    pub main_le : (joined n s.main ≤ n) × (constructed n s.main ≤ n)
    pub result : (v : ℕ) → s.main ≡ leaves v → v ≡ s.val
    pub printed : (v : ℕ) → s.main ≡ prints v → v ≡ s.val
