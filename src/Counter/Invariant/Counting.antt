-- ===== src/Counter/Invariant/Counting.antt =====
-- How many increments the threads have made.
use roo_threads.Base.{ℕ, ◌+◌, ◌≤◌, ◌<◌, ◌≡◌, true, arith}
use roo_threads.Base.Family.{total, total-update}
use roo_threads.Counter.{
  looping, entered, loaded, stored, returned, System, Step, locks, loads, stores, unlocks, ends,
  constructs_one, constructed_all, joins_one, joined_all, get_locks, get_reads, get_unlocks,
}
use roo_threads.Counter.Invariant.{has_mutex, increments, Inv}

module _ (n : ℕ) (steps : ℕ → ℕ) where
  pub Step-counted :
      {s t : System} → Step n s t → Inv n steps s → total increments n t.worker ≡ t.val
  Step-counted {s} (locks k lt e l o) inv = ground (
    arith,
    inv.counted,
    total-update increments s.worker n k
        (record { pc = entered; steps = (s.worker k).steps; i = (s.worker k).i }),
  )
  Step-counted {s} (loads k lt e) inv = ground (
    arith,
    inv.counted,
    total-update increments s.worker n k
        (record { pc = loaded s.val; steps = (s.worker k).steps; i = (s.worker k).i }),
  )
  Step-counted {s} (stores k v lt e) inv = ground (
    arith,
    inv.fresh k v,
    inv.counted,
    total-update increments s.worker n k
        (record { pc = stored; steps = (s.worker k).steps; i = (s.worker k).i }),
  )
  Step-counted {s} (unlocks k lt e) inv = ground (
    arith,
    inv.counted,
    total-update increments s.worker n k
        (record { pc = looping; steps = (s.worker k).steps; i = (s.worker k).i + 1 }),
  )
  Step-counted {s} (ends k lt e l) inv = ground (
    arith,
    inv.counted,
    total-update increments s.worker n k
        (record { pc = returned; steps = (s.worker k).steps; i = (s.worker k).i }),
  )
  Step-counted {s} (constructs_one k lt e) inv = ground (
    arith,
    inv.unborn k,
    inv.counted,
    total-update increments s.worker n k
        (record { pc = looping; steps = (s.worker k).steps; i = (s.worker k).i }),
  )
  Step-counted {s} (constructed_all e) inv = inv.counted
  Step-counted {s} (joins_one k lt e r) inv = inv.counted
  Step-counted {s} (joined_all e) inv = inv.counted
  Step-counted {s} (get_locks e o) inv = inv.counted
  Step-counted {s} (get_reads e) inv = inv.counted
  Step-counted {s} (get_unlocks v e) inv = inv.counted

  pub Step-given :
      {s t : System} → Step n s t → Inv n steps s → (j : ℕ) → (t.worker j).steps ≡ steps j
  Step-given (locks k lt e l o) inv j = ground (arith, inv.given j)
  Step-given (loads k lt e) inv j = ground (arith, inv.given j)
  Step-given (stores k v lt e) inv j = ground (arith, inv.given j)
  Step-given (unlocks k lt e) inv j = ground (arith, inv.given j)
  Step-given (ends k lt e l) inv j = ground (arith, inv.given j)
  Step-given (constructs_one k lt e) inv j = ground (arith, inv.given j)
  Step-given (constructed_all e) inv j = ground (arith, inv.given j)
  Step-given (joins_one k lt e r) inv j = ground (arith, inv.given j)
  Step-given (joined_all e) inv j = ground (arith, inv.given j)
  Step-given (get_locks e o) inv j = ground (arith, inv.given j)
  Step-given (get_reads e) inv j = ground (arith, inv.given j)
  Step-given (get_unlocks v e) inv j = ground (arith, inv.given j)

  pub Step-within :
      {s t : System} → Step n s t → Inv n steps s → (j : ℕ) → (t.worker j).i ≤ (t.worker j).steps
  Step-within (locks k lt e l o) inv j = ground (arith, inv.within j)
  Step-within (loads k lt e) inv j = ground (arith, inv.within j)
  Step-within (stores k v lt e) inv j = ground (arith, inv.within j)
  Step-within (unlocks k lt e) inv j = ground (arith, inv.within j, inv.busy j)
  Step-within (ends k lt e l) inv j = ground (arith, inv.within j)
  Step-within (constructs_one k lt e) inv j = ground (arith, inv.within j)
  Step-within (constructed_all e) inv j = ground (arith, inv.within j)
  Step-within (joins_one k lt e r) inv j = ground (arith, inv.within j)
  Step-within (joined_all e) inv j = ground (arith, inv.within j)
  Step-within (get_locks e o) inv j = ground (arith, inv.within j)
  Step-within (get_reads e) inv j = ground (arith, inv.within j)
  Step-within (get_unlocks v e) inv j = ground (arith, inv.within j)

  pub Step-busy :
      {s t : System}
      → Step n s t
      → Inv n steps s
      → (j : ℕ) → has_mutex (t.worker j).pc ≡ true
      → (t.worker j).i < (t.worker j).steps
  Step-busy (locks k lt e l o) inv j h = ground (arith, inv.busy j)
  Step-busy (loads k lt e) inv j h = ground (arith, inv.busy j)
  Step-busy (stores k v lt e) inv j h = ground (arith, inv.busy j)
  Step-busy (unlocks k lt e) inv j h = ground (arith, inv.busy j)
  Step-busy (ends k lt e l) inv j h = ground (arith, inv.busy j)
  Step-busy (constructs_one k lt e) inv j h = ground (arith, inv.busy j)
  Step-busy (constructed_all e) inv j h = ground (arith, inv.busy j)
  Step-busy (joins_one k lt e r) inv j h = ground (arith, inv.busy j)
  Step-busy (joined_all e) inv j h = ground (arith, inv.busy j)
  Step-busy (get_locks e o) inv j h = ground (arith, inv.busy j)
  Step-busy (get_reads e) inv j h = ground (arith, inv.busy j)
  Step-busy (get_unlocks v e) inv j h = ground (arith, inv.busy j)

  pub Step-whole :
      {s t : System}
      → Step n s t
      → Inv n steps s
      → (j : ℕ) → (t.worker j).pc ≡ returned
      → (t.worker j).i ≡ (t.worker j).steps
  Step-whole (locks k lt e l o) inv j h = ground (arith, inv.whole j)
  Step-whole (loads k lt e) inv j h = ground (arith, inv.whole j)
  Step-whole (stores k v lt e) inv j h = ground (arith, inv.whole j)
  Step-whole (unlocks k lt e) inv j h = ground (arith, inv.whole j)
  Step-whole (ends k lt e l) inv j h = ground (arith, inv.whole j, inv.within j)
  Step-whole (constructs_one k lt e) inv j h = ground (arith, inv.whole j)
  Step-whole (constructed_all e) inv j h = ground (arith, inv.whole j)
  Step-whole (joins_one k lt e r) inv j h = ground (arith, inv.whole j)
  Step-whole (joined_all e) inv j h = ground (arith, inv.whole j)
  Step-whole (get_locks e o) inv j h = ground (arith, inv.whole j)
  Step-whole (get_reads e) inv j h = ground (arith, inv.whole j)
  Step-whole (get_unlocks v e) inv j h = ground (arith, inv.whole j)
