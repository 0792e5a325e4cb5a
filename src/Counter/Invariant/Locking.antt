-- ===== src/Counter/Invariant/Locking.antt =====
-- Who has the mutex of the counter, and what the value that a thread has loaded is.
use roo_threads.Base.{ℕ, ◌<◌, ◌≡◌, ◌⊎◌, true, some, arith}
use roo_threads.Counter.{
  loaded, System, Step, locks, loads, stores, unlocks, ends, constructs_one, constructed_all,
  joins_one, joined_all, get_locks, get_reads, get_unlocks,
}
use roo_threads.Counter.Invariant.{has_mutex, main_has_mutex, Inv}

module _ (n : ℕ) (steps : ℕ → ℕ) where
  pub Step-owned :
      {s t : System}
      → Step n s t
      → Inv n steps s
      → (j : ℕ) → j < n
      → has_mutex (t.worker j).pc ≡ true
      → t.owner ≡ some j
  Step-owned (locks k lt e l o) inv j b h = ground (arith, inv.owned j)
  Step-owned (loads k lt e) inv j b h = ground (arith, inv.owned j, inv.owned k)
  Step-owned (stores k v lt e) inv j b h = ground (arith, inv.owned j, inv.owned k)
  Step-owned (unlocks k lt e) inv j b h = ground (arith, inv.owned j, inv.owned k)
  Step-owned (ends k lt e l) inv j b h = ground (arith, inv.owned j)
  Step-owned (constructs_one k lt e) inv j b h = ground (arith, inv.owned j)
  Step-owned (constructed_all e) inv j b h = inv.owned j b h
  Step-owned (joins_one k lt e r) inv j b h = inv.owned j b h
  Step-owned (joined_all e) inv j b h = inv.owned j b h
  Step-owned (get_locks e o) inv j b h = ground (arith, inv.owned j)
  Step-owned (get_reads e) inv j b h = inv.owned j b h
  Step-owned (get_unlocks v e) inv j b h = ground (arith, inv.owned j, inv.owned_main)

  pub Step-owned_main :
      {s t : System}
      → Step n s t
      → Inv n steps s
      → (main_has_mutex t.main ≡ true → t.owner ≡ some n)
  Step-owned_main (locks k lt e l o) inv h = ground (arith, inv.owned_main)
  Step-owned_main (loads k lt e) inv h = ground (arith, inv.owned_main)
  Step-owned_main (stores k v lt e) inv h = ground (arith, inv.owned_main)
  Step-owned_main (unlocks k lt e) inv h = ground (arith, inv.owned k, inv.owned_main)
  Step-owned_main (ends k lt e l) inv h = ground (arith, inv.owned_main)
  Step-owned_main (constructs_one k lt e) inv h = ground (arith, inv.owned_main)
  Step-owned_main (constructed_all e) inv h = ground (arith, inv.owned_main)
  Step-owned_main (joins_one k lt e r) inv h = ground (arith, inv.owned_main)
  Step-owned_main (joined_all e) inv h = ground (arith, inv.owned_main)
  Step-owned_main (get_locks e o) inv h = ground (arith, inv.owned_main)
  Step-owned_main (get_reads e) inv h = ground (arith, inv.owned_main)
  Step-owned_main (get_unlocks v e) inv h = ground (arith, inv.owned_main)

  pub Step-known :
      {s t : System}
      → Step n s t
      → Inv n steps s
      → (j : ℕ) → t.owner ≡ some j
      → (j < n) × (has_mutex (t.worker j).pc ≡ true) ⊎ (j ≡ n) × (main_has_mutex t.main ≡ true)
  Step-known (locks k lt e l o) inv j h = ground (arith, inv.known j)
  Step-known (loads k lt e) inv j h = ground (arith, inv.known j)
  Step-known (stores k v lt e) inv j h = ground (arith, inv.known j)
  Step-known (unlocks k lt e) inv j h = ground (arith, inv.known j)
  Step-known (ends k lt e l) inv j h = ground (arith, inv.known j)
  Step-known (constructs_one k lt e) inv j h = ground (arith, inv.known j, inv.unborn k)
  Step-known (constructed_all e) inv j h = ground (arith, inv.known j)
  Step-known (joins_one k lt e r) inv j h = ground (arith, inv.known j)
  Step-known (joined_all e) inv j h = ground (arith, inv.known j)
  Step-known (get_locks e o) inv j h = ground (arith, inv.known j)
  Step-known (get_reads e) inv j h = ground (arith, inv.known j)
  Step-known (get_unlocks v e) inv j h = ground (arith, inv.known j)

  pub Step-fresh :
      {s t : System}
      → Step n s t
      → Inv n steps s
      → (j w : ℕ) → j < n
      → (t.worker j).pc ≡ loaded w
      → w ≡ t.val
  Step-fresh (locks k lt e l o) inv j w b h = ground (arith, inv.fresh j w)
  Step-fresh (loads k lt e) inv j w b h = ground (arith, inv.fresh j w)
  Step-fresh (stores k v lt e) inv j w b h = ground (arith, inv.owned j, inv.owned k)
  Step-fresh (unlocks k lt e) inv j w b h = ground (arith, inv.fresh j w)
  Step-fresh (ends k lt e l) inv j w b h = ground (arith, inv.fresh j w)
  Step-fresh (constructs_one k lt e) inv j w b h = ground (arith, inv.fresh j w)
  Step-fresh (constructed_all e) inv j w b h = ground (arith, inv.fresh j w)
  Step-fresh (joins_one k lt e r) inv j w b h = ground (arith, inv.fresh j w)
  Step-fresh (joined_all e) inv j w b h = ground (arith, inv.fresh j w)
  Step-fresh (get_locks e o) inv j w b h = ground (arith, inv.fresh j w)
  Step-fresh (get_reads e) inv j w b h = ground (arith, inv.fresh j w)
  Step-fresh (get_unlocks v e) inv j w b h = ground (arith, inv.fresh j w)
