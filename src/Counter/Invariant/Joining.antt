-- ===== src/Counter/Invariant/Joining.antt =====
-- Which threads the task has constructed and joined, and the invariant in every reachable state.
use roo_threads.Base.{ℕ, ◌≤◌, ◌<◌, ◌≡◌, ◌≢◌, arith}
use roo_threads.Base.Family.{total, total-eq-zero}
use roo_threads.Counter.{
  absent, returned, Worker, leaves, prints, System, Step, locks, loads, stores, unlocks, ends,
  constructs_one, constructed_all, joins_one, joined_all, get_locks, get_reads, get_unlocks, IsInit,
  new, Reach, start, later,
}
use roo_threads.Counter.Invariant.{increments, constructed, joined, Inv}
use roo_threads.Counter.Invariant.Locking.{Step-owned, Step-owned_main, Step-known, Step-fresh}
use roo_threads.Counter.Invariant.Counting.{
  Step-counted, Step-given, Step-within, Step-busy, Step-whole,
}

module _ (n : ℕ) (steps : ℕ → ℕ) where
  Step-present :
      {s t : System}
      → Step n s t
      → Inv n steps s
      → (j : ℕ) → j < constructed n t.main
      → (t.worker j).pc ≢ absent
  Step-present (locks k lt e l o) inv j b h = ground (arith, inv.present j)
  Step-present (loads k lt e) inv j b h = ground (arith, inv.present j)
  Step-present (stores k v lt e) inv j b h = ground (arith, inv.present j)
  Step-present (unlocks k lt e) inv j b h = ground (arith, inv.present j)
  Step-present (ends k lt e l) inv j b h = ground (arith, inv.present j)
  Step-present (constructs_one k lt e) inv j b h = ground (arith, inv.present j)
  Step-present (constructed_all e) inv j b h = ground (arith, inv.present j)
  Step-present (joins_one k lt e r) inv j b h = ground (arith, inv.present j)
  Step-present (joined_all e) inv j b h = ground (arith, inv.present j)
  Step-present (get_locks e o) inv j b h = ground (arith, inv.present j)
  Step-present (get_reads e) inv j b h = ground (arith, inv.present j)
  Step-present (get_unlocks v e) inv j b h = ground (arith, inv.present j)

  Step-unborn :
      {s t : System}
      → Step n s t
      → Inv n steps s
      → (j : ℕ) → constructed n t.main ≤ j
      → j < n
      → (t.worker j).pc ≡ absent
  Step-unborn (locks k lt e l o) inv j b lt' = ground (arith, inv.unborn j)
  Step-unborn (loads k lt e) inv j b lt' = ground (arith, inv.unborn j)
  Step-unborn (stores k v lt e) inv j b lt' = ground (arith, inv.unborn j)
  Step-unborn (unlocks k lt e) inv j b lt' = ground (arith, inv.unborn j)
  Step-unborn (ends k lt e l) inv j b lt' = ground (arith, inv.unborn j)
  Step-unborn (constructs_one k lt e) inv j b lt' = ground (arith, inv.unborn j)
  Step-unborn (constructed_all e) inv j b lt' = ground (arith, inv.unborn j)
  Step-unborn (joins_one k lt e r) inv j b lt' = ground (arith, inv.unborn j)
  Step-unborn (joined_all e) inv j b lt' = ground (arith, inv.unborn j)
  Step-unborn (get_locks e o) inv j b lt' = ground (arith, inv.unborn j)
  Step-unborn (get_reads e) inv j b lt' = ground (arith, inv.unborn j)
  Step-unborn (get_unlocks v e) inv j b lt' = ground (arith, inv.unborn j)

  Step-done :
      {s t : System}
      → Step n s t
      → Inv n steps s
      → (j : ℕ) → j < joined n t.main
      → (t.worker j).pc ≡ returned
  Step-done (locks k lt e l o) inv j b = ground (arith, inv.done j)
  Step-done (loads k lt e) inv j b = ground (arith, inv.done j)
  Step-done (stores k v lt e) inv j b = ground (arith, inv.done j)
  Step-done (unlocks k lt e) inv j b = ground (arith, inv.done j)
  Step-done (ends k lt e l) inv j b = ground (arith, inv.done j)
  Step-done (constructs_one k lt e) inv j b = ground arith
  Step-done (constructed_all e) inv j b = ground arith
  Step-done (joins_one k lt e r) inv j b = ground (arith, inv.done j)
  Step-done (joined_all e) inv j b = ground (arith, inv.done j)
  Step-done (get_locks e o) inv j b = ground (arith, inv.done j)
  Step-done (get_reads e) inv j b = ground (arith, inv.done j)
  Step-done (get_unlocks v e) inv j b = ground (arith, inv.done j)

  Step-main_le :
      {s t : System}
      → Step n s t
      → Inv n steps s
      → (joined n t.main ≤ n) × (constructed n t.main ≤ n)
  Step-main_le (locks k lt e l o) inv = ground (arith, inv.main_le)
  Step-main_le (loads k lt e) inv = ground (arith, inv.main_le)
  Step-main_le (stores k v lt e) inv = ground (arith, inv.main_le)
  Step-main_le (unlocks k lt e) inv = ground (arith, inv.main_le)
  Step-main_le (ends k lt e l) inv = ground (arith, inv.main_le)
  Step-main_le (constructs_one k lt e) inv = ground (arith, inv.main_le)
  Step-main_le (constructed_all e) inv = ground (arith, inv.main_le)
  Step-main_le (joins_one k lt e r) inv = ground (arith, inv.main_le)
  Step-main_le (joined_all e) inv = ground (arith, inv.main_le)
  Step-main_le (get_locks e o) inv = ground (arith, inv.main_le)
  Step-main_le (get_reads e) inv = ground (arith, inv.main_le)
  Step-main_le (get_unlocks v e) inv = ground (arith, inv.main_le)

  Step-result :
      {s t : System} → Step n s t → Inv n steps s → (w : ℕ) → t.main ≡ leaves w → w ≡ t.val
  Step-result (locks k lt e l o) inv w h = ground (arith, inv.result w)
  Step-result (loads k lt e) inv w h = ground (arith, inv.result w)
  Step-result (stores k v lt e) inv w h = ground (arith, inv.done k)
  Step-result (unlocks k lt e) inv w h = ground (arith, inv.result w)
  Step-result (ends k lt e l) inv w h = ground (arith, inv.result w)
  Step-result (constructs_one k lt e) inv w h = ground (arith, inv.result w)
  Step-result (constructed_all e) inv w h = ground (arith, inv.result w)
  Step-result (joins_one k lt e r) inv w h = ground (arith, inv.result w)
  Step-result (joined_all e) inv w h = ground (arith, inv.result w)
  Step-result (get_locks e o) inv w h = ground (arith, inv.result w)
  Step-result (get_reads e) inv w h = ground (arith, inv.result w)
  Step-result (get_unlocks v e) inv w h = ground (arith, inv.result w)

  Step-printed :
      {s t : System} → Step n s t → Inv n steps s → (w : ℕ) → t.main ≡ prints w → w ≡ t.val
  Step-printed (locks k lt e l o) inv w h = ground (arith, inv.printed w)
  Step-printed (loads k lt e) inv w h = ground (arith, inv.printed w)
  Step-printed (stores k v lt e) inv w h = ground (arith, inv.done k)
  Step-printed (unlocks k lt e) inv w h = ground (arith, inv.printed w)
  Step-printed (ends k lt e l) inv w h = ground (arith, inv.printed w)
  Step-printed (constructs_one k lt e) inv w h = ground (arith, inv.printed w)
  Step-printed (constructed_all e) inv w h = ground (arith, inv.printed w)
  Step-printed (joins_one k lt e r) inv w h = ground (arith, inv.printed w)
  Step-printed (joined_all e) inv w h = ground (arith, inv.printed w)
  Step-printed (get_locks e o) inv w h = ground (arith, inv.printed w)
  Step-printed (get_reads e) inv w h = ground (arith, inv.printed w)
  Step-printed (get_unlocks v e) inv w h = ground (arith, inv.result v)

  -- Every step keeps the invariant.
  Step-Inv : {s t : System} → Step n s t → Inv n steps s → Inv n steps t
  Step-Inv step inv = record {
    owned = Step-owned n steps step inv;
    owned_main = Step-owned_main n steps step inv;
    known = Step-known n steps step inv;
    fresh = Step-fresh n steps step inv;
    counted = Step-counted n steps step inv;
    given = Step-given n steps step inv;
    within = Step-within n steps step inv;
    busy = Step-busy n steps step inv;
    whole = Step-whole n steps step inv;
    present = Step-present step inv;
    unborn = Step-unborn step inv;
    done = Step-done step inv;
    main_le = Step-main_le step inv;
    result = Step-result step inv;
    printed = Step-printed step inv;
  }

  -- A thread that has not been constructed.
  abbrev fresh_worker : ℕ → Worker
  fresh_worker k = record { pc = absent; steps = k; i = 0 }

  init_counted :
      (worker : ℕ → Worker)
      → ((j : ℕ) → worker j ≡ fresh_worker (steps j))
      → total increments n worker ≡ 0
  init_counted worker w = total-eq-zero increments worker n (λ j. ground (arith, w j))

  IsInit-Inv : {s : System} → IsInit steps s → Inv n steps s
  IsInit-Inv {s} (new v o m w) = record {
    owned = λ j b h. ground (arith, w j);
    owned_main = λ h. ground arith;
    known = λ j h. ground arith;
    fresh = λ j x b h. ground (arith, w j);
    counted = omega (arith, init_counted s.worker w);
    given = λ j. ground (arith, w j);
    within = λ j. ground (arith, w j);
    busy = λ j h. ground (arith, w j);
    whole = λ j h. ground (arith, w j);
    present = λ j b. absurd (ground arith);
    unborn = λ j b l. ground (arith, w j);
    done = λ j b. absurd (ground arith);
    main_le = ground arith;
    result = λ x h. ground arith;
    printed = λ x h. ground arith;
  }

  pub Reach-Inv : {s : System} → Reach n steps s → Inv n steps s
  Reach-Inv (start init) = IsInit-Inv init
  Reach-Inv (later r step) = Step-Inv step (Reach-Inv r)
