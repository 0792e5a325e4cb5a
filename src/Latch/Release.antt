-- ===== src/Latch/Release.antt =====
-- A latch releases the threads that wait for it, and no thread before.
use roo_threads.Base.{ℕ, ◌≡◌, ◌≢◌, ◌⊎◌, arith}
use roo_threads.Base.Int.{ℤ, pos}
use roo_threads.Latch.{
  sleeping, released, Latch, count_down, check, Step, counts_down, waits, checks, wakes, leaves,
  Reach, constructed, later,
}

-- In a reachable state where the counter is zero no thread sleeps.
pub zero_releases :
    {first : ℤ} {s : Latch} (i : ℕ) → Reach first s → s.count ≡ pos 0 → s.pc i ≢ sleeping
unfolding count_down check
zero_releases i constructed z h = cc
zero_releases i (later {s} r (counts_down n)) z h = ground (arith, zero_releases i r)
zero_releases i (later {s} r (waits j e)) z h = ground (arith, zero_releases i r)
zero_releases i (later {s} r (checks j e)) z h = ground (arith, zero_releases i r)
zero_releases i (later {s} r (wakes j e)) z h = ground (arith, zero_releases i r)
zero_releases i (later {s} r (leaves j e)) z h = ground (arith, zero_releases i r)

-- A step after which a thread's wait() has returned is taken where it had returned before, or where the
-- counter is zero.
pub released_at_zero :
    {s t : Latch} (i : ℕ) → Step s t → t.pc i ≡ released → (s.pc i ≡ released) ⊎ (s.count ≡ pos 0)
unfolding count_down check
released_at_zero {s} i (counts_down n) h = ground arith
released_at_zero {s} i (waits j e) h = ground arith
released_at_zero {s} i (checks j e) h = ground arith
released_at_zero {s} i (wakes j e) h = ground arith
released_at_zero {s} i (leaves j e) h = ground arith
