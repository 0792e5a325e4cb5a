-- ===== src/CvClassic/Wakeup.antt =====
-- What the counted tokens of condition_variable_classic.cpp mean for the threads that wait.
use roo_threads.Base.{ℕ, ◌+◌, ◌≤◌, ◌<◌, ◌≡◌, refl, true, none, some, arith}
use roo_threads.Base.Int.{pos, negsuc, pos_part, neg_part, ◌-ℤ◌}
use roo_threads.Base.Runs.{Run, here, next}
use roo_threads.Kernel.{TokenKernel}
use roo_threads.CvClassic.{
  Own, holding, waiting, notify_one, notify_all, System, expires, relock_expired, discounts, Reach,
}
use roo_threads.CvClassic.Counting.{waiters, notify_all-covered, Reach-Inv}

module _ (K : TokenKernel) (n : ℕ) where
  open K use {count, most, count-give}

  -- In a reachable state of at most as many threads as a semaphore has tokens, the threads that wait without a
  -- token, and those that have given up and are still counted, are at most the wait count and the
  -- tokens together.
  pub tokens_cover_waiters :
      {s : System K}
      → n ≤ most
      → Reach K n s
      → waiters K n s + neg_part s.cv.waitcount ≤ pos_part s.cv.waitcount + count s.cv.waitlist
  tokens_cover_waiters room r = (Reach-Inv K n room r).covered

  -- A call of notify_all() in a reachable state leaves at least one token for each thread that waits.
  pub notify_all_serves :
      {s : System K} → n ≤ most → Reach K n s → waiters K n s ≤ count (notify_all K s.cv).waitlist
  unfolding notify_all
  notify_all_serves {s} room r = ground (
    arith,
    notify_all-covered K n s.cv (waiters K n s),
    (Reach-Inv K n room r).covered,
    (Reach-Inv K n room r).crowd,
  )

  -- A call of notify_one() in a reachable state where a thread waits leaves a token for it.
  pub notify_one_serves :
      {s : System K}
      → n ≤ most
      → Reach K n s
      → 0 < waiters K n s
      → 0 < count (notify_one K s.cv).waitlist
  unfolding notify_one
  notify_one_serves {s} room r some_wait = ground (
    arith,
    (Reach-Inv K n room r).covered,
    (Reach-Inv K n room r).crowd,
    count-give s.cv.waitlist,
  )

  -- In a reachable state where the wait count is 1, the mutex is free and a thread is in a timed
  -- wait: a call of notify_one() leaves the wait count at 0, and from the state right after it there is a run of
  -- steps of this thread alone by which it times out and returns with the mutex, and the wait count is -1.
  pub timeout_after_signal :
      {s : System K} (i : ℕ)
      → Reach K n s
      → i < n
      → s.pc i ≡ waiting true
      → s.cv.waitcount ≡ pos 1
      → s.owner ≡ none
      → let u = record s { cv = notify_one K s.cv } in
        (u.cv.waitcount ≡ pos 0)
        × (t : System K) × Run (Own K n i) u t
        × (t.pc i ≡ holding)
        × (t.owner ≡ some i)
        × (t.cv.waitcount ≡ negsuc 0)
  unfolding notify_one ◌-ℤ◌
  timeout_after_signal {s} i r lt e c o = (
    ground arith,
    _,
    next (next (next here (expires i lt e, refl)) (relock_expired i lt (ground arith) o, refl))
        (discounts i lt (ground arith), refl),
    ground arith,
    refl,
    ground arith,
  )
