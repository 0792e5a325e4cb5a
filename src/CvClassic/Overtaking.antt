-- ===== src/CvClassic/Overtaking.antt =====
-- A thread that starts to wait after a notify_one() of condition_variable_classic.cpp can take its token.
use roo_threads.Base.{ℕ, ◌≤◌, ◌<◌, ◌≡◌, refl, Bool, true, false, none, arith, Bool-cases, inl, inr}
use roo_threads.Base.Int.{pos, ◌+ℤ◌, ◌-ℤ◌}
use roo_threads.Base.Runs.{Run, here, next}
use roo_threads.Kernel.{TokenKernel}
use roo_threads.CvClassic.{
  outside, holding, waiting, notify_one, System, Own, lock_mutex, start_wait, takes, relock,
}

module _ (K : TokenKernel) (n : ℕ) where
  open K use {Sem, count, most, take, give, take_empty, count-take, count-give}

  -- A semaphore that had no token has one after it is given.
  given-take : (w : Sem) → 0 < most → count w ≡ 0 → (take (give w)).1 ≡ true
  given-take w m e = elim (Bool-cases (take (give w)).1) [
    | inl h ↦ h
    | inr h ↦ absurd (ground (arith, take_empty (give w), count-give w))
  ]

  -- Where a thread waits, and is the only one that is counted, no token is there, the mutex is free and another thread is
  -- outside: from the state right after a call of notify_one() there is a run of steps of the other
  -- thread alone by which it takes the mutex, starts to wait and returns from its wait with the only
  -- token; the first thread stands where it stood, in its wait, is counted again as the
  -- only one, and has no token to take.
  pub late_waiter_overtakes :
      {s : System K} (i k : ℕ) (timed : Bool)
      → i < n
      → k < n
      → n ≤ most
      → s.pc i ≡ waiting timed
      → s.pc k ≡ outside
      → s.owner ≡ none
      → s.cv.waitcount ≡ pos 1
      → count s.cv.waitlist ≡ 0
      → let u = record s { cv = notify_one K s.cv } in
        (count u.cv.waitlist ≡ 1)
        × (u.cv.waitcount ≡ pos 0)
        × (t : System K) × Run (Own K n k) u t
        × (t.pc k ≡ holding)
        × (t.pc i ≡ waiting timed)
        × (t.cv.waitcount ≡ pos 1)
        × (count t.cv.waitlist ≡ 0)
  unfolding notify_one ◌+ℤ◌ ◌-ℤ◌
  late_waiter_overtakes {s} i k timed li lk room ei ek o c e =
      let taken = given-take s.cv.waitlist (omega arith) e in
      (
        ground (arith, count-give s.cv.waitlist),
        ground arith,
        _,
        next
            (next
              (next (next here (lock_mutex k lk ek o, refl))
                (start_wait k false lk (ground arith), refl))
              (takes k false lk (ground arith) (ground arith), refl))
            (relock k lk (ground arith) refl, refl),
        ground arith,
        ground arith,
        ground arith,
        ground (arith, count-take (give s.cv.waitlist), count-give s.cv.waitlist),
      )
