-- ===== src/CvClassic/Counting.antt =====
-- Tokens and waiting threads of condition_variable_classic.cpp.
use roo_threads.Base.{ℕ, zero, suc, ◌+◌, ◌≤◌, ◌≡◌, arith}
use Prim.Native.Nat.{min}
use roo_threads.Base.Int.{pos, pos_part, neg_part, +ℤ_parts, -ℤ_parts}
use roo_threads.Base.Family.{total, total-update, total-le, total-eq-zero}
use roo_threads.Kernel.{TokenKernel}
use roo_threads.CvClassic.{
  Pc, outside, holding, waiting, acquired, expired, relocked, CvClassic, condition_variable_classic,
  notify_one, give_times, notify_all, System, Step, lock_mutex, unlock_mutex, start_wait, takes,
  expires, relock, relock_expired, discounts, signal, broadcast, Reach, start, later,
}

-- A thread that waits without a token, or that has given up and is still counted.
abbrev pub waits : Pc → ℕ
waits (waiting _) = 1
waits expired = 1
waits relocked = 1
waits _ = 0

module _ (K : TokenKernel) (n : ℕ) where
  open K use {count, most, count-create, count-take, count-give}

  abbrev pub waiters : System K → ℕ
  waiters s = total waits n s.pc

  -- The waiting threads are covered by the wait count and the tokens.
  pub record Inv (s : System K) : Type 0 where
    pub covered :
        waiters s + neg_part s.cv.waitcount ≤ pos_part s.cv.waitcount + count s.cv.waitlist
    pub crowd : waiters s ≤ n

  count-give_times : (k : ℕ) (s : K.Sem) → min (count s + k) most ≤ count (give_times K k s)
  unfolding give_times
  count-give_times zero s = omega arith
  count-give_times (suc k) s = ground (arith, count-give s, count-give_times k (K.give s))

  crowd_lem : (pc : ℕ → Pc) → total waits n pc ≤ n
  crowd_lem pc = total-le waits pc n (λ i. ground arith)

  notify_one-covered :
      (v : CvClassic K) (w : ℕ)
      → w ≤ most
      → w + neg_part v.waitcount ≤ pos_part v.waitcount + count v.waitlist
      → w + neg_part (notify_one K v).waitcount
        ≤ pos_part (notify_one K v).waitcount + count (notify_one K v).waitlist
  unfolding notify_one
  notify_one-covered v w fits h =
      ground (arith, h, count-give v.waitlist, -ℤ_parts v.waitcount (pos 1))

  pub notify_all-covered :
      (v : CvClassic K) (w : ℕ)
      → w ≤ most
      → w + neg_part v.waitcount ≤ pos_part v.waitcount + count v.waitlist
      → w + neg_part (notify_all K v).waitcount
        ≤ pos_part (notify_all K v).waitcount + count (notify_all K v).waitlist
  unfolding notify_all
  notify_all-covered v w fits h =
      ground (arith, h, count-give_times (pos_part v.waitcount) v.waitlist)

  module _ (room : n ≤ most) where
    Step-covered :
        {s t : System K}
        → Step K n s t
        → Inv s
        → waiters t + neg_part t.cv.waitcount ≤ pos_part t.cv.waitcount + count t.cv.waitlist
    Step-covered {s} (lock_mutex i lt e o) inv =
        ground (arith, total-update waits s.pc n i holding, inv.covered)
    Step-covered {s} (unlock_mutex i lt e) inv =
        ground (arith, total-update waits s.pc n i outside, inv.covered)
    Step-covered {s} (start_wait i b lt e) inv = ground (
      arith,
      total-update waits s.pc n i (waiting b),
      inv.covered,
      +ℤ_parts s.cv.waitcount (pos 1),
    )
    Step-covered {s} (takes i b lt e h) inv =
        ground (arith, total-update waits s.pc n i acquired, inv.covered, count-take s.cv.waitlist)
    Step-covered {s} (expires i lt e) inv =
        ground (arith, total-update waits s.pc n i expired, inv.covered)
    Step-covered {s} (relock i lt e o) inv =
        ground (arith, total-update waits s.pc n i holding, inv.covered)
    Step-covered {s} (relock_expired i lt e o) inv =
        ground (arith, total-update waits s.pc n i relocked, inv.covered)
    Step-covered {s} (discounts i lt e) inv =
        ground
          (arith, total-update waits s.pc n i holding, inv.covered, -ℤ_parts s.cv.waitcount (pos 1))
    Step-covered {s} signal inv =
        notify_one-covered s.cv (waiters s) (omega (arith, inv.crowd)) inv.covered
    Step-covered {s} broadcast inv =
        notify_all-covered s.cv (waiters s) (omega (arith, inv.crowd)) inv.covered

    Step-Inv : {s t : System K} → Step K n s t → Inv s → Inv t
    Step-Inv {t} step inv = record { covered = Step-covered step inv; crowd = crowd_lem t.pc }

    Start-Inv :
        (s : System K) → s.cv ≡ condition_variable_classic K → ((i : ℕ) → s.pc i ≡ outside) → Inv s
    unfolding condition_variable_classic
    Start-Inv s e out = record {
      covered =
          ground (arith, total-eq-zero waits s.pc n (λ i. ground (arith, out i)), count-create 0);
      crowd = crowd_lem s.pc;
    }

    pub Reach-Inv : {s : System K} → Reach K n s → Inv s
    Reach-Inv (start s e o out) = Start-Inv s e out
    Reach-Inv (later r step) = Step-Inv step (Reach-Inv r)
