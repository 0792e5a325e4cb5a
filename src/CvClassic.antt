-- ===== src/CvClassic.antt =====
-- impl/freertos/condition_variable_classic.h and .cpp: threads that use one condition variable and the
-- mutex that guards it, interleaved in any order. What runs under `mutex_` is one step, since that
-- mutex keeps the other members out; the user's mutex is its owner.
pub mod Counting
pub mod Wakeup
pub mod Overtaking
pub mod Timed
mod Tests
use roo_threads.Base.{ℕ, zero, suc, ◌<◌, ◌≡◌, Bool, true, false, Option, none, some, if◌then◌else◌}
use roo_threads.Base.Int.{ℤ, pos, pos_part, ltb_ℤ, ◌+ℤ◌, ◌-ℤ◌}
use roo_threads.Base.Family.{update}
use roo_threads.Kernel.{TokenKernel}

pub data Pc : Type 0 where
  outside : Pc  -- not in the condition variable, and without the mutex
  holding : Pc  -- not in the condition variable, and with the mutex
  waiting : (timed : Bool) → Pc  -- in waitlist_.acquire() or waitlist_.try_acquire_until()
  acquired : Pc  -- with a token, before lock.lock()
  expired : Pc  -- without a token, before lock.lock()
  relocked : Pc  -- without a token, after lock.lock()

module _ (K : TokenKernel) where
  open K use {Sem, create, take, give}

  -- The fields `waitlist_` and `waitcount_`.
  pub record CvClassic : Type 0 where
    pub waitlist : Sem
    pub waitcount : ℤ

  pub condition_variable_classic : CvClassic
  condition_variable_classic = record { waitlist = create 0; waitcount = pos 0 }

  pub notify_one : CvClassic → CvClassic
  notify_one v =
      if ltb_ℤ (pos 0) v.waitcount
      then record { waitlist = give v.waitlist; waitcount = v.waitcount -ℤ pos 1 }
      else v

  -- The loop of notify_all(), for the number of rounds that are left.
  pub give_times : ℕ → Sem → Sem
  give_times zero s = s
  give_times (suc n) s = give_times n (give s)

  pub notify_all : CvClassic → CvClassic
  notify_all v = record {
    waitlist = give_times (pos_part v.waitcount) v.waitlist;
    waitcount = pos 0;
  }

  pub record System : Type 0 where
    pub cv : CvClassic
    pub owner : Option ℕ
    pub pc : ℕ → Pc

  -- The steps of `n` threads.
  pub data Step (n : ℕ) (s : System) : System → Type 0 where
    lock_mutex :
        (i : ℕ)
        → i < n
        → s.pc i ≡ outside
        → s.owner ≡ none
        → Step n s (record s { owner = some i; pc = update s.pc i holding })
    unlock_mutex :
        (i : ℕ)
        → i < n
        → s.pc i ≡ holding
        → Step n s (record s { owner = none; pc = update s.pc i outside })
    -- `{ lock_guard<mutex> guard(mutex_); ++waitcount_; lock.unlock(); }`
    start_wait :
        (i : ℕ) (timed : Bool)
        → i < n
        → s.pc i ≡ holding
        → Step n s (record s {
          cv = record { waitlist = s.cv.waitlist; waitcount = s.cv.waitcount +ℤ pos 1 };
          owner = none;
          pc = update s.pc i (waiting timed);
        })
    takes :
        (i : ℕ) (timed : Bool)
        → i < n
        → s.pc i ≡ waiting timed
        → (take s.cv.waitlist).1 ≡ true
        → Step n s (record s {
          cv = record { waitlist = (take s.cv.waitlist).0; waitcount = s.cv.waitcount };
          pc = update s.pc i acquired;
        })
    -- try_acquire_until() returns false
    expires :
        (i : ℕ) → i < n → s.pc i ≡ waiting true → Step n s (record s { pc = update s.pc i expired })
    -- lock.lock(), and the return where a token was acquired
    relock :
        (i : ℕ)
        → i < n
        → s.pc i ≡ acquired
        → s.owner ≡ none
        → Step n s (record s { owner = some i; pc = update s.pc i holding })
    relock_expired :
        (i : ℕ)
        → i < n
        → s.pc i ≡ expired
        → s.owner ≡ none
        → Step n s (record s { owner = some i; pc = update s.pc i relocked })
    -- `lock_guard<mutex> guard(mutex_); --waitcount_; return cv_status::timeout;`
    discounts :
        (i : ℕ)
        → i < n
        → s.pc i ≡ relocked
        → Step n s (record s {
          cv = record { waitlist = s.cv.waitlist; waitcount = s.cv.waitcount -ℤ pos 1 };
          pc = update s.pc i holding;
        })
    -- by any thread, with or without the user's mutex
    signal : Step n s (record s { cv = notify_one s.cv })
    broadcast : Step n s (record s { cv = notify_all s.cv })

  -- The thread that takes a step: nobody known for a notification, which any thread may send.
  abbrev pub mover : {n : ℕ} {s t : System} → Step n s t → Option ℕ
  mover (lock_mutex i l e o) = some i
  mover (unlock_mutex i l e) = some i
  mover (start_wait i timed l e) = some i
  mover (takes i timed l e h) = some i
  mover (expires i l e) = some i
  mover (relock i l e o) = some i
  mover (relock_expired i l e o) = some i
  mover (discounts i l e) = some i
  mover signal = none
  mover broadcast = none

  -- A step that one thread takes itself.
  abbrev pub Own : ℕ → ℕ → System → System → Type 0
  Own n i s t = (step : Step n s t) × (mover step ≡ some i)

  pub data Reach (n : ℕ) : System → Type 0 where
    start :
        (s : System)
        → s.cv ≡ condition_variable_classic
        → s.owner ≡ none
        → ((i : ℕ) → s.pc i ≡ outside)
        → Reach n s
    later : {s t : System} → Reach n s → Step n s t → Reach n t
