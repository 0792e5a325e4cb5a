-- ===== src/Latch.antt =====
-- latch.h: threads that count a latch down and wait for it, interleaved in any order. What runs under
-- `mutex_` is one step; the condition variable is the one of namespace roo, which may also wake a
-- thread without a reason.
pub mod Release
pub mod Composed
mod Tests
use roo_threads.Base.{ℕ, zero, ◌≡◌, ◌≢◌, Bool, true, false, if◌then◌else◌}
use roo_threads.Base.Int.{ℤ, pos, ◌-ℤ◌}
use roo_threads.Base.Family.{update}

pub data Pc : Type 0 where
  outside : Pc
  sleeping : Pc  -- in cv_.wait(), and not woken
  woken : Pc  -- woken, before it evaluates the predicate
  released : Pc  -- wait() has returned

pub record Latch : Type 0 where
  pub count : ℤ
  pub pc : ℕ → Pc

-- `count_ == 0`
abbrev pub is_zero : ℤ → Bool
is_zero (pos zero) = true
is_zero _ = false

abbrev pub notify : Pc → Pc
notify sleeping = woken
notify p = p

-- notify_all() of the condition variable
abbrev pub notify_all : (ℕ → Pc) → ℕ → Pc
notify_all f i = notify (f i)

unfoldable pub count_down : ℤ → Latch → Latch
count_down n s =
    let left = s.count -ℤ n in
    record { count = left; pc = if is_zero left then notify_all s.pc else s.pc }

-- `while (!pred()) wait(lock)`, up to the next sleep or the return, for one thread
unfoldable pub check : ℕ → Latch → Latch
check i s = record s { pc = update s.pc i (if is_zero s.count then released else sleeping) }

pub data Step (s : Latch) : Latch → Type 0 where
  counts_down : (n : ℤ) → Step s (count_down n s)
  waits : (i : ℕ) → s.pc i ≡ outside → Step s (check i s)
  checks : (i : ℕ) → s.pc i ≡ woken → Step s (check i s)
  wakes : (i : ℕ) → s.pc i ≡ sleeping → Step s (record s { pc = update s.pc i woken })
  leaves : (i : ℕ) → s.pc i ≡ released → Step s (record s { pc = update s.pc i outside })

-- From the constructor on.
pub data Reach (first : ℤ) : Latch → Type 0 where
  constructed : Reach first (record { count = first; pc = λ _. outside })
  later : {s t : Latch} → Reach first s → Step s t → Reach first t
