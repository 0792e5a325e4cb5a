-- ===== src/Semaphore/System.antt =====
-- Threads that enter a section by acquire() or try_acquire() of one counting_semaphore of
-- impl/freertos/semaphore.h, in any of its forms, and leave it by release(), interleaved in any order.
pub mod Section
use roo_threads.Base.{ℕ, ◌≡◌, ◌<◌, ◌≤◌, true, false}
use roo_threads.Base.Family.{update}
use roo_threads.Kernel.{TokenKernel}

pub data Pc : Type 0 where
  outside inside : Pc

module _ (K : TokenKernel) where
  open K use {Sem, create, most, take, give}

  pub record System : Type 0 where
    pub sem : Sem
    pub pc : ℕ → Pc

  -- The steps of `n` threads.
  pub data Step (n : ℕ) (s : System) : System → Type 0 where
    -- acquire(), or try_acquire() in one of its forms that returns true
    acquires :
        (i : ℕ)
        → i < n
        → s.pc i ≡ outside
        → (take s.sem).1 ≡ true
        → Step n s (record { sem = (take s.sem).0; pc = update s.pc i inside })
    -- try_acquire() in one of its forms that returns false
    fails : (i : ℕ) → i < n → s.pc i ≡ outside → Step n s s
    releases :
        (i : ℕ)
        → i < n
        → s.pc i ≡ inside
        → Step n s (record { sem = give s.sem; pc = update s.pc i outside })

  -- A semaphore that is made with `desired` tokens.
  pub data Reach (n desired : ℕ) : System → Type 0 where
    start :
        (pc : ℕ → Pc)
        → desired ≤ most
        → ((i : ℕ) → pc i ≡ outside)
        → Reach n desired (record { sem = create desired; pc = pc })
    later : {s t : System} → Reach n desired s → Step n s t → Reach n desired t
