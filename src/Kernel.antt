-- ===== src/Kernel.antt =====
-- The parts of FreeRTOS that the code calls, as parameters with their documented behaviour: direct
-- task notifications. FreeRTOS is not part of the repository.
pub mod Concrete
use roo_threads.Base.{
  ℕ, ◌+◌, ◌≤◌, ◌<◌, ltb, ◌≡◌, ◌≢◌, Bool, true, false, Option, none, some, ◌==◌, if◌then◌else◌,
}

-- `xTaskNotify(task, 0, eNoAction)` marks a task's notification as pending, and leaves the other
-- tasks alone. `xTaskNotifyWait(0, 0, nullptr, delay)` returns `pdPASS` when the caller's notification is
-- pending, and clears the mark.
pub record TaskNotify : Type 1 where
  pub State : Type 0
  pub pending : State → ℕ → Bool
  pub notify : ℕ → State → State
  pub receive : ℕ → State → State
  pub pending-notify :
      (t u : ℕ) (s : State) → pending (notify t s) u ≡ (if t == u then true else pending s u)
  pub pending-receive :
      (t u : ℕ) (s : State) → pending (receive t s) u ≡ (if t == u then false else pending s u)

-- One semaphore, the clock, and the thread that uses them, as the state of the kernel. `count` is the number
-- of tokens, `capacity` the most that there can be, and `taken` how many tokens the calling
-- thread has taken so far. Other threads may run during `take`, so it tells nothing about `count`.
-- `take ticks` is `xSemaphoreTake`: it takes one token, or fails when the ticks have passed.
pub record SemaphoreKernel : Type 1 where
  pub World : Type 0
  -- `roo_time::Uptime::Now()`, in microseconds
  pub uptime : World → ℕ
  pub count : World → ℕ
  pub capacity : World → ℕ
  pub taken : World → ℕ
  pub create_counting : ℕ → ℕ → World → World
  pub create_binary : World → World
  pub take : ℕ → World → World × Bool
  pub give : World → World × Bool
  pub count-create_counting :
      (most first : ℕ) (w : World) → first ≤ most → count (create_counting most first w) ≡ first
  pub capacity-create_counting :
      (most first : ℕ) (w : World) → capacity (create_counting most first w) ≡ most
  pub count-create_binary : (w : World) → count (create_binary w) ≡ 0
  pub capacity-create_binary : (w : World) → capacity (create_binary w) ≡ 1
  pub count-give :
      (w : World) → count (give w).0 ≡ (if ltb (count w) (capacity w) then count w + 1 else count w)
  pub capacity-give : (w : World) → capacity (give w).0 ≡ capacity w
  pub taken-take :
      (ticks : ℕ) (w : World)
      → taken (take ticks w).0 ≡ (if (take ticks w).1 then taken w + 1 else taken w)
  -- The clock does not run backwards, and a wait for at least a tick that fails takes some time.
  pub uptime-take : (ticks : ℕ) (w : World) → uptime w ≤ uptime (take ticks w).0
  pub uptime-take_failed :
      (ticks : ℕ) (w : World)
      → 0 < ticks
      → (take ticks w).1 ≡ false
      → uptime w < uptime (take ticks w).0

-- A mutex of FreeRTOS, made in the memory of a `StaticSemaphore_t`. `create` is
-- `xSemaphoreCreateMutexStatic`, `take task` an attempt of `xSemaphoreTake` by a task, and `give task` is
-- `xSemaphoreGive`. A mutex knows the task that has it, if any.
pub record MutexKernel : Type 1 where
  pub Sem : Type 0
  pub holder : Sem → Option ℕ
  pub create : Sem → Sem
  pub take : ℕ → Sem → Sem × Bool
  pub give : ℕ → Sem → Sem
  pub holder-create : (s : Sem) → holder (create s) ≡ none
  pub take_free : (t : ℕ) (s : Sem) → (take t s).1 ≡ true → holder s ≡ none
  pub take_busy : (t : ℕ) (s : Sem) → (take t s).1 ≡ false → holder s ≢ none
  pub holder-take :
      (t : ℕ) (s : Sem) → holder (take t s).0 ≡ (if (take t s).1 then some t else holder s)
  pub holder-give : (t : ℕ) (s : Sem) → holder s ≡ some t → holder (give t s) ≡ none

-- A counting semaphore that many tasks use, as a value: `take` is an attempt of `xSemaphoreTake`, and
-- `give` is `xSemaphoreGive`, which does nothing to a semaphore that has all its tokens.
pub record TokenKernel : Type 1 where
  pub Sem : Type 0
  pub count : Sem → ℕ
  pub most : ℕ
  pub create : ℕ → Sem
  pub take : Sem → Sem × Bool
  pub give : Sem → Sem
  pub count-create : (first : ℕ) → first ≤ most → count (create first) ≡ first
  pub count-take : (s : Sem) → (take s).1 ≡ true → count s ≡ count (take s).0 + 1
  pub take_empty : (s : Sem) → (take s).1 ≡ false → count s ≡ 0
  pub count-give :
      (s : Sem) → count (give s) ≡ (if ltb (count s) most then count s + 1 else count s)
