-- ===== src/Kernel/Concrete.antt =====
-- Small kernels that the tests run the code on: concrete functions for the parameters of Kernel.
use roo_threads.Base.{
  ℕ, zero, suc, ◌+◌, ◌≡◌, ◌≢◌, refl, Bool, true, false, Option, none, some, ◌==◌, ltb,
  if◌then◌else◌, arith,
}
use roo_threads.Base.Family.{update}
use roo_threads.Kernel.{TaskNotify, TokenKernel, MutexKernel}

-- Notifications as one flag for each task.
abbrev pub flags : TaskNotify
flags = record {
  State = ℕ → Bool;
  pending = λ s. s;
  notify = λ t s. update s t true;
  receive = λ t s. update s t false;
  pending-notify = λ t u s. refl;
  pending-receive = λ t u s. refl;
}

-- A semaphore is its number of tokens.
abbrev pub take_one : ℕ → ℕ × Bool
take_one zero = (0, false)
take_one (suc n) = (n, true)

abbrev pub give_one : ℕ → ℕ
give_one n = if ltb n 1024 then n + 1 else n

pub take_one_lem : (n : ℕ) → (take_one n).1 ≡ true → n ≡ (take_one n).0 + 1
take_one_lem n h = ground arith

pub take_empty_lem : (n : ℕ) → (take_one n).1 ≡ false → n ≡ 0
take_empty_lem n h = ground arith

abbrev pub tokens : TokenKernel
tokens = record {
  Sem = ℕ;
  count = λ n. n;
  most = 1024;
  create = λ n. n;
  take = take_one;
  give = give_one;
  count-create = λ n h. refl;
  count-take = take_one_lem;
  take_empty = take_empty_lem;
  count-give = λ n. refl;
}

-- The memory of a mutex is its holder.
abbrev pub holder_take : ℕ → Option ℕ → Option ℕ × Bool
holder_take t none = (some t, true)
holder_take t (some u) = (some u, false)

abbrev pub holder_give : ℕ → Option ℕ → Option ℕ
holder_give t none = none
holder_give t (some u) = if u == t then none else some u

pub holder_free_lem : (t : ℕ) (s : Option ℕ) → (holder_take t s).1 ≡ true → s ≡ none
holder_free_lem t s h = ground arith

pub holder_busy_lem : (t : ℕ) (s : Option ℕ) → (holder_take t s).1 ≡ false → s ≢ none
holder_busy_lem t s h = ground arith

pub holder_take_lem :
    (t : ℕ) (s : Option ℕ) → (holder_take t s).0 ≡ (if (holder_take t s).1 then some t else s)
holder_take_lem t none = refl
holder_take_lem t (some u) = refl

pub holder_give_lem : (t : ℕ) (s : Option ℕ) → s ≡ some t → holder_give t s ≡ none
holder_give_lem t s h = ground arith

abbrev pub holders : MutexKernel
holders = record {
  Sem = Option ℕ;
  holder = λ s. s;
  create = λ s. none;
  take = holder_take;
  give = holder_give;
  holder-create = λ s. refl;
  take_free = holder_free_lem;
  take_busy = holder_busy_lem;
  holder-take = holder_take_lem;
  holder-give = holder_give_lem;
}
