-- ===== src/Mutex/Eager.antt =====
-- The mutex of impl/freertos/mutex.cpp where ROO_THREADS_FREERTOS_LAZY_INITIALIZE is 0: the constructor makes
-- the semaphore, and ensureInitialized() does nothing.
use roo_threads.Base.{
  ℕ, ◌≡◌, refl, ◌⊎◌, inl, inr, Bool, true, List, [], ◌∷◌, Option, none, some, if◌then◌else◌, arith,
  Bool-cases,
}
use roo_threads.Kernel.{MutexKernel}
use roo_threads.Mutex
use roo_threads.Mutex.{Mutex, ensure_initialized}

-- A call, by the task's handle, which is none before the scheduler runs.
pub data Call : Type 0 where
  locks tries unlocks : (task : Option ℕ) → Call

-- What a call gives, and `none` for a lock() that never returns.
pub data Result : Type 0 where
  returns : Result
  tried : (got : Bool) → Result

module _ (K : MutexKernel) where
  open K use {Sem, create, take, give}

  unfoldable pub mutex : Sem → Sem
  mutex memory = create memory

  unfoldable pub lock : Option ℕ → Sem → Option Sem
  lock none s = some s
  lock (some t) s = if (take t s).1 then some (take t s).0 else none

  unfoldable pub try_lock : Option ℕ → Sem → Sem × Bool
  try_lock none s = (s, true)
  try_lock (some t) s = take t s

  unfoldable pub unlock : Option ℕ → Sem → Sem
  unlock none s = s
  unlock (some t) s = give t s

  abbrev pub returned : {A : Type 0} → Option A → Option (A × Result)
  returned none = none
  returned (some a) = some (a, returns)

  abbrev pub perform : Call → Sem → Option (Sem × Result)
  perform (locks t) s = returned (lock t s)
  perform (tries t) s = some ((try_lock t s).0, tried (try_lock t s).1)
  perform (unlocks t) s = some (unlock t s, returns)

  -- The same calls of the mutex that is initialized on first use.
  abbrev pub perform_lazy : Call → Mutex K → Option (Mutex K × Result)
  perform_lazy (locks t) m = returned (Mutex.lock K t m)
  perform_lazy (tries t) m = some ((Mutex.try_lock K t m).0, tried (Mutex.try_lock K t m).1)
  perform_lazy (unlocks t) m = some (Mutex.unlock K t m, returns)

  -- What calls in turn give, up to one that never returns.
  unfoldable pub results : List Call → Sem → List Result
  results [] s = []
  results (c ∷ cs) s = elim (perform c s) [ none ↦ [] | some (s', r) ↦ r ∷ results cs s' ]

  unfoldable pub results_lazy : List Call → Mutex K → List Result
  results_lazy [] m = []
  results_lazy (c ∷ cs) m = elim (perform_lazy c m) [
    | none ↦ []
    | some (m', r) ↦ r ∷ results_lazy cs m'
  ]

  -- The first has the semaphore of the second, or will have it when it is initialized.
  abbrev Matches : Mutex K → Sem → Type 0
  Matches m s = (ensure_initialized K m).sem ≡ s

  perform-Matches :
      (c : Call) (m : Mutex K) (s : Sem)
      → Matches m s
      → ((perform_lazy c m ≡ none) × (perform c s ≡ none))
        ⊎ ((m' : Mutex K) × (s' : Sem) × (r : Result) × (perform_lazy c m ≡ some (m', r))
            × (perform c s ≡ some (s', r))
            × Matches m' s')
  unfolding Mutex.lock Mutex.try_lock Mutex.unlock ensure_initialized lock try_lock unlock
  perform-Matches (locks none) m s h =
      inr (ensure_initialized K m, s, returns, refl, refl, ground arith)
  perform-Matches (tries none) m s h =
      inr (ensure_initialized K m, s, tried true, refl, refl, ground arith)
  perform-Matches (unlocks none) m s h =
      inr (ensure_initialized K m, s, returns, refl, refl, ground arith)
  perform-Matches (locks (some t)) m s h = elim (Bool-cases (take t s).1) [
    | inl e ↦ inr (
      record (ensure_initialized K m) { sem = (take t s).0 },
      (take t s).0,
      returns,
      ground arith,
      ground arith,
      ground arith,
    )
    | inr e ↦ inl (ground arith, ground arith)
  ]
  perform-Matches (tries (some t)) m s h = inr (
    record (ensure_initialized K m) { sem = (take t s).0 },
    (take t s).0,
    tried (take t s).1,
    ground arith,
    refl,
    ground arith,
  )
  perform-Matches (unlocks (some t)) m s h = inr (
    record (ensure_initialized K m) { sem = give t s },
    give t s,
    returns,
    ground arith,
    refl,
    ground arith,
  )

  results-results_lazy :
      (cs : List Call) (m : Mutex K) (s : Sem) → Matches m s → results_lazy cs m ≡ results cs s
  unfolding results results_lazy
  results-results_lazy [] m s h = refl
  results-results_lazy (c ∷ cs) m s h = elim (perform-Matches c m s h) [
    | inl (e, e') ↦ ground arith
    | inr (m', s', r, e, e', h') ↦ ground (arith, results-results_lazy cs m' s' h')
  ]

  -- Whatever calls of lock(), try_lock() and unlock() come in turn, before the scheduler runs and under it, a
  -- mutex that is initialized on first use gives the same results as one that the constructor
  -- initializes: the same calls return, and the same try_lock() get the mutex.
  pub lazy-eager :
      (cs : List Call) (memory : Sem)
      → results_lazy cs (Mutex.mutex K memory) ≡ results cs (mutex memory)
  unfolding Mutex.mutex mutex ensure_initialized
  lazy-eager cs memory = results-results_lazy cs _ _ refl
