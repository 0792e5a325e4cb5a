-- ===== src/Backend/Choice.antt =====
-- The headers of namespace roo agree on one implementation.
use roo_threads.Base.{◌≡◌, ◌≢◌, ◌⊎◌, false, some, List, [], ◌∷◌, ◌||◌, if◌then◌else◌, arith}
use roo_threads.Backend.{
  Backend, cppstd, freertos, singlethreaded, Macros, is_set, resolve, Name, mutex, lock_guard,
  unique_lock, declare, lock_names, mutex_h, cv_names, condition_variable_h, thread_names, thread_h,
  semaphore_names, semaphore_h, atomic_names, atomic_h, Config, config, condition_variable_opt,
  condition_variable_classic, freertos_condition_variable,
}

-- What the compiler's command line may define: not the macros that resolve.h is there to define.
pub record IsUnresolved (m : Macros) : Type 0 where
  pub no_cppstd : m.use_cppstd ≡ false
  pub no_freertos : m.use_freertos ≡ false
  pub no_roo_testing : m.use_roo_testing ≡ false
  pub no_singlethreaded : m.use_singlethreaded ≡ false
  pub no_atomic : m.atomic_use_cppstd ≡ false

-- The implementation that the platform's macros ask for, the user's choice of a single thread first.
unfoldable pub platform : Macros → Backend
platform m =
    if m.is_singlethreaded
    then singlethreaded
    else if m.is_roo_testing
    then freertos
    else if m.esp32 || m.esp_platform
    then (if is_set m.esp32_prefer_cppstd then cppstd else freertos)
    else if m.arduino_arch_rp2040
    then freertos
    else singlethreaded

abbrev pub lock_names_of : Backend → List Name
lock_names_of singlethreaded = mutex ∷ lock_guard ∷ unique_lock ∷ []
lock_names_of _ = lock_names

abbrev pub semaphore_names_of : Backend → List Name
semaphore_names_of singlethreaded = []
semaphore_names_of _ = semaphore_names

abbrev pub atomic_backend : Backend → Backend
atomic_backend singlethreaded = singlethreaded
atomic_backend _ = cppstd

-- Whatever platform macros are defined, after resolve.h the headers of the mutex, of the condition variable, of
-- the thread, whose tests come in another order, and of the semaphore take all their names from the
-- implementation of the platform, and the atomic comes from the C++ library unless that is the one for a single thread,
-- which has no names for tags of unique_lock and no semaphore.
pub resolve_lem :
    (m : Macros)
    → IsUnresolved m
    → (mutex_h (resolve m) ≡ declare (platform m) (lock_names_of (platform m)))
      × (condition_variable_h (resolve m) ≡ declare (platform m) cv_names)
      × (thread_h (resolve m) ≡ declare (platform m) thread_names)
      × (semaphore_h (resolve m) ≡ declare (platform m) (semaphore_names_of (platform m)))
      × (atomic_h (resolve m) ≡ declare (atomic_backend (platform m)) atomic_names)
unfolding resolve platform
resolve_lem m u =
    ground (arith, u.no_cppstd, u.no_freertos, u.no_roo_testing, u.no_singlethreaded, u.no_atomic)

-- freertos::condition_variable is the classic one exactly if config.h is given the value 0 for
-- ROO_THREADS_FREERTOS_USE_OPTIMIZED_CONDITION_VARIABLE, and the optimized one for any other value and for none.
pub freertos_condition_variable_lem :
    (c : Config)
    → ((c.use_optimized_condition_variable ≡ some 0)
        × (freertos_condition_variable c ≡ condition_variable_classic))
      ⊎ ((c.use_optimized_condition_variable ≢ some 0)
          × (freertos_condition_variable c ≡ condition_variable_opt))
unfolding config
freertos_condition_variable_lem c = ground arith
