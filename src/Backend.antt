-- ===== src/Backend.antt =====
-- Which implementation the names in namespace roo stand for: impl/resolve.h, impl/freertos/config.h,
-- impl/freertos/condition_variable.h, and the headers mutex.h, condition_variable.h, thread.h, semaphore.h
-- and atomic.h, as functions of the macros that are defined.
pub mod Choice
mod Tests
use roo_threads.Base.{
  ℕ, zero, suc, Bool, true, false, Option, none, some, List, [], ◌∷◌, ◌||◌, if◌then◌else◌,
}

-- The namespaces below roo_threads.
pub data Backend : Type 0 where
  cppstd : Backend
  freertos : Backend
  roo_testing : Backend
  singlethreaded : Backend

-- The macros that the headers read; a macro with a value is `none` where it is not defined.
pub record Macros : Type 0 where
  pub esp32_prefer_cppstd : Option ℕ
  pub is_singlethreaded : Bool  -- ROO_THREADS_SINGLETHREADED
  pub is_roo_testing : Bool  -- ROO_TESTING
  pub esp32 : Bool
  pub esp_platform : Bool
  pub arduino_arch_rp2040 : Bool
  pub use_cppstd : Bool
  pub use_freertos : Bool
  pub use_roo_testing : Bool
  pub use_singlethreaded : Bool
  pub atomic_use_cppstd : Bool

-- `#if` on the value of a macro
abbrev pub is_set : Option ℕ → Bool
is_set none = false
is_set (some zero) = false
is_set (some (suc _)) = true

abbrev pub or_default : ℕ → Option ℕ → Option ℕ
or_default d none = some d
or_default d (some v) = some v

-- The ladder of resolve.h, after ROO_THREADS_ESP32_PREFER_CPPSTD has its value.
abbrev pub choose : Macros → Macros
choose m =
    if m.is_singlethreaded
    then m
    else if m.is_roo_testing
    then record m { use_freertos = true; atomic_use_cppstd = true }
    else if m.esp32 || m.esp_platform
    then (if is_set m.esp32_prefer_cppstd
        then record m { use_cppstd = true; atomic_use_cppstd = true }
        else record m { use_freertos = true; atomic_use_cppstd = true })
    else if m.arduino_arch_rp2040
    then record m { use_freertos = true; atomic_use_cppstd = true }
    else record m { is_singlethreaded = true }

unfoldable pub resolve : Macros → Macros
resolve m = choose (record m { esp32_prefer_cppstd = or_default 0 m.esp32_prefer_cppstd })

-- The names that the headers declare in namespace roo, and in roo::this_thread.
pub data Name : Type 0 where
  mutex : Name
  lock_guard : Name
  unique_lock : Name
  defer_lock_t : Name
  try_to_lock_t : Name
  adopt_lock_t : Name
  defer_lock : Name
  try_to_lock : Name
  adopt_lock : Name
  cv_status : Name
  condition_variable : Name
  thread : Name
  get_id : Name
  yield : Name
  sleep_for : Name
  sleep_until : Name
  counting_semaphore : Name
  binary_semaphore : Name
  memory_order : Name
  atomic : Name

-- Each name with the namespace of what it stands for.
abbrev pub declare : Backend → List Name → List (Name × Backend)
declare b [] = []
declare b (n ∷ ns) = (n, b) ∷ declare b ns

abbrev pub lock_names : List Name
lock_names =
    mutex ∷ lock_guard ∷ unique_lock ∷ defer_lock_t ∷ try_to_lock_t ∷ adopt_lock_t ∷ defer_lock
    ∷ try_to_lock ∷ adopt_lock ∷ []

abbrev pub mutex_h : Macros → List (Name × Backend)
mutex_h m =
    if m.use_cppstd
    then declare cppstd lock_names
    else if m.use_freertos
    then declare freertos lock_names
    else if m.use_roo_testing
    then declare roo_testing lock_names
    else if m.is_singlethreaded
    then declare singlethreaded (mutex ∷ lock_guard ∷ unique_lock ∷ [])
    else []

abbrev pub cv_names : List Name
cv_names = cv_status ∷ condition_variable ∷ []

abbrev pub condition_variable_h : Macros → List (Name × Backend)
condition_variable_h m =
    if m.use_cppstd
    then declare cppstd cv_names
    else if m.use_freertos
    then declare freertos cv_names
    else if m.use_roo_testing
    then declare roo_testing cv_names
    else if m.is_singlethreaded
    then declare singlethreaded cv_names
    else []

abbrev pub thread_names : List Name
thread_names = thread ∷ get_id ∷ yield ∷ sleep_for ∷ sleep_until ∷ []

abbrev pub thread_h : Macros → List (Name × Backend)
thread_h m =
    if m.use_freertos
    then declare freertos thread_names
    else if m.use_cppstd
    then declare cppstd thread_names
    else if m.use_roo_testing
    then declare roo_testing thread_names
    else if m.is_singlethreaded
    then declare singlethreaded thread_names
    else []

abbrev pub semaphore_names : List Name
semaphore_names = counting_semaphore ∷ binary_semaphore ∷ []

abbrev pub semaphore_h : Macros → List (Name × Backend)
semaphore_h m =
    if m.use_cppstd
    then declare cppstd semaphore_names
    else if m.use_freertos
    then declare freertos semaphore_names
    else if m.use_roo_testing
    then declare roo_testing semaphore_names
    else if m.use_singlethreaded
    then declare singlethreaded semaphore_names
    else []

abbrev pub atomic_names : List Name
atomic_names = memory_order ∷ atomic ∷ []

abbrev pub atomic_h : Macros → List (Name × Backend)
atomic_h m =
    if m.atomic_use_cppstd
    then declare cppstd atomic_names
    else if m.is_singlethreaded
    then declare singlethreaded atomic_names
    else []

-- The macros of config.h.
pub record Config : Type 0 where
  pub lazy_initialize : Option ℕ
  pub use_optimized_condition_variable : Option ℕ
  pub default_thread_stack_size : Option ℕ
  pub default_thread_priority : Option ℕ

unfoldable pub config : Config → Config
config c = record {
  lazy_initialize = or_default 1 c.lazy_initialize;
  use_optimized_condition_variable = or_default 1 c.use_optimized_condition_variable;
  default_thread_stack_size = or_default 3072 c.default_thread_stack_size;
  default_thread_priority = or_default 1 c.default_thread_priority;
}

pub data CvKind : Type 0 where
  condition_variable_opt : CvKind
  condition_variable_classic : CvKind

-- What impl/freertos/condition_variable.h makes of freertos::condition_variable.
abbrev pub freertos_condition_variable : Config → CvKind
freertos_condition_variable c =
    if is_set (config c).use_optimized_condition_variable
    then condition_variable_opt
    else condition_variable_classic
