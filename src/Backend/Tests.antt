-- ===== src/Backend/Tests.antt =====
-- Tests of the headers' choice of an implementation, and its theorems for platforms that exist.
use roo_threads.Base.{◌≡◌, ◌≢◌, refl, ◌⊎◌, true, false, none, some, []}
use roo_threads.Backend.{
  cppstd, freertos, Macros, resolve, declare, lock_names, mutex_h, cv_names, condition_variable_h,
  thread_names, thread_h, semaphore_names, semaphore_h, atomic_names, atomic_h, Config,
  condition_variable_opt, condition_variable_classic, freertos_condition_variable,
}
use roo_threads.Backend.Choice.{platform, resolve_lem, freertos_condition_variable_lem}

abbrev unknown : Macros
unknown = record {
  esp32_prefer_cppstd = none;
  is_singlethreaded = false;
  is_roo_testing = false;
  esp32 = false;
  esp_platform = false;
  arduino_arch_rp2040 = false;
  use_cppstd = false;
  use_freertos = false;
  use_roo_testing = false;
  use_singlethreaded = false;
  atomic_use_cppstd = false;
}

unknown_has_no_semaphore : semaphore_h (resolve unknown) ≡ []
unfolding resolve
unknown_has_no_semaphore = refl

esp32_prefers_cppstd :
    thread_h (resolve (record unknown { esp32 = true; esp32_prefer_cppstd = some 1 }))
    ≡ declare cppstd thread_names
unfolding resolve
esp32_prefers_cppstd = refl

abbrev pico : Macros
pico = record unknown { arduino_arch_rp2040 = true }

resolve_lem_example :
    (mutex_h (resolve pico) ≡ declare freertos lock_names)
    × (condition_variable_h (resolve pico) ≡ declare freertos cv_names)
    × (thread_h (resolve pico) ≡ declare freertos thread_names)
    × (semaphore_h (resolve pico) ≡ declare freertos semaphore_names)
    × (atomic_h (resolve pico) ≡ declare cppstd atomic_names)
unfolding platform
resolve_lem_example = resolve_lem pico (record {
  no_cppstd = refl;
  no_freertos = refl;
  no_roo_testing = refl;
  no_singlethreaded = refl;
  no_atomic = refl;
})

abbrev classic : Config
classic = record {
  lazy_initialize = none;
  use_optimized_condition_variable = some 0;
  default_thread_stack_size = none;
  default_thread_priority = none;
}

freertos_condition_variable_lem_example :
    ((classic.use_optimized_condition_variable ≡ some 0)
      × (freertos_condition_variable classic ≡ condition_variable_classic))
    ⊎ ((classic.use_optimized_condition_variable ≢ some 0)
        × (freertos_condition_variable classic ≡ condition_variable_opt))
freertos_condition_variable_lem_example = freertos_condition_variable_lem classic
