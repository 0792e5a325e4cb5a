-- ===== src/Lock/UniqueLock/Fallback.antt =====
-- unique_lock of the backend for a single thread, impl/singlethreaded/mutex.h, against the one of
-- impl/freertos/mutex.h.
use roo_threads.Base.{◌≡◌, Bool, true, false, Option, none, some, arith}
use roo_threads.Lock.Interface.{Lockable}
use roo_threads.Lock.UniqueLock
use roo_threads.Lock.UniqueLock.{State, ok, blocked, failed}
use roo_threads.Lock.UniqueLock.Raii.{
  Call, locks, unlocks, tries, destroys, constructs, releases, tries_until, tries_for,
  constructs_locked, constructs_deferred, constructs_adopting, constructs_trying, constructs_until,
  constructs_for, constructs_moved, assigns_moved, swaps, perform,
}
use roo_threads.SingleThreaded
use roo_threads.SingleThreaded.{Objects}

abbrev after : {A : Type 0} → Option (A × Objects) → Option Objects
after none = none
after (some (a, s)) = some s

-- The calls that compile for `singlethreaded::mutex`, which has no try_lock_until and no try_lock_for.
abbrev pub compiles : Call → Bool
compiles (tries_until l time) = false
compiles (tries_for l time) = false
compiles (constructs_until l m time) = false
compiles (constructs_for l m time) = false
compiles _ = true

-- A call of the backend for a single thread; nothing for a call that does not compile.
unfoldable pub perform_alone : Call → Objects → Option Objects
perform_alone (locks l) s = after (SingleThreaded.lock l s)
perform_alone (unlocks l) s = after (SingleThreaded.unlock l s)
perform_alone (tries l) s = after (SingleThreaded.try_lock l s)
perform_alone (destroys l) s = after (SingleThreaded.destroy l s)
perform_alone (constructs l) s = after (SingleThreaded.construct l s)
perform_alone (releases l) s = after (SingleThreaded.release l s)
perform_alone (constructs_locked l m) s = after (SingleThreaded.construct_locked l m s)
perform_alone (constructs_deferred l m) s = after (SingleThreaded.construct_deferred l m s)
perform_alone (constructs_adopting l m) s = after (SingleThreaded.construct_adopting l m s)
perform_alone (constructs_trying l m) s = after (SingleThreaded.construct_trying l m s)
perform_alone (constructs_moved l other) s = after (SingleThreaded.move_construct l other s)
perform_alone (assigns_moved l other) s = after (SingleThreaded.move_assign l other s)
perform_alone (swaps l other) s = after (SingleThreaded.swap l other s)
perform_alone (tries_until l time) s = none
perform_alone (tries_for l time) s = none
perform_alone (constructs_until l m time) s = none
perform_alone (constructs_for l m time) s = none

module _ (L : Lockable) where
  -- A try_lock of the call, if there is one, gets its mutex.
  abbrev pub granted : Call → State L → Bool
  granted (tries l) s = elim (s.objects l).lock [ none ↦ true | some m ↦ (L.try_lock m s.world).1 ]
  granted (constructs_trying l m) s = (L.try_lock m s.world).1
  granted _ s = true

  -- A call that compiles for both backends, that returns with the mutexes of FreeRTOS, and whose try_lock
  -- succeeds if it is one, returns in the backend for a single thread too, and does the same
  -- to every lock object.
  pub perform_alone-perform :
      (c : Call) (s t : State L)
      → compiles c ≡ true
      → granted c s ≡ true
      → perform L c s ≡ ok t
      → perform_alone c s.objects ≡ some t.objects
  unfolding UniqueLock.lock UniqueLock.unlock UniqueLock.try_lock UniqueLock.destroy
      UniqueLock.construct UniqueLock.release UniqueLock.construct_locked
      UniqueLock.construct_deferred UniqueLock.construct_adopting UniqueLock.construct_trying
      UniqueLock.move_construct UniqueLock.move_assign UniqueLock.swap perform perform_alone
      SingleThreaded.lock SingleThreaded.unlock SingleThreaded.try_lock SingleThreaded.destroy
      SingleThreaded.construct SingleThreaded.release SingleThreaded.construct_locked
      SingleThreaded.construct_deferred SingleThreaded.construct_adopting
      SingleThreaded.construct_trying SingleThreaded.move_construct SingleThreaded.move_assign
      SingleThreaded.swap
  perform_alone-perform (locks l) s t k g h = ground arith
  perform_alone-perform (unlocks l) s t k g h = ground arith
  perform_alone-perform (tries l) s t k g h = ground arith
  perform_alone-perform (destroys l) s t k g h = ground arith
  perform_alone-perform (constructs l) s t k g h = ground arith
  perform_alone-perform (releases l) s t k g h = ground arith
  perform_alone-perform (constructs_locked l m) s t k g h = ground arith
  perform_alone-perform (constructs_deferred l m) s t k g h = ground arith
  perform_alone-perform (constructs_adopting l m) s t k g h = ground arith
  perform_alone-perform (constructs_trying l m) s t k g h = ground arith
  perform_alone-perform (constructs_moved l other) s t k g h = ground arith
  perform_alone-perform (assigns_moved l other) s t k g h = ground arith
  perform_alone-perform (swaps l other) s t k g h = ground arith
  perform_alone-perform (tries_until l time) s t k g h = ground arith
  perform_alone-perform (tries_for l time) s t k g h = ground arith
  perform_alone-perform (constructs_until l m time) s t k g h = ground arith
  perform_alone-perform (constructs_for l m time) s t k g h = ground arith
