-- ===== src/CppStd/Mutex.antt =====
-- impl/cppstd/mutex.h: unique_lock, whose members forward to those of the std::unique_lock in its field
-- `lock_`. `uptime` is roo_time::Uptime::Now(), as the program's state has it. The constructor
-- with a time does not compile, since it hands a roo_time::Duration on.
use roo_threads.Base.{ℕ, Bool, Option}
use roo_threads.Base.Int.{ℤ, ◌-ℤ◌}
use roo_threads.Base.Family.{update}
use roo_threads.Lock.Interface.{Lockable}
use roo_threads.Lock.UniqueLock.{UniqueLock, State, Result, ok, blocked, failed}
use roo_threads.CppStd.StdLock
use roo_threads.CppStd.StdLock.{empty, deferred, adopted}

module _ (L : Lockable) (uptime : L.World → ℤ) where
  open L use {World}

  abbrev pub M : Type 0 → Type 0
  M A = State L → Result (A × State L)

  -- `lock_` of the object at `l` gets the value that a constructor or a member gives it.
  abbrev on : ℕ → (UniqueLock → World → Result (UniqueLock × World)) → M (Unit {0})
  on l member s = elim (member (s.objects l) s.world) [
    | ok (u, w) ↦ ok (tt, record { objects = update s.objects l u; world = w })
    | blocked ↦ blocked
    | failed ↦ failed
  ]

  -- The same for a member that returns whether the mutex is owned afterwards.
  abbrev on_tried : ℕ → (UniqueLock → World → Result (UniqueLock × World)) → M Bool
  on_tried l member s = elim (member (s.objects l) s.world) [
    | ok (u, w) ↦ ok (u.owns, record { objects = update s.objects l u; world = w })
    | blocked ↦ blocked
    | failed ↦ failed
  ]

  -- The time that is left until `tp`.
  abbrev left : ℤ → World → ℤ
  left tp w = tp -ℤ uptime w

  abbrev attempt_for : ℤ → ℕ → World → World × Bool
  attempt_for duration m w = L.try_lock_for m duration w

  unfoldable pub construct : ℕ → M (Unit {0})
  construct l = on l (λ u w. ok (empty, w))

  unfoldable pub construct_locked : ℕ → ℕ → M (Unit {0})
  construct_locked l m = on l (λ u w. StdLock.lock L (deferred m) w)

  unfoldable pub construct_deferred : ℕ → ℕ → M (Unit {0})
  construct_deferred l m = on l (λ u w. ok (deferred m, w))

  unfoldable pub construct_trying : ℕ → ℕ → M (Unit {0})
  construct_trying l m = on l (λ u w. StdLock.try_with L L.try_lock (deferred m) w)

  unfoldable pub construct_adopting : ℕ → ℕ → M (Unit {0})
  construct_adopting l m = on l (λ u w. ok (adopted m, w))

  unfoldable pub construct_for : ℕ → ℕ → ℤ → M (Unit {0})
  construct_for l m duration =
      on l (λ u w. StdLock.try_with L (attempt_for duration) (deferred m) w)

  -- The new object has the value of `other`, which is left empty.
  unfoldable pub move_construct : ℕ → ℕ → M (Unit {0})
  move_construct l other s =
      ok (tt, record s { objects = update (update s.objects other empty) l (s.objects other) })

  unfoldable pub move_assign : ℕ → ℕ → M (Unit {0})
  unfolding move_construct
  move_assign l other s = elim (on l (StdLock.reset L) s) [
    | ok (_, t) ↦ move_construct l other t
    | blocked ↦ blocked
    | failed ↦ failed
  ]

  unfoldable pub destroy : ℕ → M (Unit {0})
  destroy l = on l (StdLock.reset L)

  unfoldable pub lock : ℕ → M (Unit {0})
  lock l = on l (StdLock.lock L)

  unfoldable pub try_lock : ℕ → M Bool
  try_lock l = on_tried l (StdLock.try_with L L.try_lock)

  unfoldable pub try_lock_for : ℕ → ℤ → M Bool
  try_lock_for l duration = on_tried l (StdLock.try_with L (attempt_for duration))

  unfoldable pub try_lock_until : ℕ → ℤ → M Bool
  unfolding try_lock_for
  try_lock_until l tp s = try_lock_for l (left tp s.world) s

  unfoldable pub unlock : ℕ → M (Unit {0})
  unlock l = on l (StdLock.unlock L)

  unfoldable pub swap : ℕ → ℕ → M (Unit {0})
  swap l other s =
      ok (
        tt,
        record s { objects = update (update s.objects l (s.objects other)) other (s.objects l) },
      )

  unfoldable pub release : ℕ → M (Option ℕ)
  release l s = ok ((s.objects l).lock, record s { objects = update s.objects l empty })

  unfoldable pub owns_lock : ℕ → M Bool
  owns_lock l s = ok ((s.objects l).owns, s)

  unfoldable pub mutex : ℕ → M (Option ℕ)
  mutex l s = ok ((s.objects l).lock, s)
