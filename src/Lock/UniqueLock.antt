-- ===== src/Lock/UniqueLock.antt =====
-- `unique_lock` and `lock_guard` of impl/freertos/mutex.h, and the assertions of mutex.cpp.
pub mod Ownership
pub mod Calls
pub mod Keeps
pub mod Raii
pub mod History
pub mod Behaviour
pub mod Fallback
pub mod Agreement
mod Tests
use roo_threads.Base.{ℕ, Bool, true, false, Option, none, some, not, ◌&&◌, if◌then◌else◌}
use roo_threads.Base.Int.{ℤ}
use roo_threads.Base.Family.{update}
use roo_threads.Lock.Interface.{Lockable}

-- The fields `lock_` and `owns_`.
pub record UniqueLock : Type 0 where
  pub lock : Option ℕ
  pub owns : Bool

-- How a call ends: it returns, it never returns, or an assertion fails.
pub data Result {ℓ} (A : Type ℓ) : Type ℓ where
  ok : A → Result A
  blocked : Result A
  failed : Result A

abbrev pub empty : UniqueLock
empty = record { lock = none; owns = false }

module _ (L : Lockable) where
  open L use {World}

  -- The lock objects by their addresses, and the mutexes.
  pub record State : Type 0 where
    pub objects : ℕ → UniqueLock
    pub world : World

  abbrev pub M : Type 0 → Type 0
  M A = State → Result (A × State)

  abbrev pub pure : {A : Type 0} → A → M A
  pure a s = ok (a, s)

  infixl 5 ◌>>=◌ ◌>>◌
  abbrev pub ◌>>=◌ : {A B : Type 0} → M A → (A → M B) → M B
  ◌>>=◌ m f s = elim (m s) [ ok (a, t) ↦ f a t | blocked ↦ blocked | failed ↦ failed ]

  abbrev pub ◌>>◌ : {B : Type 0} → M (Unit {0}) → M B → M B
  m >> k = m >>= λ _. k

  abbrev get : ℕ → M UniqueLock
  get l s = ok (s.objects l, s)

  abbrev put : ℕ → UniqueLock → M (Unit {0})
  put l u s = ok (tt, record s { objects = update s.objects l u })

  abbrev assert : Bool → M (Unit {0})
  assert true s = ok (tt, s)
  assert false s = failed

  -- Calls of the mutex through `lock_`; through a null pointer they fail.
  abbrev mutex_lock : Option ℕ → M (Unit {0})
  mutex_lock none s = failed
  mutex_lock (some m) s = elim (L.lock m s.world) [
    | none ↦ blocked
    | some w ↦ ok (tt, record s { world = w })
  ]

  abbrev attempt : (ℕ → World → World × Bool) → Option ℕ → M Bool
  attempt f none s = failed
  attempt f (some m) s = ok ((f m s.world).1, record s { world = (f m s.world).0 })

  abbrev is_set : Option ℕ → Bool
  is_set none = false
  is_set (some m) = true

  pub check_lock_unowned : Option ℕ → Bool → M (Unit {0})
  check_lock_unowned lock owns = assert (is_set lock && not owns)

  pub check_lock_owned : Bool → M (Unit {0})
  check_lock_owned owns = assert owns

  -- The members, on the object at address `l`.
  pub lock : ℕ → M (Unit {0})
  unfolding check_lock_unowned
  lock l = do
    u ← get l
    check_lock_unowned u.lock u.owns
    mutex_lock u.lock
    put l (record u { owns = true })

  -- `try_lock`, `try_lock_until` and `try_lock_for` differ in the call of the mutex alone.
  pub try_with : (ℕ → World → World × Bool) → ℕ → M Bool
  unfolding check_lock_unowned
  try_with f l = do
    u ← get l
    check_lock_unowned u.lock u.owns
    b ← attempt f u.lock
    put l (record u { owns = b })
    pure b

  pub try_lock : ℕ → M Bool
  unfolding try_with
  try_lock = try_with L.try_lock

  pub try_lock_until : ℕ → ℤ → M Bool
  unfolding try_with
  try_lock_until l when = try_with (λ m. L.try_lock_until m when) l

  pub try_lock_for : ℕ → ℤ → M Bool
  unfolding try_with
  try_lock_for l duration = try_with (λ m. L.try_lock_for m duration) l

  -- `if (lock_ != nullptr) { lock_->unlock(); owns_ = false; }`
  unlock_mutex : Option ℕ → UniqueLock → M UniqueLock
  unlock_mutex none u s = ok (u, s)
  unlock_mutex (some m) u s =
      ok (record u { owns = false }, record s { world = L.unlock m s.world })

  unlock_value : UniqueLock → M UniqueLock
  unfolding check_lock_owned unlock_mutex
  unlock_value u = do check_lock_owned u.owns; unlock_mutex u.lock u

  pub unlock : ℕ → M (Unit {0})
  unfolding unlock_value
  unlock l = do u ← get l; v ← unlock_value u; put l v

  -- The destructor: of the object at `l`, and of a temporary.
  pub destroy : ℕ → M (Unit {0})
  unfolding unlock
  destroy l = do u ← get l; if u.owns then unlock l else pure tt

  destroy_temporary : UniqueLock → M (Unit {0})
  unfolding unlock_value
  destroy_temporary u = if u.owns then (unlock_value u >>= λ _. pure tt) else pure tt

  -- The constructors, for an object at `l`.
  pub construct : ℕ → M (Unit {0})
  construct l = put l empty

  pub construct_locked : ℕ → ℕ → M (Unit {0})
  unfolding lock
  construct_locked l m = do put l (record { lock = some m; owns = false }); lock l

  pub construct_deferred : ℕ → ℕ → M (Unit {0})
  construct_deferred l m = put l (record { lock = some m; owns = false })

  pub construct_adopting : ℕ → ℕ → M (Unit {0})
  construct_adopting l m = put l (record { lock = some m; owns = true })

  pub construct_with : (ℕ → World → World × Bool) → ℕ → ℕ → M (Unit {0})
  construct_with f l m = do b ← attempt f (some m); put l (record { lock = some m; owns = b })

  pub construct_trying : ℕ → ℕ → M (Unit {0})
  unfolding construct_with
  construct_trying = construct_with L.try_lock

  pub construct_until : ℕ → ℕ → ℤ → M (Unit {0})
  unfolding construct_with
  construct_until l m when = construct_with (λ x. L.try_lock_until x when) l m

  pub construct_for : ℕ → ℕ → ℤ → M (Unit {0})
  unfolding construct_with
  construct_for l m duration = construct_with (λ x. L.try_lock_for x duration) l m

  -- `unique_lock(unique_lock&& lock)`: the new value, and the source left empty.
  take : ℕ → M UniqueLock
  take source = do u ← get source; put source empty; pure u

  pub move_construct : ℕ → ℕ → M (Unit {0})
  unfolding take
  move_construct l source = do u ← take source; put l u

  -- `operator=(unique_lock&&)`: the temporary gets the old value of `*this` by the swap, and is
  -- destroyed at the end of that statement.
  pub move_assign : ℕ → ℕ → M (Unit {0})
  unfolding take destroy_temporary
  move_assign l source = do
    destroy l
    u ← take source
    old ← get l
    put l u
    destroy_temporary old
    v ← get source
    put source (record v { lock = none; owns = false })

  pub swap : ℕ → ℕ → M (Unit {0})
  swap l other = do u ← get l; v ← get other; put l v; put other u

  pub release : ℕ → M (Option ℕ)
  release l = do u ← get l; put l (record u { lock = none; owns = false }); pure u.lock

  pub owns_lock : ℕ → M Bool
  owns_lock l = do u ← get l; pure u.owns

  pub mutex : ℕ → M (Option ℕ)
  mutex l = do u ← get l; pure u.lock

  -- `lock_guard`: the constructor and the destructor, for the mutex that it refers to.
  pub construct_guard : ℕ → M (Unit {0})
  construct_guard m = mutex_lock (some m)

  pub destroy_guard : ℕ → M (Unit {0})
  destroy_guard m s = ok (tt, record s { world = L.unlock m s.world })
