-- ===== src/SingleThreaded.antt =====
-- The backend for a single thread: impl/singlethreaded/mutex.h here, and its other headers in the
-- modules below.
pub mod Waiting
pub mod Values
mod Tests
use roo_threads.Base.{ℕ, ◌≡◌, refl, Bool, true, false, Option, none, some, if◌then◌else◌, arith}
use roo_threads.Base.Int.{ℤ}
use roo_threads.Base.Family.{update}
use roo_threads.Lock.UniqueLock.{UniqueLock, empty}

-- `mutex` has no state. The lock objects have the fields of the other backend's, by their
-- addresses; a call gives nothing where it reads through a null pointer.
abbrev pub Objects : Type 0
Objects = ℕ → UniqueLock

abbrev pub M : Type 0 → Type 0
M A = Objects → Option (A × Objects)

abbrev pub pure : {A : Type 0} → A → M A
pure a s = some (a, s)

infixl 5 ◌>>=◌ ◌>>◌
abbrev pub ◌>>=◌ : {A B : Type 0} → M A → (A → M B) → M B
◌>>=◌ m f s = elim (m s) [ some (a, t) ↦ f a t | none ↦ none ]

abbrev pub ◌>>◌ : {B : Type 0} → M (Unit {0}) → M B → M B
m >> k = m >>= λ _. k

abbrev get : ℕ → M UniqueLock
get l s = some (s l, s)

abbrev put : ℕ → UniqueLock → M (Unit {0})
put l u s = some (tt, update s l u)

-- `void lock() {}`, `bool try_lock() { return true; }` and `void unlock() {}`, through `lock_`
abbrev mutex_lock : Option ℕ → M (Unit {0})
mutex_lock none s = none
mutex_lock (some m) s = some (tt, s)

abbrev mutex_try_lock : Option ℕ → M Bool
mutex_try_lock none s = none
mutex_try_lock (some m) s = some (true, s)

unfoldable pub lock : ℕ → M (Unit {0})
lock l = do u ← get l; mutex_lock u.lock; put l (record u { owns = true })

unfoldable pub try_lock : ℕ → M Bool
try_lock l = do u ← get l; b ← mutex_try_lock u.lock; put l (record u { owns = b }); pure b

-- The members with a time are for a type of mutex that has try_lock_until() or try_lock_for(), which
-- `mutex` has not; `attempt` is what this member of the caller's type returns.
module _ (attempt : ℕ → ℤ → Bool) where
  abbrev mutex_attempt : Option ℕ → ℤ → M Bool
  mutex_attempt none time s = none
  mutex_attempt (some m) time s = some (attempt m time, s)

  -- the constructors with a time or a duration
  unfoldable pub construct_attempting : ℕ → ℕ → ℤ → M (Unit {0})
  construct_attempting l m time = do
    b ← mutex_attempt (some m) time
    put l (record { lock = some m; owns = b })

  -- try_lock_until and try_lock_for
  unfoldable pub try_lock_attempting : ℕ → ℤ → M Bool
  try_lock_attempting l time = do
    u ← get l
    b ← mutex_attempt u.lock time
    put l (record u { owns = b })
    pure b

-- `if (lock_ != nullptr) { lock_->unlock(); owns_ = false; }`
abbrev pub unlocked : UniqueLock → UniqueLock
unlocked u = record u { owns = elim u.lock [ none ↦ u.owns | some m ↦ false ] }

unfoldable pub unlock : ℕ → M (Unit {0})
unlock l = do u ← get l; put l (unlocked u)

unfoldable pub destroy : ℕ → M (Unit {0})
unfolding unlock
destroy l = do u ← get l; if u.owns then unlock l else pure tt

unfoldable pub construct : ℕ → M (Unit {0})
construct l = put l empty

unfoldable pub construct_locked : ℕ → ℕ → M (Unit {0})
unfolding lock
construct_locked l m = do put l (record { lock = some m; owns = false }); lock l

unfoldable pub construct_deferred : ℕ → ℕ → M (Unit {0})
construct_deferred l m = put l (record { lock = some m; owns = false })

unfoldable pub construct_adopting : ℕ → ℕ → M (Unit {0})
construct_adopting l m = put l (record { lock = some m; owns = true })

unfoldable pub construct_trying : ℕ → ℕ → M (Unit {0})
construct_trying l m = do b ← mutex_try_lock (some m); put l (record { lock = some m; owns = b })

take : ℕ → M UniqueLock
take source = do u ← get source; put source empty; pure u

unfoldable pub move_construct : ℕ → ℕ → M (Unit {0})
unfolding take
move_construct l source = do u ← take source; put l u

-- `unique_lock(roo::move(lock)).swap(*this)`: the temporary, which has the old value of `*this`, is
-- destroyed, which changes no other object.
unfoldable pub move_assign : ℕ → ℕ → M (Unit {0})
unfolding destroy take
move_assign l source = do
  destroy l
  u ← take source
  put l u
  v ← get source
  put source (record v { lock = none; owns = false })

unfoldable pub swap : ℕ → ℕ → M (Unit {0})
swap l other = do u ← get l; v ← get other; put l v; put other u

unfoldable pub release : ℕ → M (Option ℕ)
release l = do u ← get l; put l (record u { lock = none; owns = false }); pure u.lock

unfoldable pub owns_lock : ℕ → M Bool
owns_lock l = do u ← get l; pure u.owns

unfoldable pub mutex : ℕ → M (Option ℕ)
mutex l = do u ← get l; pure u.lock

-- `unlock()` of a mutex
abbrev pub mutex_unlock : ℕ → M (Unit {0})
mutex_unlock m = pure tt

-- A lock_guard keeps no reference to its mutex: its constructor, and its implicit destructor.
unfoldable pub lock_guard : ℕ → M (Unit {0})
lock_guard m = pure tt

unfoldable pub destroy_guard : M (Unit {0})
destroy_guard = pure tt

-- A section under a lock_guard runs as between the lock() and the unlock() of its mutex.
pub lock_guard_lem :
    {A : Type 0} (m : ℕ) (section : M A)
    → (lock_guard m >> (section >>= λ a. destroy_guard >> pure a))
      ≡ (mutex_lock (some m) >> (section >>= λ a. mutex_unlock m >> pure a))
unfolding lock_guard destroy_guard
lock_guard_lem m section = refl

-- After any timed attempt the lock object owns its mutex exactly if the attempt has returned true,
-- and owns_lock() and mutex() say so; the attempt gives nothing exactly where there is no mutex.
pub try_lock_attempting-owns_lock :
    (attempt : ℕ → ℤ → Bool) (l : ℕ) (time : ℤ) (s : Objects)
    → ((try_lock_attempting attempt l time >>= λ b. owns_lock l) s
        ≡ try_lock_attempting attempt l time s)
      × ((try_lock_attempting attempt l time >>= λ b. mutex l) s ≡ elim (s l).lock [
        | none ↦ none
        | some m ↦ some (some m, update s l (record { lock = some m; owns = attempt m time }))
      ])
unfolding try_lock_attempting owns_lock mutex
try_lock_attempting-owns_lock attempt l time s = ground arith
