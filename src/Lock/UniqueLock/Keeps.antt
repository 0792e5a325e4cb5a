-- ===== src/Lock/UniqueLock/Keeps.antt =====
-- The members of `unique_lock` that move values between objects lose no owner.
use roo_threads.Base.{ℕ, ◌≡◌, ◌≢◌, inl, inr, false, ◌==◌, if◌then◌else◌, arith, Bool-cases}
use roo_threads.Lock.Interface.{Lockable}
use roo_threads.Lock.UniqueLock.{
  State, ok, construct, construct_deferred, move_construct, move_assign, swap, destroy,
}
use roo_threads.Lock.UniqueLock.Ownership.{Inv, Keeps}
use roo_threads.Lock.UniqueLock.Calls.{destroy_unowned}

module _ (L : Lockable) where
  pub construct-Keeps :
      (l : ℕ) (s t : State L) (a : Unit {0})
      → (s.objects l).owns ≡ false
      → construct L l s ≡ ok (a, t)
      → Keeps L s t
  unfolding construct
  construct-Keeps l s t a fresh h j o = (j, ground arith)

  pub construct_deferred-Keeps :
      (l m : ℕ) (s t : State L) (a : Unit {0})
      → (s.objects l).owns ≡ false
      → construct_deferred L l m s ≡ ok (a, t)
      → Keeps L s t
  unfolding construct_deferred
  construct_deferred-Keeps l m s t a fresh h j o = (j, ground arith)

  pub move_construct-Keeps :
      (l source : ℕ) (s t : State L) (a : Unit {0})
      → (s.objects l).owns ≡ false
      → l ≢ source
      → move_construct L l source s ≡ ok (a, t)
      → Keeps L s t
  unfolding move_construct
  move_construct-Keeps l source s t a fresh ne h j o = elim (Bool-cases (j == source)) [
    | inl e ↦ (l, ground arith)
    | inr e ↦ (j, ground arith)
  ]

  pub swap-Keeps :
      (l other : ℕ) (s t : State L) (a : Unit {0}) → swap L l other s ≡ ok (a, t) → Keeps L s t
  unfolding swap
  swap-Keeps l other s t a h j o =
      ((if j == l then other else if j == other then l else j), ground arith)

  -- After the target is destroyed.
  pub move_assign-Keeps :
      (l source : ℕ) (s u t : State L) (a : Unit {0})
      → Inv L s
      → destroy L l s ≡ ok (tt, u)
      → move_assign L l source s ≡ ok (a, t)
      → Keeps L u t
  unfolding move_assign
  move_assign-Keeps l source s u t a inv d h j o =
      let idle = destroy_unowned L l s u tt inv d in ((if j == source then l else j), ground arith)
