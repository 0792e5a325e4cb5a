-- ===== src/Lock/UniqueLock/Behaviour.antt =====
-- Single members of `unique_lock` and of `lock_guard`, on every branch.
use roo_threads.Base.{
  ℕ, ◌≡◌, refl, ◌≢◌, ◌↔◌, ◌⊎◌, inl, inr, Bool, true, false, none, some, ◌==◌, if◌then◌else◌, ◌&&◌,
  arith, Bool-cases, Option-cases,
}
use roo_threads.Base.Family.{update}
use roo_threads.Lock.Interface.{Lockable}
use roo_threads.Lock.UniqueLock.{
  UniqueLock, State, ok, failed, empty, lock, unlock, destroy, move_assign, construct_guard,
  destroy_guard,
}
use roo_threads.Lock.UniqueLock.Ownership.{Inv}

module _ (L : Lockable) where
  open L use {held}

  -- `lock` fails its assertion exactly if the object refers to no mutex or owns one already;
  -- `unlock` exactly if it owns none.
  pub lock_unlock_failed :
      (l : ℕ) (s : State L)
      → ((lock L l s ≡ failed) ↔ (((s.objects l).lock ≡ none) ⊎ ((s.objects l).owns ≡ true)))
        × ((unlock L l s ≡ failed) ↔ ((s.objects l).owns ≡ false))
  unfolding lock unlock
  lock_unlock_failed l s =
      (((λ h. ground arith), (λ h. ground arith)), ((λ h. ground arith), (λ h. ground arith)))

  abbrev owns_this : State L → ℕ → ℕ → Bool
  owns_this s l m = elim (s.objects l).lock [
    | none ↦ false
    | some x ↦ (s.objects l).owns && (x == m)
  ]

  -- A move assignment between two objects always returns, where the invariant holds. The mutex that
  -- the target owned is unlocked and no other is touched, the target gets the value of the
  -- source, and the source is left empty. Assigned to itself an object gives its mutex back and
  -- is left empty.
  pub move_assign_lem :
      (l source : ℕ) (s : State L)
      → Inv L s
      → (t : State L) × (move_assign L l source s ≡ ok (tt, t))
        × (l ≢ source → t.objects l ≡ s.objects source)
        × (t.objects source ≡ empty)
        × ((m : ℕ) → held t.world m ≡ (if owns_this s l m then false else held s.world m))
  unfolding move_assign destroy
  move_assign_lem l source s inv = elim (Bool-cases (s.objects l).owns) [
    | inr idle ↦ (
      record s { objects = moved s.objects },
      ground arith,
      λ ne. ground arith,
      ground arith,
      λ m. ground arith,
    )
    | inl owner ↦ elim (Option-cases (s.objects l).lock) [
      | inl e ↦ absurd (inv.linked l owner e)
      | inr (x, e) ↦ (
        record {
          objects = moved (update s.objects l (record { lock = some x; owns = false }));
          world = L.unlock x s.world;
        },
        ground arith,
        λ ne. ground arith,
        ground arith,
        λ m. ground (arith, L.held-unlock x m s.world),
      )
    ]
  ]
    where
      moved : (ℕ → UniqueLock) → ℕ → UniqueLock
      moved f = update (update (update f source empty) l (f source)) source empty

  -- Where the constructor of `lock_guard` returns, its mutex was free and is locked; the destructor
  -- leaves every mutex as it was before the constructor.
  pub guard_lem :
      (m : ℕ) (s t : State L)
      → construct_guard L m s ≡ ok (tt, t)
      → (held s.world m ≡ false)
        × (held t.world m ≡ true)
        × (u : State L) × (destroy_guard L m t ≡ ok (tt, u))
        × ((x : ℕ) → held u.world x ≡ held s.world x)
  unfolding construct_guard destroy_guard
  guard_lem m s t h = elim (Option-cases (L.lock m s.world)) [
    | inl e ↦ ground arith
    | inr (w, e) ↦ (
      L.lock_free m s.world w e,
      ground (arith, L.held-lock m m s.world w),
      _,
      refl,
      λ x.
          ground (
            arith,
            L.held-lock m x s.world w,
            L.held-unlock m x t.world,
            L.lock_free m s.world w e,
          ),
    )
  ]
