-- ===== src/Lock/UniqueLock/Calls.antt =====
-- Each member of `unique_lock`, as one of the ways of Ownership.antt.
use roo_threads.Base.{
  ℕ, ◌≡◌, refl, ◌≢◌, ◌⊎◌, inl, inr, Bool, true, false, Option, ◌||◌, ◌==◌, if◌then◌else◌, arith,
  Bool-cases, Option-cases,
}
use roo_threads.Lock.Interface.{Lockable}
use roo_threads.Lock.UniqueLock.{
  State, Result, ok, blocked, failed, lock, try_with, unlock, destroy, construct, construct_locked,
  construct_deferred, construct_with, move_construct, move_assign, swap, release,
}
use roo_threads.Lock.UniqueLock.Ownership.{Inv, Acquires, Releases, Rearranges}

pub Result-cases {ℓ} :
    {A : Type ℓ} (r : Result A) → ((a : A) × (r ≡ ok a)) ⊎ ((r ≡ blocked) ⊎ (r ≡ failed))
Result-cases (ok a) = inl (a, refl)
Result-cases blocked = inr (inl refl)
Result-cases failed = inr (inr refl)

module _ (L : Lockable) where
  open L use {World, held, held-lock, lock_free}

  pub lock-Acquires :
      (l : ℕ) (s t : State L) (a : Unit {0})
      → lock L l s ≡ ok (a, t)
      → (m : ℕ) × Acquires L s t l m true
  unfolding lock
  lock-Acquires l s t a h = elim (Option-cases (s.objects l).lock) [
    | inl e ↦ ground arith
    | inr (m, e) ↦ elim (Option-cases (L.lock m s.world)) [
      | inl e' ↦ ground arith
      | inr (w, e') ↦ (
        m,
        record {
          objects = λ k. ground arith;
          world = λ x. ground (arith, held-lock m x s.world w);
          free = λ _. lock_free m s.world w e';
          unowned = ground arith;
        },
      )
    ]
  ]

  pub unlock-Releases :
      (l : ℕ) (s t : State L) (a : Unit {0})
      → Inv L s
      → unlock L l s ≡ ok (a, t)
      → (m : ℕ) × Releases L s t l m
  unfolding unlock
  unlock-Releases l s t a inv h = elim (Option-cases (s.objects l).lock) [
    | inl e ↦ ground (arith, inv.linked l)
    | inr (m, e) ↦ (
      m,
      record {
        objects = λ k. ground arith;
        world = λ x. ground (arith, L.held-unlock m x s.world);
        owner = ground arith;
      },
    )
  ]

  -- A call of `try_lock`, `try_lock_until` or `try_lock_for` of the mutex.
  pub record IsAttempt (f : ℕ → World → World × Bool) : Type 0 where
    pub spread :
        (m x : ℕ) (w : World)
        → held (f m w).0 x ≡ (if m == x then (f m w).1 || held w x else held w x)
    pub free : (m : ℕ) (w : World) → (f m w).1 ≡ true → held w m ≡ false

  module _ {f : ℕ → World → World × Bool} (law : IsAttempt f) where
    pub try_with-Acquires :
        (l : ℕ) (s t : State L) (b : Bool)
        → try_with L f l s ≡ ok (b, t)
        → (m : ℕ) × Acquires L s t l m b
    unfolding try_with
    try_with-Acquires l s t b h = elim (Option-cases (s.objects l).lock) [
      | inl e ↦ ground arith
      | inr (m, e) ↦ (
        m,
        record {
          objects = λ k. ground arith;
          world = λ x. ground (arith, law.spread m x s.world);
          free = λ e'. ground (arith, law.free m s.world);
          unowned = ground arith;
        },
      )
    ]

    pub construct_with-Acquires :
        (l m : ℕ) (s t : State L) (a : Unit {0})
        → (s.objects l).owns ≡ false
        → construct_with L f l m s ≡ ok (a, t)
        → Acquires L s t l m (f m s.world).1
    unfolding construct_with
    construct_with-Acquires l m s t a fresh h = record {
      objects = λ k. ground arith;
      world = λ x. ground (arith, law.spread m x s.world);
      free = law.free m s.world;
      unowned = fresh;
    }

  -- The constructor that locks is the deferred one and then `lock`.
  pub construct_locked-Acquires :
      (l m : ℕ) (s t : State L) (a : Unit {0})
      → (s.objects l).owns ≡ false
      → construct_locked L l m s ≡ ok (a, t)
      → Acquires L s t l m true
  unfolding construct_locked
  construct_locked-Acquires l m s t a fresh h = elim (Option-cases (L.lock m s.world)) [
    | inl e ↦ ground arith
    | inr (w, e) ↦ record {
      objects = λ k. ground arith;
      world = λ x. ground (arith, held-lock m x s.world w);
      free = λ _. lock_free m s.world w e;
      unowned = fresh;
    }
  ]

  pub swap-Rearranges :
      (l other : ℕ) (s t : State L) (a : Unit {0})
      → swap L l other s ≡ ok (a, t)
      → Rearranges L s t (λ k. if other == k then l else if l == k then other else k)
  unfolding swap
  swap-Rearranges l other s t a h = record {
    objects = λ k o. ground arith;
    distinct = λ j k o o' e. ground arith;
    world = ground arith;
  }

  pub construct-Rearranges :
      (l : ℕ) (s t : State L) (a : Unit {0})
      → construct L l s ≡ ok (a, t)
      → Rearranges L s t (λ k. k)
  unfolding construct
  construct-Rearranges l s t a h = record {
    objects = λ k o. ground arith;
    distinct = λ j k o o' e. e;
    world = ground arith;
  }

  pub construct_deferred-Rearranges :
      (l m : ℕ) (s t : State L) (a : Unit {0})
      → construct_deferred L l m s ≡ ok (a, t)
      → Rearranges L s t (λ k. k)
  unfolding construct_deferred
  construct_deferred-Rearranges l m s t a h = record {
    objects = λ k o. ground arith;
    distinct = λ j k o o' e. e;
    world = ground arith;
  }

  pub release-Rearranges :
      (l : ℕ) (s t : State L) (a : Option ℕ) → release L l s ≡ ok (a, t) → Rearranges L s t (λ k. k)
  unfolding release
  release-Rearranges l s t a h = record {
    objects = λ k o. ground arith;
    distinct = λ j k o o' e. e;
    world = ground arith;
  }

  -- Where a moved value comes from.
  abbrev pub moved : ℕ → ℕ → ℕ → ℕ
  moved l source k = if l == k then source else k

  pub move_construct-Rearranges :
      (l source : ℕ) (s t : State L) (a : Unit {0})
      → l ≢ source
      → move_construct L l source s ≡ ok (a, t)
      → Rearranges L s t (moved l source)
  unfolding move_construct
  move_construct-Rearranges l source s t a ne h = record {
    objects = λ k o. ground arith;
    distinct = λ j k o o' e. ground arith;
    world = ground arith;
  }

  -- The destructor does nothing to an object that owns nothing, and otherwise unlocks.
  pub destroy-cases :
      (l : ℕ) (s t : State L) (a : Unit {0})
      → Inv L s
      → destroy L l s ≡ ok (a, t)
      → (((s.objects l).owns ≡ false) × (t ≡ s)) ⊎ (m : ℕ) × Releases L s t l m
  unfolding destroy
  destroy-cases l s t a inv h = elim (Bool-cases (s.objects l).owns) [
    | inr e ↦ inl (e, ground arith)
    | inl e ↦ inr (unlock-Releases l s t a inv (ground arith))
  ]

  pub destroy_unowned :
      (l : ℕ) (s t : State L) (a : Unit {0})
      → Inv L s
      → destroy L l s ≡ ok (a, t)
      → (t.objects l).owns ≡ false
  destroy_unowned l s t a inv h = elim (destroy-cases l s t a inv h) [
    | inl (o, e) ↦ ground arith
    | inr (m, r) ↦ ground (arith, r.objects l)
  ]

  -- A move assignment destroys the target's value, and then moves.
  pub move_assign-cases :
      (l source : ℕ) (s t : State L) (a : Unit {0})
      → Inv L s
      → move_assign L l source s ≡ ok (a, t)
      → (u : State L) × (destroy L l s ≡ ok (tt, u)) × Rearranges L u t (moved l source)
  unfolding move_assign
  move_assign-cases l source s t a inv h = elim (Result-cases (destroy L l s)) [
    | inr e ↦ ground arith
    | inl ((_, u), e) ↦
        let idle = destroy_unowned l s u tt inv e in
        (
          u,
          e,
          record {
            objects = λ k o. ground arith;
            distinct = λ j k o o' e'. ground arith;
            world = ground arith;
          },
        )
  ]
