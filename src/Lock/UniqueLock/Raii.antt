-- ===== src/Lock/UniqueLock/Raii.antt =====
-- Histories of calls on `unique_lock` objects.
use roo_threads.Base.{ℕ, ◌≡◌, refl, ◌≢◌, inl, inr, Bool, true, false, arith}
use mathlib.Core.Path.{subst, sym}
use roo_threads.Base.Int.{ℤ}
use roo_threads.Lock.Interface.{Lockable}
use roo_threads.Lock.UniqueLock.{
  State, Result, ok, blocked, failed, lock, try_lock, try_lock_until, try_lock_for, unlock, destroy,
  construct, construct_locked, construct_deferred, construct_adopting, construct_trying,
  construct_until, construct_for, move_construct, move_assign, swap, release,
}
use roo_threads.Lock.UniqueLock.Ownership.{
  Owns, Inv, NoLeak, Acquires, Releases, Rearranges, Keeps, Acquires-Inv, Acquires-NoLeak,
  Releases-Inv, Releases-NoLeak, Rearranges-Inv, Rearranges-NoLeak,
}
use roo_threads.Lock.UniqueLock.Keeps.{
  construct-Keeps, construct_deferred-Keeps, move_construct-Keeps, swap-Keeps, move_assign-Keeps,
}
use roo_threads.Lock.UniqueLock.Calls.{
  lock-Acquires, unlock-Releases, IsAttempt, try_with-Acquires, construct_with-Acquires,
  construct_locked-Acquires, swap-Rearranges, construct-Rearranges, construct_deferred-Rearranges,
  release-Rearranges, move_construct-Rearranges, destroy-cases, move_assign-cases,
}

-- One call of a member, on the object at `l`.
pub data Call : Type 0 where
  locks unlocks tries destroys constructs releases : (l : ℕ) → Call
  tries_until tries_for : (l : ℕ) (time : ℤ) → Call
  constructs_locked constructs_deferred constructs_adopting constructs_trying : (l m : ℕ) → Call
  constructs_until constructs_for : (l m : ℕ) (time : ℤ) → Call
  constructs_moved assigns_moved swaps : (l other : ℕ) → Call

module _ (L : Lockable) where
  open L use {World, held}

  -- The state after a call that returns; what it returns is dropped.
  abbrev pub after {ℓ} : {A : Type ℓ} → Result (A × State L) → Result (State L)
  after (ok (a, s)) = ok s
  after blocked = blocked
  after failed = failed

  unfoldable pub perform : Call → State L → Result (State L)
  perform (locks l) s = after (lock L l s)
  perform (unlocks l) s = after (unlock L l s)
  perform (tries l) s = after (try_lock L l s)
  perform (tries_until l time) s = after (try_lock_until L l time s)
  perform (tries_for l time) s = after (try_lock_for L l time s)
  perform (destroys l) s = after (destroy L l s)
  perform (constructs l) s = after (construct L l s)
  perform (constructs_locked l m) s = after (construct_locked L l m s)
  perform (constructs_deferred l m) s = after (construct_deferred L l m s)
  perform (constructs_adopting l m) s = after (construct_adopting L l m s)
  perform (constructs_trying l m) s = after (construct_trying L l m s)
  perform (constructs_until l m time) s = after (construct_until L l m time s)
  perform (constructs_for l m time) s = after (construct_for L l m time s)
  perform (constructs_moved l other) s = after (move_construct L l other s)
  perform (assigns_moved l other) s = after (move_assign L l other s)
  perform (swaps l other) s = after (swap L l other s)
  perform (releases l) s = after (release L l s)

  -- No live object that owns a mutex stands where a constructor runs; a constructor does not move
  -- from its own object; and an adopted mutex is locked, on behalf of no object.
  abbrev pub Allowed : Call → State L → Type 0
  Allowed (constructs l) s = (s.objects l).owns ≡ false
  Allowed (constructs_locked l m) s = (s.objects l).owns ≡ false
  Allowed (constructs_deferred l m) s = (s.objects l).owns ≡ false
  Allowed (constructs_adopting l m) s =
      ((s.objects l).owns ≡ false) × (held s.world m ≡ true) × ((k : ℕ) → ¬ Owns L s k m)
  Allowed (constructs_trying l m) s = (s.objects l).owns ≡ false
  Allowed (constructs_until l m time) s = (s.objects l).owns ≡ false
  Allowed (constructs_for l m time) s = (s.objects l).owns ≡ false
  Allowed (constructs_moved l other) s = ((s.objects l).owns ≡ false) × (l ≢ other)
  Allowed _ s = Unit

  abbrev pub is_release : Call → Bool
  is_release (releases l) = true
  is_release _ = false

  -- In what way a call changes the state; only a lossy one may forget an owner.
  pub data Way (lossy : Bool) : State L → State L → Type 0 where
    same : (s t : State L) → t ≡ s → Way lossy s t
    acquires : (s t : State L) (l m : ℕ) (b : Bool) → Acquires L s t l m b → Way lossy s t
    gives_back : (s t : State L) (l m : ℕ) → Releases L s t l m → Way lossy s t
    both : (s u t : State L) → Way lossy s u → Way lossy u t → Way lossy s t
    rearranges :
        (s t : State L) (from : ℕ → ℕ) → Rearranges L s t from → Keeps L s t → Way lossy s t
    gives_up : (s t : State L) (from : ℕ → ℕ) → lossy ≡ true → Rearranges L s t from → Way lossy s t

  pub Way-Inv : {lossy : Bool} {s t : State L} → Way lossy s t → Inv L s → Inv L t
  Way-Inv (same s t e) inv = subst (Inv L) (sym e) inv
  Way-Inv (acquires s t l m b a) inv = Acquires-Inv L a inv
  Way-Inv (gives_back s t l m a) inv = Releases-Inv L a inv
  Way-Inv (both s u t a b) inv = Way-Inv b (Way-Inv a inv)
  Way-Inv (rearranges s t from a k) inv = Rearranges-Inv L a inv
  Way-Inv (gives_up s t from e a) inv = Rearranges-Inv L a inv

  pub Way-NoLeak :
      {lossy : Bool} {s t : State L} → Way lossy s t → lossy ≡ false → NoLeak L s → NoLeak L t
  Way-NoLeak (same s t e) f n = subst (NoLeak L) (sym e) n
  Way-NoLeak (acquires s t l m b a) f n = Acquires-NoLeak L a n
  Way-NoLeak (gives_back s t l m a) f n = Releases-NoLeak L a n
  Way-NoLeak (both s u t a b) f n = Way-NoLeak b f (Way-NoLeak a f n)
  Way-NoLeak (rearranges s t from a k) f n = Rearranges-NoLeak L a k n
  Way-NoLeak (gives_up s t from e a) f n = cc

  until-IsAttempt : (time : ℤ) → IsAttempt L (λ m. L.try_lock_until m time)
  until-IsAttempt time = record {
    spread = λ m x w. L.held-try_lock_until m x time w;
    free = λ m w. L.try_lock_until_free m time w;
  }

  for-IsAttempt : (time : ℤ) → IsAttempt L (λ m. L.try_lock_for m time)
  for-IsAttempt time = record {
    spread = λ m x w. L.held-try_lock_for m x time w;
    free = λ m w. L.try_lock_for_free m time w;
  }

  try-IsAttempt : IsAttempt L L.try_lock
  try-IsAttempt = record { spread = L.held-try_lock; free = L.try_lock_free }

  after-ok :
      {A : Type 0} (r : Result (A × State L)) (t : State L)
      → after r ≡ ok t
      → (a : A) × (r ≡ ok (a, t))
  after-ok (ok (a, s)) t h = (a, ground arith)
  after-ok blocked t h = cc
  after-ok failed t h = cc

  destroy-Way :
      (l : ℕ) (s t : State L) (a : Unit {0}) → Inv L s → destroy L l s ≡ ok (a, t) → Way false s t
  destroy-Way l s t a inv e = elim (destroy-cases L l s t a inv e) [
    | inl (_, same') ↦ same s t same'
    | inr (m, r) ↦ gives_back s t l m r
  ]

  pub perform-Way :
      (c : Call) (s t : State L)
      → Inv L s
      → Allowed c s
      → perform c s ≡ ok t
      → ((l m : ℕ) → c ≢ constructs_adopting l m)
      → Way (is_release c) s t
  unfolding perform try_lock try_lock_until try_lock_for construct_trying construct_until
      construct_for
  perform-Way (locks l) s t inv ok' h na =
      let (a, e) = after-ok (lock L l s) t h in
      let (m, w) = lock-Acquires L l s t a e in acquires s t l m true w
  perform-Way (unlocks l) s t inv ok' h na =
      let (a, e) = after-ok (unlock L l s) t h in
      let (m, w) = unlock-Releases L l s t a inv e in gives_back s t l m w
  perform-Way (tries l) s t inv ok' h na =
      let (b, e) = after-ok (try_lock L l s) t h in
      let (m, w) = try_with-Acquires L try-IsAttempt l s t b e in acquires s t l m b w
  perform-Way (tries_until l time) s t inv ok' h na =
      let (b, e) = after-ok (try_lock_until L l time s) t h in
      let (m, w) = try_with-Acquires L (until-IsAttempt time) l s t b e in acquires s t l m b w
  perform-Way (tries_for l time) s t inv ok' h na =
      let (b, e) = after-ok (try_lock_for L l time s) t h in
      let (m, w) = try_with-Acquires L (for-IsAttempt time) l s t b e in acquires s t l m b w
  perform-Way (destroys l) s t inv ok' h na =
      let (a, e) = after-ok (destroy L l s) t h in destroy-Way l s t a inv e
  perform-Way (constructs l) s t inv ok' h na =
      let (a, e) = after-ok (construct L l s) t h in
      rearranges s t (λ k. k) (construct-Rearranges L l s t a e) (construct-Keeps L l s t a ok' e)
  perform-Way (constructs_locked l m) s t inv ok' h na =
      let (a, e) = after-ok (construct_locked L l m s) t h in
      acquires s t l m true (construct_locked-Acquires L l m s t a ok' e)
  perform-Way (constructs_deferred l m) s t inv ok' h na =
      let (a, e) = after-ok (construct_deferred L l m s) t h in
      rearranges s t (λ k. k) (construct_deferred-Rearranges L l m s t a e)
        (construct_deferred-Keeps L l m s t a ok' e)
  perform-Way (constructs_adopting l m) s t inv ok' h na = absurd (na l m refl)
  perform-Way (constructs_trying l m) s t inv ok' h na =
      let (a, e) = after-ok (construct_trying L l m s) t h in
      acquires s t l m _ (construct_with-Acquires L try-IsAttempt l m s t a ok' e)
  perform-Way (constructs_until l m time) s t inv ok' h na =
      let (a, e) = after-ok (construct_until L l m time s) t h in
      acquires s t l m _ (construct_with-Acquires L (until-IsAttempt time) l m s t a ok' e)
  perform-Way (constructs_for l m time) s t inv ok' h na =
      let (a, e) = after-ok (construct_for L l m time s) t h in
      acquires s t l m _ (construct_with-Acquires L (for-IsAttempt time) l m s t a ok' e)
  perform-Way (constructs_moved l other) s t inv ok' h na =
      let (a, e) = after-ok (move_construct L l other s) t h in
      rearranges s t _ (move_construct-Rearranges L l other s t a ok'.1 e)
        (move_construct-Keeps L l other s t a ok'.0 ok'.1 e)
  perform-Way (assigns_moved l other) s t inv ok' h na =
      let (a, e) = after-ok (move_assign L l other s) t h in
      let (u, d, w) = move_assign-cases L l other s t a inv e in
      both s u t (destroy-Way l s u tt inv d)
        (rearranges u t _ w (move_assign-Keeps L l other s u t a inv d e))
  perform-Way (swaps l other) s t inv ok' h na =
      let (a, e) = after-ok (swap L l other s) t h in
      rearranges s t _ (swap-Rearranges L l other s t a e) (swap-Keeps L l other s t a e)
  perform-Way (releases l) s t inv ok' h na =
      let (a, e) = after-ok (release L l s) t h in
      gives_up s t (λ k. k) refl (release-Rearranges L l s t a e)

  pub adopt-Inv :
      (l m : ℕ) (s t : State L)
      → Inv L s
      → Allowed (constructs_adopting l m) s
      → perform (constructs_adopting l m) s ≡ ok t
      → Inv L t
  unfolding perform construct_adopting
  adopt-Inv l m s t inv (fresh, locked, alone) h = record {
    linked = λ k o. ground (arith, inv.linked k);
    locked = λ k x o. ground (arith, inv.locked k x);
    single = λ j k x o o'. ground (arith, inv.single j k x, alone j, alone k);
  }

  pub adopt-NoLeak :
      (l m : ℕ) (s t : State L)
      → Allowed (constructs_adopting l m) s
      → perform (constructs_adopting l m) s ≡ ok t
      → NoLeak L s
      → NoLeak L t
  unfolding perform construct_adopting
  adopt-NoLeak l m s t (fresh, locked, alone) h n x e =
      let (k, o) = n x (ground arith) in (k, ground arith)
