-- ===== src/Lock/UniqueLock/Ownership.antt =====
-- Which `unique_lock` owns which mutex: the invariant, and the four ways in which members of the
-- class change it.
use roo_threads.Base.{
  ℕ, ◌≡◌, ◌≢◌, inl, inr, Bool, true, false, none, some, ◌||◌, ◌==◌, if◌then◌else◌, arith,
  Bool-cases,
}
use roo_threads.Base.Family.{update}
use roo_threads.Lock.Interface.{Lockable}
use roo_threads.Lock.UniqueLock.{State}

module _ (L : Lockable) where
  open L use {World, held}

  -- The object at `l` owns the mutex `m`.
  abbrev pub Owns : State L → ℕ → ℕ → Type 0
  Owns s l m = ((s.objects l).owns ≡ true) × ((s.objects l).lock ≡ some m)

  -- An object that claims to own a mutex refers to one, which is locked, and which no other object
  -- owns.
  pub record Inv (s : State L) : Type 0 where
    pub linked : (l : ℕ) → (s.objects l).owns ≡ true → (s.objects l).lock ≢ none
    pub locked : (l m : ℕ) → Owns s l m → held s.world m ≡ true
    pub single : (l k m : ℕ) → Owns s l m → Owns s k m → l ≡ k

  -- Every locked mutex has an owner, which will unlock it.
  abbrev pub NoLeak : State L → Type 0
  NoLeak s = (m : ℕ) → held s.world m ≡ true → (l : ℕ) × Owns s l m

  -- The object at `l`, which owned nothing, refers to `m` and owns it if the attempt `b` succeeded.
  pub record Acquires (s t : State L) (l m : ℕ) (b : Bool) : Type 0 where
    pub objects : (k : ℕ) → t.objects k ≡ update s.objects l (record { lock = some m; owns = b }) k
    pub world : (x : ℕ) → held t.world x ≡ (if m == x then b || held s.world x else held s.world x)
    pub free : b ≡ true → held s.world m ≡ false
    pub unowned : (s.objects l).owns ≡ false

  module _ {s t : State L} {l m : ℕ} {b : Bool} (a : Acquires s t l m b) where
    pub Acquires-Inv : Inv s → Inv t
    Acquires-Inv inv = record {
      linked = λ k h. ground (arith, a.objects k, inv.linked k);
      locked = λ k x h. ground (arith, a.objects k, a.world x, inv.locked k x);
      single = λ j k x h h'. ground (
        arith,
        a.objects j,
        a.objects k,
        a.free,
        inv.single j k x,
        inv.locked j x,
        inv.locked k x,
      );
    }

    pub Acquires-NoLeak : NoLeak s → NoLeak t
    Acquires-NoLeak covered x h = elim (Bool-cases (held s.world x)) [
      | inl old ↦ let (k, o) = covered x old in (k, ground (arith, a.objects k, a.unowned))
      | inr new ↦ (l, ground (arith, a.objects l, a.world x))
    ]

  -- The object at `l` gives its mutex back.
  pub record Releases (s t : State L) (l m : ℕ) : Type 0 where
    pub objects :
        (k : ℕ) → t.objects k ≡ update s.objects l (record { lock = some m; owns = false }) k
    pub world : (x : ℕ) → held t.world x ≡ (if m == x then false else held s.world x)
    pub owner : Owns s l m

  module _ {s t : State L} {l m : ℕ} (a : Releases s t l m) where
    pub Releases-Inv : Inv s → Inv t
    Releases-Inv inv = record {
      linked = λ k h. ground (arith, a.objects k, inv.linked k);
      locked = λ k x h.
          ground (arith, a.objects k, a.world x, inv.locked k x, inv.single l k m, a.owner);
      single = λ j k x h h'. ground (arith, a.objects j, a.objects k, inv.single j k x);
    }

    pub Releases-NoLeak : NoLeak s → NoLeak t
    Releases-NoLeak covered x h =
        let (k, o) = covered x (ground (arith, a.world x)) in
        (k, ground (arith, a.objects k, a.owner, a.world x))

  -- Objects change places, or are given up: what owns a mutex afterwards is what owned it at the
  -- place that `from` names, and no mutex is touched.
  pub record Rearranges (s t : State L) (from : ℕ → ℕ) : Type 0 where
    pub objects : (k : ℕ) → (t.objects k).owns ≡ true → t.objects k ≡ s.objects (from k)
    pub distinct :
        (j k : ℕ) → (t.objects j).owns ≡ true → (t.objects k).owns ≡ true → from j ≡ from k → j ≡ k
    pub world : t.world ≡ s.world

  -- What owned a mutex still stands somewhere.
  abbrev pub Keeps : State L → State L → Type 0
  Keeps s t = (j : ℕ) → (s.objects j).owns ≡ true → (k : ℕ) × (t.objects k ≡ s.objects j)

  module _ {s t : State L} {from : ℕ → ℕ} (a : Rearranges s t from) where
    pub Rearranges-Inv : Inv s → Inv t
    Rearranges-Inv inv = record {
      linked = λ k h. ground (arith, a.objects k, inv.linked (from k));
      locked = λ k x h. ground (arith, a.objects k, a.world, inv.locked (from k) x);
      single = λ j k x h h'.
          ground (arith, a.objects j, a.objects k, a.distinct j k, inv.single (from j) (from k) x);
    }

    pub Rearranges-NoLeak : Keeps s t → NoLeak s → NoLeak t
    Rearranges-NoLeak to covered x h =
        let (j, o) = covered x (ground (arith, a.world)) in
        let (k, e) = to j o.0 in (k, ground arith)
