-- ===== src/Lock/UniqueLock/History.antt =====
-- What holds after any history of calls on `unique_lock` objects.
use roo_threads.Base.{ℕ, ◌≡◌, inl, inr, false, arith, Bool-cases}
use roo_threads.Lock.Interface.{Lockable}
use roo_threads.Lock.UniqueLock.{State, ok}
use roo_threads.Lock.UniqueLock.Ownership.{Inv, NoLeak}
use roo_threads.Lock.UniqueLock.Raii.{
  Call, constructs_adopting, perform, Allowed, is_release, Way-Inv, Way-NoLeak, perform-Way,
  adopt-Inv, adopt-NoLeak, locks,
}

module _ (L : Lockable) where
  open L use {held}

  -- A call of any member that returns, and that runs where it is allowed to, keeps the invariant: an
  -- object that claims to own a mutex refers to one, that mutex is locked, and no other object
  -- owns it.
  pub perform-Inv :
      (c : Call) (s t : State L) → Inv L s → Allowed L c s → perform L c s ≡ ok t → Inv L t
  perform-Inv (constructs_adopting l m) s t inv a h = adopt-Inv L l m s t inv a h
  perform-Inv (locks l) s t inv a h =
      Way-Inv L (perform-Way L (locks l) s t inv a h (λ l' m e. cc)) inv
  perform-Inv c s t inv a h = Way-Inv L (perform-Way L c s t inv a h (λ l' m e. cc)) inv

  -- Such a call, if it is not `release`, leaves no mutex locked without an owner, if none was so before.
  pub perform-NoLeak :
      (c : Call) (s t : State L)
      → Inv L s
      → Allowed L c s
      → is_release L c ≡ false
      → perform L c s ≡ ok t
      → NoLeak L s
      → NoLeak L t
  perform-NoLeak (constructs_adopting l m) s t inv a f h n = adopt-NoLeak L l m s t a h n
  perform-NoLeak (locks l) s t inv a f h n =
      Way-NoLeak L (perform-Way L (locks l) s t inv a h (λ l' m e. cc)) f n
  perform-NoLeak c s t inv a f h n = Way-NoLeak L (perform-Way L c s t inv a h (λ l' m e. cc)) f n

  -- Calls in turn, each of which is allowed and returns, and none of which is `release`.
  pub data History (s : State L) : State L → Type 0 where
    begin : History s s
    call :
        {t u : State L} (c : Call)
        → History s t
        → Allowed L c t
        → is_release L c ≡ false
        → perform L c t ≡ ok u
        → History s u

  -- A program starts where no object owns a mutex and none is locked.
  abbrev pub IsClean : State L → Type 0
  IsClean s = ((l : ℕ) → (s.objects l).owns ≡ false) × ((m : ℕ) → held s.world m ≡ false)

  History-Inv : {s t : State L} → IsClean s → History s t → Inv L t × NoLeak L t
  History-Inv (idle, free) begin = (
    record {
      linked = λ l h. ground (arith, idle l);
      locked = λ l m h. ground (arith, idle l);
      single = λ l k m h h'. ground (arith, idle l);
    },
    λ m h. ground (arith, free m),
  )
  History-Inv clean (call {t} {u} c r a f h) =
      let (inv, n) = History-Inv clean r in
      (perform-Inv c t u inv a h, perform-NoLeak c t u inv a f h n)

  -- Such a history from a clean start that ends with no object an owner ends with no mutex locked:
  -- every lock that was taken has been given back.
  pub History-releases_all :
      {s t : State L}
      → IsClean s
      → History s t
      → ((l : ℕ) → (t.objects l).owns ≡ false)
      → (m : ℕ) → held t.world m ≡ false
  History-releases_all {t} clean r done m = elim (Bool-cases (held t.world m)) [
    | inr e ↦ e
    | inl e ↦ let (l, o) = (History-Inv clean r).1 m e in ground (arith, done l)
  ]
