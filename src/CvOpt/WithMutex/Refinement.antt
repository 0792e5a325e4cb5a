-- ===== src/CvOpt/WithMutex/Refinement.antt =====
-- Threads around one condition variable and its mutex, both in detail, run as if the mutex were nothing but its
-- owner.
use roo_threads.Base.{
  ℕ, ◌≡◌, refl, sym, ap, ◌⊎◌, inl, inr, Bool, true, false, Option, none, some, if◌then◌else◌,
}
use mathlib.Core.Path.{subst}
use roo_threads.Kernel.{TaskNotify, MutexKernel}
use roo_threads.Mutex.System as MutexSystem
use roo_threads.Mutex.System.{
  Op, lock, try_lock, unlock, idle, owning, check, entering, recheck, creating, marking, leaving,
  ready, call, call_unlock, is_ready, not_ready, enter, too_late, first, creates, marks, leaves,
  acquire, refuse, gives,
}
use roo_threads.Mutex.System.Invariant.{owns}
use roo_threads.CvOpt.System as Abstract
use roo_threads.CvOpt.System.{Pc, outside, holding, relocked}
use roo_threads.CvOpt.WithMutex.{CvPc, user, unlocking, waiting, woken, aborted, System}

-- Where a thread stands, for one who knows only if it has the mutex. In the first critical section of a wait it
-- counts as without the mutex already, since no other thread can tell.
abbrev pub pc_of : CvPc → Bool → Pc
pc_of user true = holding
pc_of user false = outside
pc_of (unlocking timed true) owned = Pc.waiting timed
pc_of (unlocking timed false) owned = Pc.aborted
pc_of (waiting timed) owned = Pc.waiting timed
pc_of (woken status) true = relocked status
pc_of (woken status) false = Pc.woken status
pc_of aborted owned = Pc.aborted

abbrev pub gives_up : CvPc → Bool
gives_up (unlocking timed queued) = true
gives_up _ = false

abbrev pub owner_of : (ℕ → CvPc) → Option ℕ → Option ℕ
owner_of cv none = none
owner_of cv (some i) = if gives_up (cv i) then none else some i

module _ (K : TaskNotify) (M : MutexKernel) where
  abbrev pub abstract : System K M → Abstract.System K
  abstract s = record {
    slots = s.slots;
    owner = owner_of s.cv (if s.mutex.initialized then M.holder s.mutex.sem else none);
    pc = λ i. pc_of (s.cv i) (owns (s.mutex.pc i));
    kernel = s.kernel;
  }

  -- States are equal that agree in each field, and for each thread.
  System-ext :
      (s t : Abstract.System K)
      → s.slots ≡ t.slots
      → s.owner ≡ t.owner
      → ((i : ℕ) → s.pc i ≡ t.pc i)
      → s.kernel ≡ t.kernel
      → s ≡ t
  System-ext s t a o p k = λ x. record { slots = a x; owner = o x; pc = λ i. p i x; kernel = k x }

  -- A step of the abstract threads, or none.
  abbrev pub Simulates : System K M → System K M → Type 0
  Simulates s t = Abstract.Step K (abstract s) (abstract t) ⊎ (abstract t ≡ abstract s)

  pub stays :
      (s t : System K M)
      → s.slots ≡ t.slots
      → s.kernel ≡ t.kernel
      → (abstract s).owner ≡ (abstract t).owner
      → ((i : ℕ) → (abstract s).pc i ≡ (abstract t).pc i)
      → Simulates s t
  stays s t a k o p = inr (sym (System-ext (abstract s) (abstract t) a o p k))

  pub goes :
      (s t : System K M) (u : Abstract.System K)
      → Abstract.Step K (abstract s) u
      → u.slots ≡ t.slots
      → u.kernel ≡ t.kernel
      → u.owner ≡ (abstract t).owner
      → ((i : ℕ) → u.pc i ≡ (abstract t).pc i)
      → Simulates s t
  goes s t u step a k o p =
      inl (subst (Abstract.Step K (abstract s)) (System-ext u (abstract t) a o p k) step)

  -- A step in the mutex that does not change who has it.
  pub mutex-stays :
      (s : System K M) (m : MutexSystem.System M)
      → (if s.mutex.initialized then M.holder s.mutex.sem else none)
        ≡ (if m.initialized then M.holder m.sem else none)
      → ((i : ℕ) → owns (s.mutex.pc i) ≡ owns (m.pc i))
      → Simulates s (record s { mutex = m })
  mutex-stays s m o p =
      stays s (record s { mutex = m }) refl refl (ap (owner_of s.cv) o)
        (λ i. ap (pc_of (s.cv i)) (p i))
