-- ===== src/Mutex/System/Invariant.antt =====
-- What holds in every state of the tasks around one mutex.
use roo_threads.Base.{ℕ, ◌≡◌, refl, ◌≢◌, Bool, true, false, none, some, arith}
use roo_threads.Kernel.{MutexKernel}
use roo_threads.Mutex.System.{
  Op, try_lock, unlock, Pc, idle, owning, check, entering, recheck, creating, marking, leaving,
  ready, System, Step, call, call_unlock, is_ready, not_ready, enter, too_late, first, creates,
  marks, leaves, acquire, refuse, gives, Reach, start, later,
}

abbrev is_unlock : Op → Bool
is_unlock unlock = true
is_unlock _ = false

-- The task has the mutex, and has not given it back.
abbrev pub owns : Pc → Bool
owns idle = false
owns owning = true
owns (check op) = is_unlock op
owns (entering op) = is_unlock op
owns (recheck op) = is_unlock op
owns (creating op) = is_unlock op
owns (marking op) = is_unlock op
owns (leaving op) = is_unlock op
owns (ready op) = is_unlock op

abbrev pub in_critical : Pc → Bool
in_critical (recheck _) = true
in_critical (creating _) = true
in_critical (marking _) = true
in_critical (leaving _) = true
in_critical _ = false

-- The task is about to create the semaphore, or has just done so.
abbrev pub initializes : Pc → Bool
initializes (creating _) = true
initializes (marking _) = true
initializes _ = false

-- The task relies on the semaphore.
abbrev pub relies : Pc → Bool
relies (leaving _) = true
relies (ready _) = true
relies pc = owns pc

module _ (K : MutexKernel) where
  open K use {Sem, holder, holder-create, take_free, holder-take, holder-give}

  pub record Inv (s : System K) : Type 0 where
    pub alone : (i : ℕ) → in_critical (s.pc i) ≡ true → s.critical ≡ some i
    pub unmarked : (i : ℕ) → initializes (s.pc i) ≡ true → s.initialized ≡ false
    pub created : (i : ℕ) → relies (s.pc i) ≡ true → s.initialized ≡ true
    pub fresh : (i : ℕ) (op : Op) → s.pc i ≡ marking op → holder s.sem ≡ none
    pub held : (i : ℕ) → owns (s.pc i) ≡ true → holder s.sem ≡ some i
    pub known : (i : ℕ) → s.initialized ≡ true → holder s.sem ≡ some i → owns (s.pc i) ≡ true

  -- The task that moves, and the premises of its step, for the catch-all clauses below, which
  -- cannot name them.
  abbrev pub mover : {s t : System K} → Step K s t → ℕ
  mover (call j op e ne) = j
  mover (call_unlock j e) = j
  mover (is_ready j op e f) = j
  mover (not_ready j op e f) = j
  mover (enter j op e f) = j
  mover (too_late j op e f) = j
  mover (first j op e f) = j
  mover (creates j op e) = j
  mover (marks j op e) = j
  mover (leaves j op e) = j
  mover (acquire j op e ne f) = j
  mover (refuse j e f) = j
  mover (gives j e) = j

  abbrev pub Premise : {s t : System K} → Step K s t → Type 0
  Premise {s} (call j op e ne) = (s.pc j ≡ idle) × (op ≢ unlock)
  Premise {s} (call_unlock j e) = s.pc j ≡ owning
  Premise {s} (is_ready j op e f) = (s.pc j ≡ check op) × (s.initialized ≡ true)
  Premise {s} (not_ready j op e f) = (s.pc j ≡ check op) × (s.initialized ≡ false)
  Premise {s} (enter j op e f) = (s.pc j ≡ entering op) × (s.critical ≡ none)
  Premise {s} (too_late j op e f) = (s.pc j ≡ recheck op) × (s.initialized ≡ true)
  Premise {s} (first j op e f) = (s.pc j ≡ recheck op) × (s.initialized ≡ false)
  Premise {s} (creates j op e) = s.pc j ≡ creating op
  Premise {s} (marks j op e) = s.pc j ≡ marking op
  Premise {s} (leaves j op e) = s.pc j ≡ leaving op
  Premise {s} (acquire j op e ne f) =
      (s.pc j ≡ ready op)
      × (op ≢ unlock)
      × (holder s.sem ≡ none)
      × (holder (K.take j s.sem).0 ≡ some j)
  Premise {s} (refuse j e f) =
      (s.pc j ≡ ready try_lock) × (holder (K.take j s.sem).0 ≡ holder s.sem)
  Premise {s} (gives j e) = s.pc j ≡ ready unlock

  pub premise : {s t : System K} (step : Step K s t) → Premise step
  premise (call j op e ne) = (e, ne)
  premise (call_unlock j e) = e
  premise (is_ready j op e f) = (e, f)
  premise (not_ready j op e f) = (e, f)
  premise (enter j op e f) = (e, f)
  premise (too_late j op e f) = (e, f)
  premise (first j op e f) = (e, f)
  premise (creates j op e) = e
  premise (marks j op e) = e
  premise (leaves j op e) = e
  premise {s} (acquire j op e ne f) =
      (e, ne, take_free j s.sem f, ground (arith, holder-take j s.sem))
  premise {s} (refuse j e f) = (e, ground (arith, holder-take j s.sem))
  premise (gives j e) = e

  Step-alone :
      {s t : System K}
      → Step K s t
      → Inv s
      → (i : ℕ) → in_critical (t.pc i) ≡ true
      → t.critical ≡ some i
  Step-alone (enter j op e f) inv i h = ground (arith, inv.alone i)
  Step-alone step inv i h = ground (arith, premise step, inv.alone i, inv.alone (mover step))

  Step-unmarked :
      {s t : System K}
      → Step K s t
      → Inv s
      → (i : ℕ) → initializes (t.pc i) ≡ true
      → t.initialized ≡ false
  Step-unmarked (marks j op e) inv i h = ground (arith, inv.unmarked i, inv.alone i, inv.alone j)
  Step-unmarked step inv i h =
      ground (arith, premise step, inv.unmarked i, inv.unmarked (mover step))

  Step-created :
      {s t : System K}
      → Step K s t
      → Inv s
      → (i : ℕ) → relies (t.pc i) ≡ true
      → t.initialized ≡ true
  Step-created (marks j op e) inv i h = refl
  Step-created step inv i h = ground (arith, premise step, inv.created i, inv.created (mover step))

  Step-fresh :
      {s t : System K}
      → Step K s t
      → Inv s
      → (i : ℕ) (op : Op) → t.pc i ≡ marking op
      → holder t.sem ≡ none
  Step-fresh {s} (creates j op e) inv i op' h = holder-create s.sem
  Step-fresh {s} (acquire j op e ne f) inv i op' h = ground (arith, inv.unmarked i, inv.created j)
  Step-fresh {s} (gives j e) inv i op' h = ground (arith, inv.unmarked i, inv.created j)
  Step-fresh step inv i op h = ground (arith, premise step, inv.fresh i op)

  Step-held :
      {s t : System K} → Step K s t → Inv s → (i : ℕ) → owns (t.pc i) ≡ true → holder t.sem ≡ some i
  Step-held (creates j op e) inv i h = ground (arith, inv.unmarked j, inv.created i, inv.created j)
  Step-held {s} (gives j e) inv i h = ground (arith, inv.held i, inv.held j)
  Step-held step inv i h = ground (arith, premise step, inv.held i, inv.held (mover step))

  Step-known :
      {s t : System K}
      → Step K s t
      → Inv s
      → (i : ℕ) → t.initialized ≡ true
      → holder t.sem ≡ some i
      → owns (t.pc i) ≡ true
  Step-known {s} (creates j op e) inv i h g = ground (arith, inv.unmarked j)
  Step-known {s} (marks j op e) inv i h g = ground (arith, inv.fresh j op)
  Step-known {s} (gives j e) inv i h g = ground (arith, inv.held j, holder-give j s.sem)
  Step-known step inv i h g = ground (arith, premise step, inv.known i)

  -- Every step keeps the invariant.
  pub Step-Inv : {s t : System K} → Step K s t → Inv s → Inv t
  Step-Inv step inv = record {
    alone = Step-alone step inv;
    unmarked = Step-unmarked step inv;
    created = Step-created step inv;
    fresh = Step-fresh step inv;
    held = Step-held step inv;
    known = Step-known step inv;
  }

  pub Reach-Inv : {s : System K} → Reach K s → Inv s
  Reach-Inv (start s f c p) = record {
    alone = λ i h. ground (arith, p i);
    unmarked = λ i h. f;
    created = λ i h. ground (arith, p i);
    fresh = λ i op h. ground (arith, p i);
    held = λ i h. ground (arith, p i);
    known = λ i h g. ground arith;
  }
  Reach-Inv (later r step) = Step-Inv step (Reach-Inv r)
