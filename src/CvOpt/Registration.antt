-- ===== src/CvOpt/Registration.antt =====
-- How a task enters the table of condition_variable_opt.cpp, and leaves it after a wait.
use roo_threads.Base.{
  ℕ, zero, suc, ◌<◌, ◌≡◌, refl, ◌⊎◌, inl, inr, true, false, [], ◌∷◌, none, some, get_elem?, set,
  length, arith,
}
use roo_threads.CvOpt.{Slots, enqueue, dequeue}
use roo_threads.CvOpt.Choice.{Holds}
use roo_threads.CvOpt.Count.{count, Holds-count}

-- The first `n` slots are taken.
abbrev pub IsTaken : Slots → ℕ → Type 0
IsTaken ts n = (j : ℕ) → j < n → (t : ℕ) × Holds ts j t

IsTaken-cons : (t : ℕ) (ts : Slots) (n : ℕ) → IsTaken ts n → IsTaken (some t ∷ ts) (suc n)
IsTaken-cons t ts n all zero h = (t, refl)
IsTaken-cons t ts n all (suc j) h = all j (omega arith)

-- A task that starts to wait is not queued, and the table stays as it is, exactly if every slot is
-- taken. Otherwise it goes into the first slot that is null, and the other slots stay.
pub enqueue_lem :
    (me : ℕ) (ts : Slots)
    → ((enqueue me ts ≡ (ts, false)) × IsTaken ts (length ts))
      ⊎ (i : ℕ) × (enqueue me ts ≡ (set ts i (some me), true))
        × (get_elem? ts i ≡ some none)
        × IsTaken ts i
unfolding enqueue
enqueue_lem me [] = inl (refl, λ j h. absurd (omega arith))
enqueue_lem me (none ∷ ts) = inr (zero, refl, refl, λ j h. absurd (omega arith))
enqueue_lem me (some t ∷ ts) = elim (enqueue_lem me ts) [
  | inl (e, all) ↦ inl (ground arith, IsTaken-cons t ts (length ts) all)
  | inr (i, e, free, all) ↦ inr (suc i, ground arith, free, IsTaken-cons t ts i all)
]

dequeue_absent : (me : ℕ) (us : Slots) → count me us ≡ 0 → dequeue me us ≡ us
unfolding dequeue count
dequeue_absent me [] h = refl
dequeue_absent me (none ∷ us) h = ground (arith, dequeue_absent me us)
dequeue_absent me (some t ∷ us) h = ground (arith, dequeue_absent me us)

dequeue_held :
    (me i : ℕ) (us : Slots) → Holds us i me → count me us ≡ 1 → dequeue me us ≡ set us i none
unfolding dequeue count
dequeue_held me i [] h c = cc
dequeue_held me zero (none ∷ us) h c = cc
dequeue_held me (suc i) (none ∷ us) h c = ground (arith, dequeue_held me i us)
dequeue_held me zero (some t ∷ us) h c = ground arith
dequeue_held me (suc i) (some t ∷ us) h c =
    ground (arith, dequeue_held me i us, Holds-count us i me)

dequeue_at_once : (me : ℕ) (ts : Slots) → count me ts ≡ 0 → dequeue me (enqueue me ts).0 ≡ ts
unfolding enqueue dequeue count
dequeue_at_once me [] h = refl
dequeue_at_once me (none ∷ ts) h = ground arith
dequeue_at_once me (some t ∷ ts) h = ground (arith, dequeue_at_once me ts)

-- Round trip of a wait by a task that is not in the table, whatever happens to the table in between. The first loop
-- finds no slot and changes nothing, or it writes the task into a slot that was null. Then the
-- last loop, on any table that still holds the task in this slot and nowhere else, empties this slot and
-- changes no other; on any table that does not hold the task any more it changes nothing; and where nothing
-- has happened in between, the table is again as before the wait.
pub dequeue-enqueue :
    (me : ℕ) (ts : Slots)
    → count me ts ≡ 0
    → ((enqueue me ts ≡ (ts, false))
        ⊎ (i : ℕ) × (enqueue me ts ≡ (set ts i (some me), true))
          × (get_elem? ts i ≡ some none)
          × ((us : Slots) → Holds us i me → count me us ≡ 1 → dequeue me us ≡ set us i none))
      × ((us : Slots) → count me us ≡ 0 → dequeue me us ≡ us)
      × (dequeue me (enqueue me ts).0 ≡ ts)
dequeue-enqueue me ts h = (
  elim (enqueue_lem me ts) [
    | inl (e, all) ↦ inl e
    | inr (i, e, free, all) ↦ inr (i, e, free, dequeue_held me i)
  ],
  dequeue_absent me,
  dequeue_at_once me ts h,
)
