-- ===== src/CvOpt/Count.antt =====
-- How often each task stands in the table of condition_variable_opt.cpp, under each loop.
use roo_threads.Base.{
  ℕ, zero, suc, ◌+◌, ◌-◌, ◌<◌, ◌≡◌, refl, inl, inr, List, [], ◌∷◌, Option, none, some, Bool, ◌==◌,
  if◌then◌else◌, set, arith, Bool-cases,
}
use roo_threads.CvOpt.{Slots, condition_variable_opt, enqueue, dequeue, notify_one, notify_all}
use roo_threads.CvOpt.Choice.{Holds, notify_one-IsChoice}

abbrev pub one_if : Bool → ℕ
one_if b = if b then 1 else 0

unfoldable pub count : ℕ → Slots → ℕ
count t [] = 0
count t (none ∷ ts) = count t ts
count t (some u ∷ ts) = one_if (u == t) + count t ts

pub count-condition_variable_opt : (t : ℕ) (ts : Slots) → count t (condition_variable_opt ts) ≡ 0
unfolding count condition_variable_opt
count-condition_variable_opt t [] = refl
count-condition_variable_opt t (slot ∷ ts) = count-condition_variable_opt t ts

pub count-enqueue :
    (t me : ℕ) (ts : Slots)
    → count t (enqueue me ts).0 ≡ count t ts + (if (enqueue me ts).1 then one_if (me == t) else 0)
unfolding count enqueue
count-enqueue t me [] = refl
count-enqueue t me (none ∷ ts) = omega arith
count-enqueue t me (some u ∷ ts) = ground (arith, count-enqueue t me ts)

pub count-dequeue :
    (t me : ℕ) (ts : Slots)
    → count t (dequeue me ts) ≡ (if me == t then count t ts - 1 else count t ts)
unfolding count dequeue
count-dequeue t me [] = ground arith
count-dequeue t me (none ∷ ts) = count-dequeue t me ts
count-dequeue t me (some u ∷ ts) = ground (arith, count-dequeue t me ts)

count-set :
    (t u : ℕ) (ts : Slots) (i : ℕ)
    → Holds ts i u
    → count t (set ts i none) + one_if (u == t) ≡ count t ts
unfolding count
count-set t u [] i h = cc
count-set t u (none ∷ ts) zero h = cc
count-set t u (some w ∷ ts) zero h = ground arith
count-set t u (none ∷ ts) (suc i) h = count-set t u ts i h
count-set t u (some w ∷ ts) (suc i) h = omega (arith, count-set t u ts i h)

-- A task stands in the table exactly if it is counted.
pub Holds-count : (ts : Slots) (i t : ℕ) → Holds ts i t → 0 < count t ts
unfolding count
Holds-count [] i t h = cc
Holds-count (none ∷ ts) zero t h = cc
Holds-count (some u ∷ ts) zero t h = ground arith
Holds-count (none ∷ ts) (suc i) t h = Holds-count ts i t h
Holds-count (some u ∷ ts) (suc i) t h = omega (arith, Holds-count ts i t h)

pub count-Holds : (ts : Slots) (t : ℕ) → 0 < count t ts → (i : ℕ) × Holds ts i t
unfolding count
count-Holds [] t h = absurd (omega arith)
count-Holds (none ∷ ts) t h = let (i, e) = count-Holds ts t h in (suc i, e)
count-Holds (some u ∷ ts) t h = elim (Bool-cases (u == t)) [
  | inl e ↦ (zero, ground arith)
  | inr e ↦ let (i, e') = count-Holds ts t (ground arith) in (suc i, e')
]

abbrev pub hit : ℕ → Option ℕ → ℕ
hit t none = 0
hit t (some u) = one_if (u == t)

pub count-notify_one :
    (priority : ℕ → ℕ) (t : ℕ) (ts : Slots)
    → count t (notify_one priority ts).0 + hit t (notify_one priority ts).1 ≡ count t ts
count-notify_one priority t ts = elim (notify_one-IsChoice priority ts) [
  | inl (e, _) ↦ ground arith
  | inr (i, w, e, c) ↦ ground (arith, count-set t w ts i c.held)
]

unfoldable pub occurrences : ℕ → List ℕ → ℕ
occurrences t [] = 0
occurrences t (u ∷ us) = one_if (u == t) + occurrences t us

-- `notify_all` empties the table, and notifies each task as often as it stood there.
pub count-notify_all :
    (t : ℕ) (ts : Slots)
    → (count t (notify_all ts).0 ≡ 0) × (occurrences t (notify_all ts).1 ≡ count t ts)
unfolding count notify_all occurrences
count-notify_all t [] = (refl, refl)
count-notify_all t (none ∷ ts) = count-notify_all t ts
count-notify_all t (some u ∷ ts) = ground (arith, count-notify_all t ts)
