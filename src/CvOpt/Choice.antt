-- ===== src/CvOpt/Choice.antt =====
-- Which waiting task `notify_one` of condition_variable_opt.cpp wakes.
use roo_threads.Base.{
  ℕ, zero, suc, ◌+◌, ◌≤◌, ◌<◌, ◌≡◌, refl, ◌⊎◌, inl, inr, true, false, [], ◌∷◌, Option, none, some,
  get_elem?, set, arith, Bool-cases,
}
use roo_threads.CvOpt.{Slots, Candidate, scan, notify_one, is_better}

-- Slot `i` holds task `t`.
abbrev pub Holds : Slots → ℕ → ℕ → Type 0
Holds ts i t = get_elem? ts i ≡ some (some t)

-- A waiting task of the highest priority, and the first such.
pub record IsChoice (priority : ℕ → ℕ) (ts : Slots) (i t : ℕ) : Type 0 where
  pub held : Holds ts i t
  pub highest : (j u : ℕ) → Holds ts j u → priority u ≤ priority t
  pub first : (j u : ℕ) → Holds ts j u → j < i → priority u < priority t

-- What the loop returns from slot `k` on, when it comes with the candidate `best`.
abbrev Scanned : (ℕ → ℕ) → ℕ → Candidate → Slots → Candidate → Type 0
Scanned priority k best ts r =
    ((r ≡ best) × ((j u : ℕ) → Holds ts j u → is_better priority u best ≡ false))
    ⊎ (i : ℕ) × (t : ℕ) × (r ≡ some (k + i, t))
      × (is_better priority t best ≡ true)
      × IsChoice priority ts i t

Holds-cons {ℓ} :
    (P : ℕ → ℕ → Type ℓ) (slot : Option ℕ) (ts : Slots)
    → ((u : ℕ) → slot ≡ some u → P zero u)
    → ((j u : ℕ) → Holds ts j u → P (suc j) u)
    → (j u : ℕ) → Holds (slot ∷ ts) j u
    → P j u
Holds-cons P slot ts here there zero u h = here u (cc)
Holds-cons P slot ts here there (suc j) u h = there j u h

module _ (priority : ℕ → ℕ) where
  IsChoice-here :
      (t : ℕ) (ts : Slots)
      → ((j u : ℕ) → Holds ts j u → priority u ≤ priority t)
      → IsChoice priority (some t ∷ ts) zero t
  IsChoice-here t ts all = record {
    held = refl;
    highest = Holds-cons (λ j u. priority u ≤ priority t) (some t) ts (λ u e. ground arith) all;
    first = λ j u h lt. absurd (omega arith);
  }

  IsChoice-cons :
      (slot : Option ℕ) (ts : Slots) (i t : ℕ)
      → ((u : ℕ) → slot ≡ some u → priority u < priority t)
      → IsChoice priority ts i t
      → IsChoice priority (slot ∷ ts) (suc i) t
  IsChoice-cons slot ts i t below c = record {
    held = c.held;
    highest =
        Holds-cons (λ j u. priority u ≤ priority t) slot ts (λ u e. omega (arith, below u e))
          c.highest;
    first =
        Holds-cons (λ j u. j < suc i → priority u < priority t) slot ts (λ u e _. below u e)
          (λ j u h lt. c.first j u h (omega arith));
  }

  Scanned-none :
      (k : ℕ) (best : Candidate) (ts : Slots) (r : Candidate)
      → Scanned priority (suc k) best ts r
      → Scanned priority k best (none ∷ ts) r
  Scanned-none k best ts r (inl (e, all)) = inl (e, Holds-cons _ none ts (λ u e'. cc) all)
  Scanned-none k best ts r (inr (i, t, e, b, c)) =
      inr (suc i, t, ground arith, b, IsChoice-cons none ts i t (λ u e'. cc) c)

  Scanned-better :
      (k t : ℕ) (best : Candidate) (ts : Slots) (r : Candidate)
      → is_better priority t best ≡ true
      → Scanned priority (suc k) (some (k, t)) ts r
      → Scanned priority k best (some t ∷ ts) r
  Scanned-better k t best ts r b (inl (e, all)) =
      inr (zero, t, ground arith, b, IsChoice-here t ts (λ j u h. ground (arith, all j u h)))
  Scanned-better k t best ts r b (inr (i, t', e, b', c)) = inr (
    suc i,
    t',
    ground arith,
    ground arith,
    IsChoice-cons (some t) ts i t' (λ u e'. ground arith) c,
  )

  Scanned-worse :
      (k t : ℕ) (best : Candidate) (ts : Slots) (r : Candidate)
      → is_better priority t best ≡ false
      → Scanned priority (suc k) best ts r
      → Scanned priority k best (some t ∷ ts) r
  Scanned-worse k t best ts r b (inl (e, all)) =
      inl (e, Holds-cons _ (some t) ts (λ u e'. ground arith) all)
  Scanned-worse k t best ts r b (inr (i, t', e, b', c)) =
      inr (suc i, t', ground arith, b', IsChoice-cons (some t) ts i t' (λ u e'. ground arith) c)

  scan-Scanned :
      (k : ℕ) (best : Candidate) (ts : Slots) → Scanned priority k best ts (scan priority k best ts)
  unfolding scan
  scan-Scanned k best [] = inl (refl, λ j u h. cc)
  scan-Scanned k best (none ∷ ts) = Scanned-none k best ts _ (scan-Scanned (suc k) best ts)
  scan-Scanned k best (some t ∷ ts) = elim (Bool-cases (is_better priority t best)) [
    | inl b ↦ rw b (Scanned-better k t best ts _ b (scan-Scanned (suc k) (some (k, t)) ts))
    | inr b ↦ rw b (Scanned-worse k t best ts _ b (scan-Scanned (suc k) best ts))
  ]

  -- `notify_one` changes nothing and notifies nobody if no task waits. Otherwise it notifies a task
  -- of the highest priority, of several the one in the first slot, and empties that slot alone.
  pub notify_one-IsChoice :
      (ts : Slots)
      → ((notify_one priority ts ≡ (ts, none)) × ((j u : ℕ) → ¬ Holds ts j u))
        ⊎ (i : ℕ) × (t : ℕ) × (notify_one priority ts ≡ (set ts i none, some t))
          × IsChoice priority ts i t
  unfolding notify_one
  notify_one-IsChoice ts = elim (scan-Scanned zero none ts) [
    | inl (e, all) ↦ inl (rw (e, notify_one), λ j u h. cc (all j u h))
    | inr (i, t, e, b, c) ↦ inr (i, t, rw (e, notify_one) (ground arith), c)
  ]
