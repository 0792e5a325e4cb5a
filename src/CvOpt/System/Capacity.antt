-- ===== src/CvOpt/System/Capacity.antt =====
-- How many threads the table of condition_variable_opt.cpp is enough for.
use roo_threads.Base.{
  ℕ, zero, suc, ◌+◌, ◌≤◌, ◌<◌, ◌≡◌, refl, ◌∙◌, inl, inr, true, [], ◌∷◌, none, some, ◌==◌, ltb,
  if◌then◌else◌, length, arith,
}
use native.Mathlib.Decide.{ℕ_discrete, dec_lt}
use roo_threads.Base.Family.{total, total-le, total-eq-zero}
use roo_threads.Kernel.{TaskNotify}
use roo_threads.CvOpt.{Slots, enqueue}
use roo_threads.CvOpt.Choice.{Holds}
use roo_threads.CvOpt.Count.{count, one_if, Holds-count}
use roo_threads.CvOpt.Registration.{IsTaken, enqueue_lem}
use roo_threads.CvOpt.System.{outside, holding, System, Reach}
use roo_threads.CvOpt.System.Invariant.{Reach-Inv}

abbrev self : ℕ → ℕ
self t = t

total_hit : (u n : ℕ) → total (λ t. one_if (u == t)) n self ≡ (if ltb u n then 1 else 0)
unfolding total
total_hit u zero = ground arith
total_hit u (suc n) = ground (arith, total_hit u n)

total_add : (v w : ℕ → ℕ) (n : ℕ) → total (λ t. v t + w t) n self ≡ total v n self + total w n self
unfolding total
total_add v w zero = refl
total_add v w (suc n) = omega (arith, total_add v w n)

total_missing :
    (w : ℕ → ℕ) (n me : ℕ) → me < n → w me ≡ 0 → ((t : ℕ) → w t ≤ 1) → total w n self < n
unfolding total
total_missing w zero me lt e one = absurd (omega arith)
total_missing w (suc n) me lt e one = elim (ℕ_discrete me n) [
  | yes same ↦ ground (arith, total-le w self n one)
  | no ne ↦ omega (arith, total_missing w n me (omega arith) e one, one n)
]

-- A table whose slots are all taken, by tasks below `n`, holds as many tasks below `n` as it has slots.
total-count :
    (ts : Slots) (n : ℕ)
    → ((j t : ℕ) → Holds ts j t → t < n)
    → IsTaken ts (length ts)
    → total (λ t. count t ts) n self ≡ length ts
unfolding count
total-count [] n below all = total-eq-zero (λ t. count t []) self n (λ _. refl)
total-count (none ∷ ts) n below all = let (t, h) = all zero (omega arith) in cc
total-count (some u ∷ ts) n below all =
    let hit : total (λ t. one_if (u == t)) n self ≡ 1 =
      ground (arith, total_hit u n, below zero u refl) in
    let rest = total-count ts n (λ j t h. below (suc j) t h) (λ j lt. all (suc j) (omega arith)) in
    total_add (λ t. one_if (u == t)) (λ t. count t ts) n ∙ omega arith

module _ (K : TaskNotify) where
  -- The table is large enough for as many threads as it has slots. In a reachable state where every thread from
  -- number `n` on is outside, and the table has at least `n` slots, a thread that has the mutex and
  -- starts to wait finds a free slot, so that the assertion after the loop does not fail.
  pub enqueue-finds_slot :
      {s : System K} (n i : ℕ)
      → Reach K s
      → n ≤ length s.slots
      → ((j : ℕ) → n ≤ j → s.pc j ≡ outside)
      → s.pc i ≡ holding
      → (enqueue i s.slots).1 ≡ true
  enqueue-finds_slot {s} n i r room out e =
      let inv = Reach-Inv K r in
      elim (enqueue_lem i s.slots) [
        | inr (k, q, free, first) ↦ ground arith
        | inl (q, all) ↦
            let below : (j t : ℕ) → Holds s.slots j t → t < n = λ j t h. elim (dec_lt t n) [
              | yes lt ↦ lt
              | no ge ↦ absurd (ground (arith, Holds-count s.slots j t h, inv.absent t, out t))
            ] in
            let mine : i < n = elim (dec_lt i n) [
              | yes lt ↦ lt
              | no ge ↦ absurd (ground (arith, out i))
            ] in
            let few =
              total_missing (λ t. count t s.slots) n i mine (inv.absent i (ground arith))
                inv.once in
            absurd (omega (arith, few, total-count s.slots n below all))
      ]
