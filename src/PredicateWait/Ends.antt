-- ===== src/PredicateWait/Ends.antt =====
-- The loops around a wait end, and tell the truth about the predicate.
use roo_threads.Base.{
  ℕ, zero, suc, ◌≤◌, ◌<◌, ◌≡◌, refl, ◌⊎◌, inl, inr, Bool, true, false, Option, none, some, arith,
  Bool-cases, Option-cases,
}
use roo_threads.PredicateWait.{CvStatus, no_timeout, timeout, is_timeout, wait, wait_until}

module _ {World : Type 0} (pred : World → World × Bool) (budget : World → ℕ) where
  -- `budget` is how many times threads may be woken from now on; the predicate does not raise it.
  abbrev pub IsQuiet : Type 0
  IsQuiet = (w : World) → budget (pred w).0 ≤ budget w

  module _ (wait_once : World → World × CvStatus) where
    -- A wake before the deadline uses the budget up.
    abbrev pub IsPaid : Type 0
    IsPaid = (w : World) → (wait_once w).1 ≡ no_timeout → budget (wait_once w).0 < budget w

    -- How a wait with a predicate ends: the result is what the predicate gave when it was evaluated
    -- last, and if that is false it was evaluated right after a wait that timed out.
    abbrev pub Verdict : World × Bool → Type 0
    Verdict r =
        (u : World) × (pred u ≡ r) × ((r.1 ≡ true) ⊎ (v : World) × (wait_once v ≡ (u, timeout)))

    -- A wait with a predicate and a deadline returns, if it may go round once more than threads can
    -- be woken. It returns what the predicate gave when it was evaluated last, and false only right after
    -- a wait that timed out.
    pub wait_until-Verdict :
        (fuel : ℕ) (w : World)
        → IsQuiet
        → IsPaid
        → budget w < fuel
        → (r : World × Bool) × (wait_until pred wait_once fuel w ≡ some r) × Verdict r
    unfolding wait_until
    wait_until-Verdict zero w quiet paid h = absurd (omega arith)
    wait_until-Verdict (suc fuel) w quiet paid h = elim (Bool-cases (pred w).1) [
      | inl e ↦ (((pred w).0, true), ground arith, (w, ground arith, inl refl))
      | inr e ↦
          let v = wait_once (pred w).0 in
          elim (Bool-cases (is_timeout v.1)) [
            | inl e' ↦ (pred v.0, ground arith, (v.0, refl, inr ((pred w).0, ground arith)))
            | inr e' ↦
                let (r, q, o) =
                  wait_until-Verdict fuel v.0 quiet paid
                    (ground (arith, quiet w, paid (pred w).0)) in
                (r, ground arith, o)
          ]
    ]

  -- A wait with a predicate and no deadline ends, if it may go round once more than threads can be
  -- woken: it returns after an evaluation of the predicate that gave true, or a wait after one that
  -- gave false is never woken.
  pub wait_lem :
      (wait_once : World → Option World) (fuel : ℕ) (w : World)
      → IsQuiet
      → ((v u : World) → wait_once v ≡ some u → budget u < budget v)
      → budget w < fuel
      → (u v : World) × (((wait pred wait_once fuel w ≡ some (some v)) × (pred u ≡ (v, true)))
          ⊎ ((wait pred wait_once fuel w ≡ some none)
              × (pred u ≡ (v, false))
              × (wait_once v ≡ none)))
  unfolding wait
  wait_lem wait_once zero w quiet paid h = absurd (omega arith)
  wait_lem wait_once (suc fuel) w quiet paid h = elim (Bool-cases (pred w).1) [
    | inl e ↦ (w, (pred w).0, inl (ground arith, ground arith))
    | inr e ↦ elim (Option-cases (wait_once (pred w).0)) [
      | inl e' ↦ (w, (pred w).0, inr (ground arith, ground arith, e'))
      | inr (x, e') ↦
          let (u, v, o) =
            wait_lem wait_once fuel x quiet paid (ground (arith, quiet w, paid (pred w).0 x)) in
          (u, v, ground arith)
    ]
  ]
