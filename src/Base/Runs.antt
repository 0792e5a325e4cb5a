-- ===== src/Base/Runs.antt =====
-- Runs of a step relation: any number of steps, one after another.
module _ {ℓ} {S : Type ℓ} (Step : S → S → Type ℓ) where
  pub data Run (s : S) : S → Type ℓ where
    here : Run s s
    next : {t u : S} → Run s t → Step t u → Run s u

  pub Run-append : {s t u : S} → Run s t → Run t u → Run s u
  Run-append r here = r
  Run-append r (next r' step) = next (Run-append r r') step
