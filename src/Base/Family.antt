-- ===== src/Base/Family.antt =====
-- Families `ℕ → A` indexed by a task or an address: the write at one index, and the weighted sum
-- over the first `n` indices.
use Prim.Native.Nat.{ℕ, zero, suc, ◌+◌, ◌≤◌, ◌<◌}
use mathlib.Core.Path.{◌≡◌, refl}
use mathlib.Core.Logic.{◌≢◌}
use native.Mathlib.Omega.{arith}
use roo_threads.Base.Tests.{ltb, ◌==◌, if◌then◌else◌}

abbrev pub update {ℓ} : {A : Type ℓ} → (ℕ → A) → ℕ → A → ℕ → A
update f i a j = if i == j then a else f j

pub update-other {ℓ} : {A : Type ℓ} (f : ℕ → A) (i j : ℕ) (a : A) → i ≢ j → update f i a j ≡ f j
update-other f i j a ne = ground arith

-- The sum of a weight over the members below `n`.
module _ {A : Type 0} (w : A → ℕ) where
  unfoldable pub total : ℕ → (ℕ → A) → ℕ
  total zero _ = 0
  total (suc n) f = w (f n) + total n f

  module _ (f : ℕ → A) where
    -- What a write adds is the new weight for the old one, if it is below `n`.
    total_moved :
        (i : ℕ) (a : A) (n : ℕ)
        → (if ltb i n then w (f i) else 0) + total n (update f i a)
          ≡ (if ltb i n then w a else 0) + total n f
    unfolding total
    total_moved i a zero = ground arith
    total_moved i a (suc n) = ground (arith, total_moved i a n)

    pub total-update :
        (n i : ℕ) (a : A) → i < n → total n (update f i a) + w (f i) ≡ total n f + w a
    total-update n i a lt = ground (arith, total_moved i a n)

    -- Members of weight 1 at most are as many as there are at most.
    pub total-le : (n : ℕ) → ((i : ℕ) → w (f i) ≤ 1) → total n f ≤ n
    unfolding total
    total-le zero _ = omega arith
    total-le (suc n) one = omega (arith, total-le n one, one n)

    pub total-eq-zero : (n : ℕ) → ((i : ℕ) → w (f i) ≡ 0) → total n f ≡ 0
    unfolding total
    total-eq-zero zero _ = refl
    total-eq-zero (suc n) none_counts = omega (arith, total-eq-zero n none_counts, none_counts n)
