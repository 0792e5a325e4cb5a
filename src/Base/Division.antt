-- ===== src/Base/Division.antt =====
-- Quotients and remainders by a variable.
use Prim.Native.Nat.{ℕ, ◌+◌, ◌-◌, ◌*◌, ◌/◌, ◌%◌, ◌≤◌, ◌<◌}
use mathlib.Core.Path.{◌≡◌, ◌∙◌}
use mathlib.Core.Logic.{◌⊎◌, inl, inr}
use native.Mathlib.Decide.{dec_lt}
use native.Mathlib.Nat.{div-add-mod, mod-lt, mod-eq_of_lt, mod-eq-sub-mod}
use native.Mathlib.Omega.{arith}

pub div_bounds : (a b : ℕ) → 0 < b → (a / b * b ≤ a) × (a < a / b * b + b)
div_bounds a b h = omega (arith, div-add-mod a b, mod-lt a h)

-- Rounding up.
pub div_up_bounds : (a b : ℕ) → 0 < b → (a ≤ (a + b - 1) / b * b) × ((a + b - 1) / b * b < a + b)
div_up_bounds a b h = omega (arith, div_bounds (a + b - 1) b h)

pub le_of_mul_lt : (a b c : ℕ) → a * c < b * c + c → a ≤ b
le_of_mul_lt a b c h = grind arith

-- A sum below twice the modulus wraps once at most.
pub mod_cases : (a m : ℕ) → a < m + m → ((a % m ≡ a) × (a < m)) ⊎ ((a % m ≡ a - m) × (m ≤ a))
mod_cases a m h = elim (dec_lt a m) [
  | yes p ↦ inl (mod-eq_of_lt p, p)
  | no p ↦
      inr (mod-eq-sub-mod {n = a} {m = m} (omega arith) ∙ mod-eq_of_lt (omega arith), omega arith)
]
