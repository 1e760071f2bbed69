-- ===== src/Prelude/Round.antt =====
-- Rounding up to a multiple.
use Prim.Native.Nat.{ℕ, ◌+◌, ◌-◌, ◌*◌, ◌/◌, ◌≤◌, ◌<◌}
use mathlib.Core.Path.{◌≡◌, refl}
use native.Mathlib.Omega.{arith}
use native.Mathlib.Nat.{div-mul-le_self, lt-div-mul-add}

-- The least multiple of `a` that is at least `x`.
unfoldable pub round_up : ℕ → ℕ → ℕ
round_up a x = (x + a - 1) / a * a

pub round_up-ge : (a x : ℕ) → 0 < a → x ≤ round_up a x
unfolding round_up
round_up-ge a x h = omega (arith, lt-div-mul-add {a = x + a - 1} {b = a} h)

pub round_up-lt : (a x : ℕ) → 0 < a → round_up a x < x + a
unfolding round_up
round_up-lt a x h = omega (arith, div-mul-le_self (x + a - 1) a)

pub round_up-multiple : (a x : ℕ) → 0 < a → (q : ℕ) × (round_up a x ≡ q * a)
unfolding round_up
round_up-multiple a x h = ((x + a - 1) / a, refl)

-- No multiple lies strictly between `x` and the rounded value.
pub round_up-least : (a x q : ℕ) → 0 < a → x ≤ q * a → round_up a x ≤ q * a
unfolding round_up
round_up-least a x q h l = grind (arith, div-mul-le_self (x + a - 1) a)
