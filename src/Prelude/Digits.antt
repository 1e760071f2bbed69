-- ===== src/Prelude/Digits.antt =====
-- The native `bit_and` and `bit_or` one binary digit at a time. The native operations stand for a
-- recursion on digits with fuel; here the fuel is shown not to matter.
use Prim.Native.Nat.{
  ℕ, zero, suc, ◌+◌, ◌*◌, ◌/◌, ◌%◌, ◌≤◌, min, max, bit_and, bit_or, digits, bitwise,
}
use Prim.Native.Nat.{bit_and-bitwise, bit_or-bitwise}
use mathlib.Core.Path.{◌≡◌, refl}
use native.Mathlib.Omega.{arith}

module _ (keep : ℕ → ℕ) (join : ℕ → ℕ → ℕ) where
  fuel_irrelevant : (m n a b : ℕ) → a ≤ m → a ≤ n → digits keep join m a b ≡ digits keep join n a b
  fuel_irrelevant zero zero a b p q = refl
  fuel_irrelevant zero (suc n) zero b p q = refl
  fuel_irrelevant zero (suc n) (suc a) b p q = absurd (omega arith)
  fuel_irrelevant (suc m) zero zero b p q = refl
  fuel_irrelevant (suc m) zero (suc a) b p q = absurd (omega arith)
  fuel_irrelevant (suc m) (suc n) zero b p q = refl
  fuel_irrelevant (suc m) (suc n) (suc a) b p q =
      omega (arith, fuel_irrelevant m n (suc a / 2) (b / 2) (omega arith) (omega arith))

  pub bitwise_digit :
      (a b : ℕ)
      → bitwise keep join (suc a) b
        ≡ bitwise keep join (suc a / 2) (b / 2) * 2 + join (suc a % 2) (b % 2)
  bitwise_digit a b =
      omega (arith, fuel_irrelevant a (suc a / 2) (suc a / 2) (b / 2) (omega arith) (omega arith))

pub bit_and_digit : (a b : ℕ) → bit_and a b ≡ bit_and (a / 2) (b / 2) * 2 + min (a % 2) (b % 2)
bit_and_digit zero b = simp bit_and-bitwise (omega arith)
bit_and_digit (suc a) b = simp bit_and-bitwise (bitwise_digit (λ d. 0) min a b)

pub bit_or_digit : (a b : ℕ) → bit_or a b ≡ bit_or (a / 2) (b / 2) * 2 + max (a % 2) (b % 2)
bit_or_digit zero b = simp bit_or-bitwise (omega arith)
bit_or_digit (suc a) b = simp bit_or-bitwise (bitwise_digit (λ d. d) max a b)

pub zero-bit_or : (b : ℕ) → bit_or 0 b ≡ b
zero-bit_or b = bit_or-bitwise 0 b
