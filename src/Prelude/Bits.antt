-- ===== src/Prelude/Bits.antt =====
-- Single bits of a word: what `&`, `|`, `~`, shifts and masks do to each of them, at every width.
use Prim.Native.Nat.{
  ℕ, zero, suc, ◌+◌, ◌-◌, ◌*◌, ◌/◌, ◌%◌, ◌^◌, ◌≤◌, ◌<◌, min, max, bit_and, bit_or,
}
use mathlib.Core.Path.{◌≡◌, refl, sym, ap, ◌∙◌}
use native.Mathlib.Omega.{arith}
use native.Mathlib.Nat.{pow-suc, one-le-pow, div-div-eq-div-mul, mul_comm, div-one, mul-one}
use native.Mathlib.Nat.{div-add-mod', mod-lt}
use chypervisor.Prelude.Digits.{bit_and_digit, bit_or_digit, zero-bit_or}
use chypervisor.Prelude.Tests.{◌==◌, if◌then◌else◌}

-- Bit `i` of `x`, as 0 or 1.
abbrev pub bit : ℕ → ℕ → ℕ
bit x zero = x % 2
bit x (suc i) = bit (x / 2) i

pub bit-lt : (x i : ℕ) → bit x i < 2
bit-lt x zero = omega arith
bit-lt x (suc i) = bit-lt (x / 2) i

pub bit-bit_and : (i a b : ℕ) → bit (bit_and a b) i ≡ min (bit a i) (bit b i)
bit-bit_and zero a b = omega (arith, bit_and_digit a b)
bit-bit_and (suc i) a b =
    let half : bit_and a b / 2 ≡ bit_and (a / 2) (b / 2) = omega (arith, bit_and_digit a b) in
    rw half (bit-bit_and i (a / 2) (b / 2))

pub bit-bit_or : (i a b : ℕ) → bit (bit_or a b) i ≡ max (bit a i) (bit b i)
bit-bit_or zero a b = omega (arith, bit_or_digit a b)
bit-bit_or (suc i) a b =
    let half : bit_or a b / 2 ≡ bit_or (a / 2) (b / 2) = omega (arith, bit_or_digit a b) in
    rw half (bit-bit_or i (a / 2) (b / 2))

pub bit_zero : (i : ℕ) → bit 0 i ≡ 0
bit_zero zero = refl
bit_zero (suc i) = bit_zero i

half_pow : (b : ℕ) → 2 ^ suc b / 2 ≡ 2 ^ b
half_pow b = omega (arith, pow-suc 2 b)

-- `1 << b` has exactly bit `b` set.
pub bit-pow : (b i : ℕ) → bit (2 ^ b) i ≡ (if i == b then 1 else 0)
bit-pow zero zero = refl
bit-pow zero (suc i) = bit_zero i ∙ ground arith
bit-pow (suc b) zero = ground (arith, pow-suc 2 b)
bit-pow (suc b) (suc i) = rw (half_pow b) (bit-pow b i ∙ ground arith)

-- `~x` on `w` bits flips each of the `w` bits.
pub bit_complement : (w i x : ℕ) → x < 2 ^ w → i < w → bit (2 ^ w - 1 - x) i ≡ 1 - bit x i
bit_complement zero i x h l = absurd (omega arith)
bit_complement (suc w) zero x h l = omega (arith, pow-suc 2 w)
bit_complement (suc w) (suc i) x h l =
    let half : (2 ^ suc w - 1 - x) / 2 ≡ 2 ^ w - 1 - x / 2 = omega (arith, pow-suc 2 w) in
    rw half (bit_complement w i (x / 2) (omega (arith, pow-suc 2 w)) (omega arith))

-- All `w` low bits of `2 ^ w - 1` are set.
pub bit_ones : (w i : ℕ) → i < w → bit (2 ^ w - 1) i ≡ 1
bit_ones zero i l = absurd (omega arith)
bit_ones (suc w) zero l = omega (arith, pow-suc 2 w, one-le-pow w 2)
bit_ones (suc w) (suc i) l =
    let half : (2 ^ suc w - 1) / 2 ≡ 2 ^ w - 1 = omega (arith, pow-suc 2 w) in
    rw half (bit_ones w i (omega arith))

pub bit_and-zero : (i a : ℕ) → a ≤ i → bit_and a 0 ≡ 0
bit_and-zero i zero h = refl
bit_and-zero zero (suc a) h = absurd (omega arith)
bit_and-zero (suc i) (suc a) h =
    omega (arith, bit_and_digit (suc a) 0, bit_and-zero i (suc a / 2) (omega arith))

-- `x & 1` is the lowest bit.
pub bit_and-one : (a : ℕ) → bit_and a 1 ≡ a % 2
bit_and-one a = omega (arith, bit_and_digit a 1, bit_and-zero (a / 2) (a / 2) (omega arith))

-- `x >> i` moves bit `i` to the lowest place.
pub shift-mod_two : (i x : ℕ) → (x / 2 ^ i) % 2 ≡ bit x i
shift-mod_two zero x = omega arith
shift-mod_two (suc i) x = step ∙ shift-mod_two i (x / 2)
  where
    step : (x / 2 ^ suc i) % 2 ≡ (x / 2 / 2 ^ i) % 2
    step = ap (λ (t : ℕ). t % 2) (rw (div-div-eq-div-mul x 2 (2 ^ i), pow-suc, mul_comm))

-- The test `(x >> i) & 1` of the code.
pub shift-bit_and-one : (i x : ℕ) → bit_and (x / 2 ^ i) 1 ≡ bit x i
shift-bit_and-one i x = bit_and-one (x / 2 ^ i) ∙ shift-mod_two i x

-- A mask of `w` ones keeps a word of `w` bits.
pub bit_and_ones : (w x : ℕ) → x < 2 ^ w → bit_and x (2 ^ w - 1) ≡ x
bit_and_ones zero x h = rw (bit_and-zero x x (omega arith)) (omega arith)
bit_and_ones (suc w) x h =
    let half : (2 ^ suc w - 1) / 2 ≡ 2 ^ w - 1 = omega (arith, pow-suc 2 w) in
    let rest = bit_and_ones w (x / 2) (omega (arith, pow-suc 2 w)) in
    omega (
      arith,
      bit_and_digit x (2 ^ suc w - 1),
      pow-suc 2 w,
      one-le-pow w 2,
      ap (λ (t : ℕ). bit_and (x / 2) t) half,
      rest,
    )

-- A mask with `k` zeros at its end clears the `k` low bits.
pub bit_and_shifted : (k x m : ℕ) → bit_and x (m * 2 ^ k) ≡ bit_and (x / 2 ^ k) m * 2 ^ k
bit_and_shifted zero x m = rw (div-one, mul-one, mul-one)
bit_and_shifted (suc k) x m =
    let double : m * 2 ^ suc k ≡ m * 2 ^ k * 2 =
      omega (arith, ap (λ (t : ℕ). m * t) (pow-suc 2 k)) in
    let split : x / 2 / 2 ^ k ≡ x / 2 ^ suc k =
      div-div-eq-div-mul x 2 (2 ^ k) ∙ ap (λ (t : ℕ). x / t) (omega (arith, pow-suc 2 k)) in
    let half : m * 2 ^ suc k / 2 ≡ m * 2 ^ k = omega (arith, double) in
    let rest : bit_and (x / 2) (m * 2 ^ k) ≡ bit_and (x / 2 ^ suc k) m * 2 ^ k =
      rw (← split) (bit_and_shifted k (x / 2) m) in
    omega (
      arith,
      bit_and_digit x (m * 2 ^ suc k),
      double,
      rest,
      ap (λ (t : ℕ). bit_and (x / 2) t) half,
      ap (λ (t : ℕ). bit_and (x / 2 ^ suc k) m * t) (pow-suc 2 k),
    )

-- `x & ~(2 ^ k - 1)` on 64 bits rounds down to a multiple of `2 ^ k`.
pub bit_and_high :
    (w k x : ℕ) → x / 2 ^ k < 2 ^ w → bit_and x ((2 ^ w - 1) * 2 ^ k) ≡ x / 2 ^ k * 2 ^ k
bit_and_high w k x h =
    bit_and_shifted k x (2 ^ w - 1) ∙ ap (λ (t : ℕ). t * 2 ^ k) (bit_and_ones w (x / 2 ^ k) h)

pow_double : (q k : ℕ) → q * 2 ^ suc k ≡ q * 2 ^ k * 2
pow_double q k = omega (arith, ap (λ (t : ℕ). q * t) (pow-suc 2 k))

bit_and_low : (k q r : ℕ) → r < 2 ^ k → bit_and (r + q * 2 ^ k) (2 ^ k - 1) ≡ r
bit_and_low zero q r h =
    rw (bit_and-zero (r + q * 2 ^ 0) (r + q * 2 ^ 0) (omega arith)) (omega arith)
bit_and_low (suc k) q r h =
    let x = r + q * 2 ^ suc k in
    let half : x / 2 ≡ r / 2 + q * 2 ^ k = omega (arith, pow_double q k) in
    let ones : (2 ^ suc k - 1) / 2 ≡ 2 ^ k - 1 = omega (arith, pow-suc 2 k) in
    let rest = bit_and_low k q (r / 2) (omega (arith, pow-suc 2 k)) in
    let low : bit_and (x / 2) ((2 ^ suc k - 1) / 2) ≡ r / 2 = rw (half, ones) rest in
    omega (arith, bit_and_digit x (2 ^ suc k - 1), low, pow_double q k, pow-suc 2 k, one-le-pow k 2)

-- The mask of `k` ones keeps the `k` low bits.
pub bit_and_mask : (k x : ℕ) → bit_and x (2 ^ k - 1) ≡ x % 2 ^ k
bit_and_mask k x =
    let split : x % 2 ^ k + x / 2 ^ k * 2 ^ k ≡ x = omega (arith, div-add-mod' x (2 ^ k)) in
    ap (λ t. bit_and t (2 ^ k - 1)) (sym split)
    ∙ bit_and_low k (x / 2 ^ k) (x % 2 ^ k) (mod-lt x (one-le-pow k 2 (omega arith)))

pub bit_or-zero : (i a : ℕ) → a ≤ i → bit_or a 0 ≡ a
bit_or-zero i zero h = refl
bit_or-zero zero (suc a) h = absurd (omega arith)
bit_or-zero (suc i) (suc a) h =
    omega (arith, bit_or_digit (suc a) 0, bit_or-zero i (suc a / 2) (omega arith))

-- `r | (q << k)` is a sum where `r` fits below bit `k`.
pub bit_or_high : (k q r : ℕ) → r < 2 ^ k → bit_or r (q * 2 ^ k) ≡ r + q * 2 ^ k
bit_or_high zero q zero h = omega (arith, zero-bit_or (q * 2 ^ 0))
bit_or_high zero q (suc r) h = absurd (omega arith)
bit_or_high (suc k) q r h =
    let half : q * 2 ^ suc k / 2 ≡ q * 2 ^ k = omega (arith, pow_double q k) in
    let rest = bit_or_high k q (r / 2) (omega (arith, pow-suc 2 k)) in
    let low : bit_or (r / 2) (q * 2 ^ suc k / 2) ≡ r / 2 + q * 2 ^ k = rw half rest in
    omega (arith, bit_or_digit r (q * 2 ^ suc k), low, pow_double q k)

-- `x >> k` moves every bit down by `k`.
pub bit_shift : (k x i : ℕ) → bit (x / 2 ^ k) i ≡ bit x (k + i)
bit_shift zero x i = let e : 0 + i ≡ i = omega arith in rw (e, div-one x) refl
bit_shift (suc k) x i =
    let split : x / 2 ^ suc k ≡ x / 2 / 2 ^ k =
      rw (pow-suc 2 k, mul_comm (2 ^ k) 2) (sym (div-div-eq-div-mul x 2 (2 ^ k))) in
    let e : suc k + i ≡ suc (k + i) = omega arith in rw (e, split) (bit_shift k (x / 2) i)

-- A cast to `w` bits keeps them.
pub bit_cast : (w x i : ℕ) → i < w → bit (x % 2 ^ w) i ≡ bit x i
bit_cast w x i h =
    let low : bit (bit_and x (2 ^ w - 1)) i ≡ bit x i =
      omega (arith, bit-bit_and i x (2 ^ w - 1), bit_ones w i h, bit-lt x i) in
    rw (sym (bit_and_mask w x)) low

ext_below : (n a b : ℕ) → a ≤ n → b ≤ n → ((i : ℕ) → bit a i ≡ bit b i) → a ≡ b
ext_below zero a b p q h = omega arith
ext_below (suc n) a b p q h =
    let halves = ext_below n (a / 2) (b / 2) (omega arith) (omega arith) (λ i. h (suc i)) in
    let last : a % 2 ≡ b % 2 = h 0 in omega (arith, halves, last)

-- Numbers with the same bits are equal.
pub bit_ext : (a b : ℕ) → ((i : ℕ) → bit a i ≡ bit b i) → a ≡ b
bit_ext a b h = ext_below (a + b) a b (omega arith) (omega arith) h

-- A number below `2 ^ w` has no bits from `w` on.
pub bit_above : (w x i : ℕ) → x < 2 ^ w → w ≤ i → bit x i ≡ 0
bit_above zero x i h l = let e : x ≡ 0 = omega arith in rw e (bit_zero i)
bit_above (suc w) x zero h l = absurd (omega arith)
bit_above (suc w) x (suc i) h l = bit_above w (x / 2) i (omega (arith, pow-suc 2 w)) (omega arith)
