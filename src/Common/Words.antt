-- ===== src/Common/Words.antt =====
-- kernel/bits.h: words with one bit, tests of a bit, and words put together from two halves. The assertions
-- are off, as in the build.
use chypervisor.Prelude.{
  ℕ, ◌+◌, ◌*◌, ◌/◌, ◌%◌, ◌^◌, ◌<◌, ◌≡◌, refl, arith, Bool, not, ◌==◌, bit_and, bit_or, ◌∙◌,
  Bool-cases, inl, inr, u8, u16, u32, u64,
}
use chypervisor.Prelude.Bits.{
  bit-bit_or, bit-pow, bit_ext, bit_or_high, bit_and_mask, shift-bit_and-one, bit_cast,
}

abbrev pub bits_tobit_u8 : ℕ → ℕ
bits_tobit_u8 n = u8 (2 ^ bit_and n 7)

abbrev pub bits_tobit_u16 : ℕ → ℕ
bits_tobit_u16 n = u16 (2 ^ bit_and n 15)

abbrev pub bits_tobit_u32 : ℕ → ℕ
bits_tobit_u32 n = u32 (2 ^ bit_and n 31)

abbrev pub bits_tobit_u64 : ℕ → ℕ
bits_tobit_u64 n = u64 (2 ^ bit_and n 63)

-- `BITS_ISSET`
abbrev pub bits_isset : ℕ → ℕ → Bool
bits_isset val n = not (bit_and (val / 2 ^ n) 1 == 0)

unfoldable pub bits_concat_u8_u8 : ℕ → ℕ → ℕ
bits_concat_u8_u8 hi lo = u16 (bit_or (u16 (hi * 2 ^ 8)) lo)

unfoldable pub bits_concat_u16_u16 : ℕ → ℕ → ℕ
bits_concat_u16_u16 hi lo = u32 (bit_or (u32 (hi * 2 ^ 16)) lo)

unfoldable pub bits_concat_u32_u32 : ℕ → ℕ → ℕ
bits_concat_u32_u32 hi lo = bit_or (u64 (hi * 2 ^ 32)) lo

unfoldable pub bits_concat_edx_eax : ℕ → ℕ → ℕ
bits_concat_edx_eax edx eax = bits_concat_u32_u32 edx eax

bit_or_comm : (a b : ℕ) → bit_or a b ≡ bit_or b a
bit_or_comm a b =
    bit_ext (bit_or a b) (bit_or b a) (λ i. omega (arith, bit-bit_or i a b, bit-bit_or i b a))

halves : (w hi lo : ℕ) → lo < 2 ^ w → bit_or (hi * 2 ^ w) lo ≡ lo + hi * 2 ^ w
halves w hi lo h = bit_or_comm (hi * 2 ^ w) lo ∙ bit_or_high w hi lo h

-- Of two halves of 8, 16 or 32 bits each, the concatenation is the word of twice the width whose upper and
-- lower half they are.
bits_concat_halves :
    ((hi lo : ℕ)
      → hi < 2 ^ 8
      → lo < 2 ^ 8
      → (bits_concat_u8_u8 hi lo / 2 ^ 8 ≡ hi) × (bits_concat_u8_u8 hi lo % 2 ^ 8 ≡ lo))
    × ((hi lo : ℕ)
        → hi < 2 ^ 16
        → lo < 2 ^ 16
        → (bits_concat_u16_u16 hi lo / 2 ^ 16 ≡ hi) × (bits_concat_u16_u16 hi lo % 2 ^ 16 ≡ lo))
    × ((hi lo : ℕ)
        → hi < 2 ^ 32
        → lo < 2 ^ 32
        → (bits_concat_edx_eax hi lo / 2 ^ 32 ≡ hi) × (bits_concat_edx_eax hi lo % 2 ^ 32 ≡ lo))
unfolding bits_concat_u8_u8 bits_concat_u16_u16 bits_concat_edx_eax bits_concat_u32_u32
bits_concat_halves = (
  (λ hi lo hh hl.
      let cut : u16 (hi * 2 ^ 8) ≡ hi * 2 ^ 8 = omega (arith, hh) in
      rw (cut, halves 8 hi lo hl) (omega (arith, hh, hl), omega (arith, hh, hl))),
  (λ hi lo hh hl.
      let cut : u32 (hi * 2 ^ 16) ≡ hi * 2 ^ 16 = omega (arith, hh) in
      rw (cut, halves 16 hi lo hl) (omega (arith, hh, hl), omega (arith, hh, hl))),
  (λ hi lo hh hl.
      let cut : u64 (hi * 2 ^ 32) ≡ hi * 2 ^ 32 = omega (arith, hh) in
      rw (cut, halves 32 hi lo hl) (omega (arith, hh, hl), omega (arith, hh, hl))),
)

-- Of the word that `bits_tobit_u64` gives, bit `n` modulo 64 is set and no other.
bits_isset-bits_tobit_u64 : (n i : ℕ) → i < 64 → bits_isset (bits_tobit_u64 n) i ≡ (i == n % 64)
bits_isset-bits_tobit_u64 n i h =
    let low : bit_and n 63 ≡ n % 64 = bit_and_mask 6 n in
    rw
      (
        shift-bit_and-one i (u64 (2 ^ bit_and n 63)),
        bit_cast 64 (2 ^ bit_and n 63) i h,
        low,
        bit-pow (n % 64) i,
      )
      (elim (Bool-cases (i == n % 64)) [ inl e ↦ rw e refl | inr e ↦ rw e refl ])
