-- ===== src/Gdt/Layout.antt =====
-- The layout of a segment descriptor, by the manual's positions: limit 15:0 and 51:48, base 39:16 and
-- 63:56, access 47:40, flags 55:52.
use chypervisor.Prelude.{ℕ, ◌+◌, ◌*◌, ◌/◌, ◌%◌, ◌^◌, ◌<◌, ◌≡◌, refl, arith}
use chypervisor.Prelude.{bit_or, ◌<<<◌}
use chypervisor.Prelude.Bits.{bit_and_mask, bit_or_high}
use chypervisor.Gdt.{make_desc}

abbrev pub base_of : ℕ → ℕ
base_of d = d / 2 ^ 16 % 2 ^ 24 + d / 2 ^ 56 % 2 ^ 8 * 2 ^ 24

abbrev pub limit_of : ℕ → ℕ
limit_of d = d % 2 ^ 16 + d / 2 ^ 48 % 2 ^ 4 * 2 ^ 16

abbrev pub access_of : ℕ → ℕ
access_of d = d / 2 ^ 40 % 2 ^ 8

abbrev pub flags_of : ℕ → ℕ
flags_of d = d / 2 ^ 52 % 2 ^ 4

-- Six fields packed side by side by `|` are their sum.
pub pack-sum :
    (l0 b0 a l1 f b1 : ℕ)
    → l0 < 2 ^ 16
    → b0 < 2 ^ 24
    → a < 2 ^ 8
    → l1 < 2 ^ 4
    → f < 2 ^ 4
    → b1 < 2 ^ 8
    → bit_or
        (bit_or (bit_or (bit_or (bit_or l0 (b0 <<< 16)) (a <<< 40)) (l1 <<< 48)) (f <<< 52))
        (b1 <<< 56)
      ≡ l0 + b0 * 2 ^ 16 + a * 2 ^ 40 + l1 * 2 ^ 48 + f * 2 ^ 52 + b1 * 2 ^ 56
pack-sum l0 b0 a l1 f b1 h0 h1 h2 h3 h4 h5 =
    let s1 = l0 + b0 * 2 ^ 16 in
    let s2 = s1 + a * 2 ^ 40 in
    let s3 = s2 + l1 * 2 ^ 48 in
    let s4 = s3 + f * 2 ^ 52 in
    rw
      (
        bit_or_high 16 b0 l0 h0,
        bit_or_high 40 a s1 (omega arith),
        bit_or_high 48 l1 s2 (omega arith),
        bit_or_high 52 f s3 (omega arith),
        bit_or_high 56 b1 s4 (omega arith),
      )
      refl

-- `make_desc` as a sum.
pub make_desc-sum :
    (base limit access flags : ℕ)
    → make_desc base limit access flags
      ≡ limit % 2 ^ 16
        + base % 2 ^ 24 * 2 ^ 16
        + access % 2 ^ 8 * 2 ^ 40
        + limit / 2 ^ 16 % 2 ^ 4 * 2 ^ 48
        + flags % 2 ^ 4 * 2 ^ 52
        + base / 2 ^ 24 % 2 ^ 8 * 2 ^ 56
unfolding make_desc
make_desc-sum base limit access flags =
    rw
      (
        bit_and_mask 16 limit,
        bit_and_mask 24 base,
        bit_and_mask 4 (limit / 2 ^ 16),
        bit_and_mask 4 flags,
        bit_and_mask 8 (base / 2 ^ 24),
      )
      (pack-sum (limit % 2 ^ 16) (base % 2 ^ 24) (access % 2 ^ 8) (limit / 2 ^ 16 % 2 ^ 4)
        (flags % 2 ^ 4) (base / 2 ^ 24 % 2 ^ 8) (omega arith) (omega arith) (omega arith)
        (omega arith) (omega arith) (omega arith))

-- Base, limit, access byte and flags can be read back from the positions where the processor looks for
-- them, for a 32-bit base, a 20-bit limit, 8 bits of access and 4 of flags.
pub make_desc_parts :
    (base limit access flags : ℕ)
    → base < 2 ^ 32
    → limit < 2 ^ 20
    → access < 2 ^ 8
    → flags < 2 ^ 4
    → (base_of (make_desc base limit access flags) ≡ base)
      × (limit_of (make_desc base limit access flags) ≡ limit)
      × (access_of (make_desc base limit access flags) ≡ access)
      × (flags_of (make_desc base limit access flags) ≡ flags)
make_desc_parts base limit access flags hb hl ha hf =
    let e = make_desc-sum base limit access flags in
    (omega (arith, e), omega (arith, e), omega (arith, e), omega (arith, e))
