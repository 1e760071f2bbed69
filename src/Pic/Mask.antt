-- ===== src/Pic/Mask.antt =====
-- The interrupt mask: what pic.c's functions do to the mask bit of every interrupt line.
use chypervisor.Prelude.{ℕ, ◌-◌, ◌^◌, ◌%◌, ◌≡◌, ◌<◌, refl, sym, arith, false, ltb}
use chypervisor.Prelude.{
  if◌then◌else◌, bit_and, bit_or, u8, ◌==◌, Bool-cases, inl, inr, ltb→lt, ltb→le, ==→eq, ==→ne,
}
use native.Mathlib.Nat.{pow-le-pow_right}
use chypervisor.Prelude.Bits.{
  bit, bit-lt, bit-bit_or, bit-bit_and, bit-pow, bit_complement, bit_ones, bit_cast,
}
use chypervisor.Pic.{
  Ports, pic_init, pic_set_mask, pic_clear_mask, pic1_data, pic2_data, pic_irq_delta,
  pic_irq_is_primary,
}

-- What the 8259A's data sheet says of the mask after initialisation: a data port reads back the 8 bits
-- written last to it; a write to the other controller's ports, and a delay, leave it.
pub record Laws (P : Ports) : Type 0 where
  pub read_self :
      (s : P.State) (v : ℕ)
      → v < 256
      → (P.inb (P.outb s pic1_data v) pic1_data ≡ v) × (P.inb (P.outb s pic2_data v) pic2_data ≡ v)
  pub read_other :
      (s : P.State) (v : ℕ)
      → (P.inb (P.outb s pic1_data v) pic2_data ≡ P.inb s pic2_data)
        × (P.inb (P.outb s pic2_data v) pic1_data ≡ P.inb s pic1_data)

abbrev pub data_port : ℕ → ℕ
data_port irq = if pic_irq_is_primary irq then pic1_data else pic2_data

-- The mask bit of an interrupt line: 1 for masked.
abbrev pub mask_bit : (P : Ports) → P.State → ℕ → ℕ
mask_bit P s irq = bit (P.inb s (data_port irq)) (pic_irq_delta irq)

set_bit :
    (imr d i : ℕ) → i < 8 → bit (u8 (bit_or imr (2 ^ d))) i ≡ (if i == d then 1 else bit imr i)
set_bit imr d i h =
    let l = bit-lt imr i in
    rw (bit_cast 8 (bit_or imr (2 ^ d)) i h, bit-bit_or i imr (2 ^ d), bit-pow d i)
      (elim (Bool-cases (i == d)) [ inl e ↦ rw e (omega (arith, l)) | inr e ↦ rw e (omega arith) ])

clear_bit :
    (imr d i : ℕ)
    → i < 8
    → d < 8
    → 2 ^ d < 2 ^ 32
    → bit (u8 (bit_and imr (2 ^ 32 - 1 - 2 ^ d))) i ≡ (if i == d then 0 else bit imr i)
clear_bit imr d i h k small =
    let l = bit-lt imr i in
    rw
      (
        bit_cast 8 (bit_and imr (2 ^ 32 - 1 - 2 ^ d)) i h,
        bit-bit_and i imr (2 ^ 32 - 1 - 2 ^ d),
        bit_complement 32 i (2 ^ d) small (omega (arith, h)),
        bit-pow d i,
      )
      (elim (Bool-cases (i == d)) [ inl e ↦ rw e (omega arith) | inr e ↦ rw e (omega (arith, l)) ])

small_pow : (d : ℕ) → d < 8 → 2 ^ d < 2 ^ 32
small_pow d h =
    omega (arith, pow-le-pow_right {n = 2} (omega arith) {i = d} {j = 8} (omega (arith, h)))

same_test : (a b c d : ℕ) → (a ≡ b → c ≡ d) → (c ≡ d → a ≡ b) → (a == b) ≡ (c == d)
same_test a b c d f g = elim (Bool-cases (a == b)) [
  | inl e ↦ rw e (ground (arith, f (==→eq a b e)))
  | inr e ↦ rw e (elim (Bool-cases (c == d)) [
    | inl e' ↦ absurd (==→ne a b e (g (==→eq c d e')))
    | inr e' ↦ sym e'
  ])
]

module _ (P : Ports) (laws : Laws P) (change : ℕ → ℕ → ℕ)
    (bound : (imr d : ℕ) → change imr d < 256) where
  -- A read, a change and a write of the mask register of a line.
  abbrev pub changed : P.State → ℕ → P.State
  changed s irq =
      if pic_irq_is_primary irq
      then P.outb s pic1_data (change (P.inb s pic1_data) (pic_irq_delta irq))
      else P.outb s pic2_data (change (P.inb s pic2_data) (pic_irq_delta irq))

  -- It changes the bits of one controller as `change` does, and leaves the other controller.
  pub changed-mask_bit :
      (new : ℕ) (s : P.State) (irq line : ℕ)
      → ((imr d i : ℕ) → i < 8 → d < 8 → bit (change imr d) i ≡ (if i == d then new else bit imr i))
      → irq < 16
      → line < 16
      → mask_bit P (changed s irq) line ≡ (if line == irq then new else mask_bit P s line)
  changed-mask_bit new s irq line effect h k =
      let one = P.inb s pic1_data in
      let two = P.inb s pic2_data in
      elim (Bool-cases (ltb irq 8)) [
        | inl e ↦
            let small = ltb→lt irq 8 e in
            let v = change one (irq % 256) in
            elim (Bool-cases (ltb line 8)) [
              | inl e' ↦
                  let small' = ltb→lt line 8 e' in
                  let test =
                    same_test (line % 256) (irq % 256) line irq
                      (λ p. omega (arith, p, small, small')) (λ p. omega (arith, p)) in
                  rw (e, e', (laws.read_self s v (bound one (irq % 256))).0, ← test)
                    (effect one (irq % 256) (line % 256) (omega (arith, small'))
                      (omega (arith, small)))
              | inr e' ↦
                  let big' = ltb→le line 8 e' in
                  let test : (line == irq) ≡ false = ground (arith, big', small) in
                  rw (e, e', (laws.read_other s v).0, test) refl
            ]
        | inr e ↦
            let big = ltb→le irq 8 e in
            let v = change two ((irq - 8) % 256) in
            elim (Bool-cases (ltb line 8)) [
              | inl e' ↦
                  let small' = ltb→lt line 8 e' in
                  let test : (line == irq) ≡ false = ground (arith, big, small') in
                  rw (e, e', (laws.read_other s v).1, test) refl
              | inr e' ↦
                  let big' = ltb→le line 8 e' in
                  let test =
                    same_test ((line - 8) % 256) ((irq - 8) % 256) line irq
                      (λ p. omega (arith, p, big, big', h, k)) (λ p. omega (arith, p)) in
                  rw (e, e', (laws.read_self s v (bound two ((irq - 8) % 256))).1, ← test)
                    (effect two ((irq - 8) % 256) ((line - 8) % 256) (omega (arith, k))
                      (omega (arith, h)))
            ]
      ]

module _ (P : Ports) (laws : Laws P) where
  -- On controllers that read back their mask, for two of the 16 lines: `pic_set_mask` masks its own
  -- line and leaves the mask of any other.
  pic_set_mask-mask_bit :
      (s : P.State) (irq line : ℕ)
      → irq < 16
      → line < 16
      → mask_bit P (pic_set_mask P s irq) line ≡ (if line == irq then 1 else mask_bit P s line)
  unfolding pic_set_mask
  pic_set_mask-mask_bit s irq line h k =
      changed-mask_bit P laws (λ imr d. u8 (bit_or imr (2 ^ d))) (λ imr d. omega arith) 1 s irq line
        (λ imr d i below small. set_bit imr d i below) h k

  -- On controllers that read back their mask, for two of the 16 lines: `pic_clear_mask` unmasks its
  -- own line and leaves the mask of any other.
  pic_clear_mask-mask_bit :
      (s : P.State) (irq line : ℕ)
      → irq < 16
      → line < 16
      → mask_bit P (pic_clear_mask P s irq) line ≡ (if line == irq then 0 else mask_bit P s line)
  unfolding pic_clear_mask
  pic_clear_mask-mask_bit s irq line h k =
      changed-mask_bit P laws (λ imr d. u8 (bit_and imr (2 ^ 32 - 1 - 2 ^ d)))
        (λ imr d. omega arith) 0 s irq line
        (λ imr d i below small. clear_bit imr d i below small (small_pow d small)) h k

  -- On controllers that read back their mask, for two of the 16 lines: `pic_set_mask` masks its own
  -- line, `pic_clear_mask` unmasks it, and both leave the mask of any other line.
  pub pic_masks-mask_bit :
      (s : P.State) (irq line : ℕ)
      → irq < 16
      → line < 16
      → (mask_bit P (pic_set_mask P s irq) line ≡ (if line == irq then 1 else mask_bit P s line))
        × (mask_bit P (pic_clear_mask P s irq) line
            ≡ (if line == irq then 0 else mask_bit P s line))
  pic_masks-mask_bit s irq line h k =
      (pic_set_mask-mask_bit s irq line h k, pic_clear_mask-mask_bit s irq line h k)

  -- On controllers that read back their mask, every one of the 16 lines is masked after `pic_init`.
  pic_init-mask_bit : (s : P.State) (line : ℕ) → line < 16 → mask_bit P (pic_init P s) line ≡ 1
  unfolding pic_init
  pic_init-mask_bit s line h = elim (Bool-cases (ltb line 8)) [
    | inl e ↦
        let small = ltb→lt line 8 e in
        rw (e, (laws.read_other _ 255).1, (laws.read_self _ 255 (omega arith)).0)
          (bit_ones 8 (line % 256) (omega (arith, small)))
    | inr e ↦
        rw (e, (laws.read_self _ 255 (omega arith)).1)
          (bit_ones 8 ((line - 8) % 256) (omega (arith, h)))
  ]
