-- ===== src/Paging/Entry.antt =====
-- An entry that points to a new table and keeps the other bits of an old one.
use chypervisor.Prelude.{
  ℕ, ◌-◌, ◌%◌, ◌^◌, ◌<◌, ◌≡◌, refl, sym, ap, ◌∙◌, arith, min, bit_and, bit_or, not64, not, ◌==◌,
}
use chypervisor.Prelude.{ltb, ltb→lt, ltb→le, Bool-cases, inl, inr}
use chypervisor.Prelude.Bits.{
  bit, bit-lt, bit-bit_and, bit-bit_or, bit_ext, bit_above, bit_complement,
}
use chypervisor.Paging.Table.{
  pte_addr_mask, pte_from_pa, flags_of, is_present, is_large, pte_p, pte_ps,
}

pub bit_and_assoc : (a b c : ℕ) → bit_and (bit_and a b) c ≡ bit_and a (bit_and b c)
bit_and_assoc a b c = bit_ext _ _ λ i.
    rw
      (
        bit-bit_and i (bit_and a b) c,
        bit-bit_and i a b,
        bit-bit_and i a (bit_and b c),
        bit-bit_and i b c,
      )
      (omega arith)

-- A mask and its complement on 64 bits have no bit in common, and share the low 64 bits between them.
mask_bits : (m i : ℕ) → m < 2 ^ 64 → (min (bit m i) (bit (not64 m) i) ≡ 0)
mask_bits m i h = elim (Bool-cases (ltb i 64)) [
  | inl e ↦
      let low : m ≡ m % 2 ^ 64 = omega arith in
      let c : bit (not64 m) i ≡ 1 - bit m i =
        rw (← low) (bit_complement 64 i m h (ltb→lt i 64 e)) in
      omega (arith, c, bit-lt m i)
  | inr e ↦ omega (arith, bit_above 64 m i h (ltb→le i 64 e))
]

module _ (m pa pte : ℕ) (h : m < 2 ^ 64) where
  joined_keep : bit_and (bit_or (bit_and pa m) (bit_and pte (not64 m))) m ≡ bit_and pa m
  joined_keep = bit_ext _ _ λ i.
      rw
        (
          bit-bit_and i (bit_or (bit_and pa m) (bit_and pte (not64 m))) m,
          bit-bit_or i (bit_and pa m) (bit_and pte (not64 m)),
          bit-bit_and i pa m,
          bit-bit_and i pte (not64 m),
        )
        (omega (arith, mask_bits m i h))

  joined_rest :
      bit_and (bit_or (bit_and pa m) (bit_and pte (not64 m))) (not64 m) ≡ bit_and pte (not64 m)
  joined_rest = bit_ext _ _ λ i.
      rw
        (
          bit-bit_and i (bit_or (bit_and pa m) (bit_and pte (not64 m))) (not64 m),
          bit-bit_or i (bit_and pa m) (bit_and pte (not64 m)),
          bit-bit_and i pa m,
          bit-bit_and i pte (not64 m),
        )
        (omega (arith, mask_bits m i h))

-- `pte_from_pa(pa) | (pte & ~PTE_ADDR_MASK)`
abbrev pub link : ℕ → ℕ → ℕ
link pa pte = bit_or (pte_from_pa pa) (flags_of pte)

pub link-address : (pa pte : ℕ) → bit_and (link pa pte) pte_addr_mask ≡ bit_and pa pte_addr_mask
link-address pa pte = joined_keep pte_addr_mask pa pte (omega arith)

pub link-flags_of : (pa pte : ℕ) → flags_of (link pa pte) ≡ flags_of pte
link-flags_of pa pte = joined_rest pte_addr_mask pa pte (omega arith)

same_flag :
    (a b f : ℕ)
    → bit_and (not64 pte_addr_mask) f ≡ f
    → flags_of a ≡ flags_of b
    → bit_and a f ≡ bit_and b f
same_flag a b f inside e =
    ap (bit_and a) (sym inside)
    ∙ sym (bit_and_assoc a (not64 pte_addr_mask) f)
    ∙ ap (λ x. bit_and x f) e
    ∙ bit_and_assoc b (not64 pte_addr_mask) f
    ∙ ap (bit_and b) inside

pub link-is_present : (pa pte : ℕ) → is_present (link pa pte) ≡ is_present pte
link-is_present pa pte =
    ap (λ x. not (x == 0)) (same_flag (link pa pte) pte pte_p refl (link-flags_of pa pte))

pub link-is_large : (pa pte : ℕ) → is_large (link pa pte) ≡ is_large pte
link-is_large pa pte =
    ap (λ x. not (x == 0)) (same_flag (link pa pte) pte pte_ps refl (link-flags_of pa pte))
