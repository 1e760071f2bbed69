-- ===== src/Paging/Direct.antt =====
-- The direct map of `map_direct_region_1g` (paging.c): what its entries say and where they lead.
use chypervisor.Prelude.{
  ℕ, zero, suc, ◌+◌, ◌*◌, ◌/◌, ◌%◌, ◌^◌, ◌<◌, ◌≤◌, ◌≡◌, Bool, true, false, refl, sym, ap, ◌∙◌,
}
use chypervisor.Prelude.{
  arith, bit_and, bit_or, not64, ◌==◌, ==-refl, ==→eq, ==→ne, not, some, ◌∷◌, [],
}
use chypervisor.Prelude.{◌<<<◌, Bool-cases, inl, inr}
use chypervisor.Prelude.Bits.{
  bit-bit_and, bit-bit_or, bit_ext, bit_and_high, bit_and-zero, bit_or-zero,
}
use chypervisor.Paging.Table.{
  Memory, walk_from, walk_step, is_present, is_large, flags_of, index_at,
}
use chypervisor.Paging.Table.{pte_addr_mask, pte_p, pte_ps, pt_from_pte}
use chypervisor.Paging.Entry.{bit_and_assoc}
use chypervisor.Paging.Reconstruct.{direct_pte, direct_link, fill_1g, set_entry}

-- `&` distributes over `|`.
bit_and_or : (a b m : ℕ) → bit_and (bit_or a b) m ≡ bit_or (bit_and a m) (bit_and b m)
bit_and_or a b m = bit_ext _ _ λ i.
    rw
      (
        bit-bit_and i (bit_or a b) m,
        bit-bit_or i a b,
        bit-bit_or i (bit_and a m) (bit_and b m),
        bit-bit_and i a m,
        bit-bit_and i b m,
      )
      (omega arith)

link_bits :
    (pa m : ℕ)
    → bit_and (direct_link pa) m
      ≡ bit_or
          (bit_or
            (bit_or
              (bit_or (bit_or (bit_and pa (bit_and pte_addr_mask m)) (bit_and 1 m)) (bit_and 2 m))
              (bit_and 32 m))
            (bit_and 256 m))
          (bit_and (2 ^ 63) m)
link_bits pa m = rw (bit_and_or, bit_and_or, bit_and_or, bit_and_or, bit_and_or, bit_and_assoc) refl

none_in : (x : ℕ) → bit_and x 0 ≡ 0
none_in x = bit_and-zero x x (omega arith)

pub link_present : (pa : ℕ) → is_present (direct_link pa) ≡ true
link_present pa =
    let e : bit_and (direct_link pa) pte_p ≡ 1 = link_bits pa pte_p ∙ rw (none_in pa) refl in
    ap (λ x. not (x == 0)) e

pub link_flags : (pa : ℕ) → flags_of (direct_link pa) ≡ 0x8000000000000123
link_flags pa = link_bits pa (not64 pte_addr_mask) ∙ rw (none_in pa) refl

pub link_target : (pa : ℕ) → bit_and (direct_link pa) pte_addr_mask ≡ bit_and pa pte_addr_mask
link_target pa =
    let or_none : (x : ℕ) → bit_or x 0 ≡ x = λ x. bit_or-zero x x (omega arith) in
    link_bits pa pte_addr_mask ∙ rw (or_none, or_none, or_none, or_none, or_none) refl

pte_bits :
    (l3 m : ℕ)
    → bit_and (direct_pte l3) m
      ≡ bit_or (bit_and (l3 <<< 30) (bit_and pte_addr_mask m)) (bit_and 0x1A3 m)
pte_bits l3 m = rw (bit_and_or, bit_and_assoc) refl

pub pte_present : (l3 : ℕ) → is_present (direct_pte l3) ≡ true
pte_present l3 =
    let e : bit_and (direct_pte l3) pte_p ≡ 1 = pte_bits l3 pte_p ∙ rw (none_in (l3 <<< 30)) refl in
    ap (λ x. not (x == 0)) e

pub pte_large : (l3 : ℕ) → is_large (direct_pte l3) ≡ true
pte_large l3 =
    let e : bit_and (direct_pte l3) pte_ps ≡ 128 =
      pte_bits l3 pte_ps ∙ rw (none_in (l3 <<< 30)) refl in
    ap (λ x. not (x == 0)) e

pub pte_flags : (l3 : ℕ) → flags_of (direct_pte l3) ≡ 0x1A3
pte_flags l3 = pte_bits l3 (not64 pte_addr_mask) ∙ rw (none_in (l3 <<< 30)) refl

pub pte_target : (l3 : ℕ) → l3 < 512 → bit_and (direct_pte l3) pte_addr_mask ≡ l3 <<< 30
pte_target l3 below =
    let or_none : (x : ℕ) → bit_or x 0 ≡ x = λ x. bit_or-zero x x (omega arith) in
    pte_bits l3 pte_addr_mask
    ∙ or_none (bit_and (l3 <<< 30) pte_addr_mask)
    ∙ bit_and_high 40 12 (l3 <<< 30) (omega arith)
    ∙ omega arith

-- The loop writes one table, and each entry of it once.
pub fill_1g-other :
    (lv3 l3 left : ℕ) (mem : Memory) (q j : ℕ)
    → (q == lv3) ≡ false
    → fill_1g lv3 l3 left mem q j ≡ mem q j
unfolding fill_1g
fill_1g-other lv3 l3 zero mem q j e = refl
fill_1g-other lv3 l3 (suc left) mem q j e =
    fill_1g-other lv3 (l3 + 1) left (set_entry lv3 l3 (direct_pte l3) mem) q j e ∙ rw e refl

fill_1g-before :
    (lv3 l3 left : ℕ) (mem : Memory) (j : ℕ) → j < l3 → fill_1g lv3 l3 left mem lv3 j ≡ mem lv3 j
unfolding fill_1g
fill_1g-before lv3 l3 zero mem j h = refl
fill_1g-before lv3 l3 (suc left) mem j h =
    let e : (j == l3) ≡ false = ground arith in
    fill_1g-before lv3 (l3 + 1) left (set_entry lv3 l3 (direct_pte l3) mem) j (omega arith)
    ∙ rw (==-refl lv3, e) refl

pub fill_1g-at :
    (lv3 l3 left : ℕ) (mem : Memory) (j : ℕ)
    → l3 ≤ j
    → j < l3 + left
    → fill_1g lv3 l3 left mem lv3 j ≡ direct_pte j
unfolding fill_1g
fill_1g-at lv3 l3 zero mem j lo hi = absurd (omega arith)
fill_1g-at lv3 l3 (suc left) mem j lo hi = elim (Bool-cases (j == l3)) [
  | inl e ↦
      fill_1g-before lv3 (l3 + 1) left (set_entry lv3 l3 (direct_pte l3) mem) j (ground arith)
      ∙ rw (==-refl lv3, e) (ap direct_pte (sym (==→eq j l3 e)))
  | inr e ↦
      fill_1g-at lv3 (l3 + 1) left (set_entry lv3 l3 (direct_pte l3) mem) j
        (ground (arith, ==→ne j l3 e)) (omega arith)
]

-- A walk through an entry of the top level and the table that the loop has filled.
pub direct_walk :
    (r : Bool) (mem : Memory) (lv4 lv3 pa va : ℕ)
    → mem lv4 (index_at 3 va) ≡ direct_link pa
    → pt_from_pte r (direct_link pa) ≡ lv3
    → ((j : ℕ) → j < 512 → mem lv3 j ≡ direct_pte j)
    → walk_from r mem 3 lv4 va ≡ some (va % 2 ^ 39, 0x8000000000000123 ∷ 0x1A3 ∷ [])
direct_walk r mem lv4 lv3 pa va top child table =
    let i = index_at 2 va in
    let below : i < 512 = omega arith in
    let lower : walk_from r mem 2 lv3 va ≡ some (va % 2 ^ 39, 0x1A3 ∷ []) =
      ap (λ pte. walk_step 1 pte (walk_from r mem 1 (pt_from_pte r pte) va) va) (table i below)
      ∙ rw (pte_present i, pte_large i)
          (let to : bit_and (direct_pte i) pte_addr_mask / 2 ^ 30 * 2 ^ 30 + va % 2 ^ 30
                ≡ va % 2 ^ 39 =
              rw (pte_target i below) (omega arith) in
            rw (to, pte_flags i) refl) in
    ap (λ pte. walk_step 2 pte (walk_from r mem 2 (pt_from_pte r pte) va) va) top
    ∙ ap (λ p. walk_step 2 (direct_link pa) (walk_from r mem 2 p va) va) child
    ∙ ap (λ t. walk_step 2 (direct_link pa) t va) lower
    ∙ rw (link_present pa, link_flags pa) refl
