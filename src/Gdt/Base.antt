-- ===== src/Gdt/Base.antt =====
-- The TSS descriptor that `set_tss_desc` stores, the table of `gdt_init`, and what `tss_base_from_gdt`
-- reads back.
use chypervisor.Prelude.{
  ℕ, zero, suc, ==→ne, ◌+◌, ◌-◌, ◌*◌, ◌/◌, ◌%◌, ◌^◌, ◌<◌, ◌≡◌, refl, arith, ap, ◌∙◌,
}
use chypervisor.Prelude.{bit_and, add64, not64}
use chypervisor.Prelude.{true, false, ◌==◌, Bool-cases, inl, inr}
use chypervisor.Prelude.Bits.{bit_and_mask, bit_or_high, bit_and_high, bit_or-zero}
use chypervisor.Gdt.{make_desc, set_tss_desc, tss_base_from_gdt, Table, set_entry, tss_access}
use chypervisor.Gdt.{Segments, gdt_init, kernel_tss_idx, kernel_cs_idx, kernel_ds_idx, clear_words}
use chypervisor.Gdt.{tss_bytes}
use chypervisor.Gdt.Layout.{base_of, limit_of, access_of, flags_of, make_desc-sum, make_desc_parts}

abbrev pub Holds : Table → ℕ → ℕ → ℕ → Type 0
Holds gdt index base limit =
    (base_of (gdt index) + gdt (index + 1) * 2 ^ 32 ≡ base)
    × (limit_of (gdt index) ≡ limit)
    × (access_of (gdt index) ≡ 0x89)
    × (flags_of (gdt index) ≡ 0)
    × (gdt (index + 1) < 2 ^ 32)

pub same_eq : (i : ℕ) → (i == i) ≡ true
same_eq i = ground arith

pub next_eq : (i : ℕ) → (i == i + 1) ≡ false
next_eq i = ground arith

-- The two entries that `set_tss_desc` writes.
pub set_tss_desc-low :
    (index base limit : ℕ) (gdt : Table)
    → set_tss_desc index base limit gdt index ≡ make_desc (base % 2 ^ 32) limit tss_access 0
unfolding set_tss_desc make_desc
set_tss_desc-low index base limit gdt =
    let cut : base % 2 ^ 32 % 2 ^ 32 ≡ base % 2 ^ 32 = omega arith in
    rw (next_eq index, same_eq index, bit_and_mask 32 base, cut) refl

pub set_tss_desc-high :
    (index base limit : ℕ) (gdt : Table)
    → set_tss_desc index base limit gdt (index + 1) ≡ base / 2 ^ 32 % 2 ^ 32
unfolding set_tss_desc
set_tss_desc-high index base limit gdt =
    rw (same_eq (index + 1), bit_and_mask 32 (base / 2 ^ 32)) (omega arith)

-- For a 64-bit base and a 20-bit limit, the 16-byte descriptor holds the whole base and limit, and the
-- access byte of a present, available 64-bit TSS with its flags clear.
set_tss_desc-Holds :
    (index base limit : ℕ) (gdt : Table)
    → base < 2 ^ 64
    → limit < 2 ^ 20
    → Holds (set_tss_desc index base limit gdt) index base limit
set_tss_desc-Holds index base limit gdt hb hl =
    let t = set_tss_desc index base limit gdt in
    let (b, l, a, f) =
      make_desc_parts (base % 2 ^ 32) limit tss_access 0 (omega arith) hl (omega arith)
        (omega arith) in
    let low = set_tss_desc-low index base limit gdt in
    let high = set_tss_desc-high index base limit gdt in
    rw (low, high, b, l, a, f) (omega arith, refl, refl, refl, omega arith)

-- When memory holds, where the task register points, the two entries that `set_tss_desc` writes for a
-- 64-bit base and a 20-bit limit, `tss_base_from_gdt` keeps bits 23:0 of the base and puts bits 39:32
-- in place of bits 31:24; bits 63:40 are lost.
pub tss_base_from_gdt-set_tss_desc :
    (load64 : ℕ → ℕ) (gdtr_base tr index base limit : ℕ) (gdt : Table)
    → base < 2 ^ 64
    → limit < 2 ^ 20
    → load64 (add64 gdtr_base (bit_and tr (not64 7))) ≡ set_tss_desc index base limit gdt index
    → load64 (add64 (add64 gdtr_base (bit_and tr (not64 7))) 8)
      ≡ set_tss_desc index base limit gdt (index + 1)
    → tss_base_from_gdt load64 tr gdtr_base ≡ base % 2 ^ 24 + base / 2 ^ 32 % 2 ^ 8 * 2 ^ 24
unfolding tss_base_from_gdt
tss_base_from_gdt-set_tss_desc load64 gdtr_base tr index base limit gdt hb hl h0 h1 =
    let low =
      h0
      ∙ set_tss_desc-low index base limit gdt
      ∙ make_desc-sum (base % 2 ^ 32) limit tss_access 0 in
    let high = h1 ∙ set_tss_desc-high index base limit gdt in
    let lo = load64 (add64 gdtr_base (bit_and tr (not64 7))) in
    let hi = load64 (add64 (add64 gdtr_base (bit_and tr (not64 7))) 8) in
    let a : bit_and (lo / 2 ^ 16) 0xFFFFFF ≡ base % 2 ^ 24 =
      bit_and_mask 24 (lo / 2 ^ 16) ∙ omega (arith, low) in
    let b : bit_and hi 0xFF ≡ base / 2 ^ 32 % 2 ^ 8 = bit_and_mask 8 hi ∙ omega (arith, high) in
    let zero_high : hi / 2 ^ 32 ≡ 0 = omega (arith, high) in
    let c : bit_and hi 0xFFFFFFFF00000000 ≡ 0 =
      bit_and_high 32 32 hi (omega (arith, zero_high)) ∙ ap (λ x. x * 2 ^ 32) zero_high in
    let r = base % 2 ^ 24 + base / 2 ^ 32 % 2 ^ 8 * 2 ^ 24 in
    rw (a, b, c, bit_or_high 24 (base / 2 ^ 32 % 2 ^ 8) (base % 2 ^ 24) (omega arith))
      (bit_or-zero r r (omega arith))

pub clear_words-zero : (n : ℕ) (words : Table) (i : ℕ) → i < n → clear_words n words i ≡ 0
unfolding clear_words
clear_words-zero zero words i h = omega (arith, h)
clear_words-zero (suc n) words i h = elim (Bool-cases (i == n)) [
  | inl e ↦ rw e refl
  | inr e ↦ rw e (clear_words-zero n words i (omega (arith, h, ==→ne i n e)))
]

-- For a TSS at a 64-bit address, `gdt_init` leaves a null descriptor, descriptors with the access
-- bytes of kernel data and code and the flags of 64-bit code, and the TSS, in the entries that the
-- loaded selectors name; GDTR covers the eight entries, and the TSS is 0 but for the
-- `iomap_base` in the upper 16 bits of its last quadword, which is its size.
pub gdt_init-Segments :
    (gdt_address tss_address : ℕ) (s : Segments)
    → tss_address < 2 ^ 64
    → let r = gdt_init gdt_address tss_address s in
      (r.gdt 0 ≡ 0)
      × (access_of (r.gdt (r.data_selector / 8)) ≡ 0x92)
      × (access_of (r.gdt (r.code_selector / 8)) ≡ 0x9A)
      × (flags_of (r.gdt (r.code_selector / 8)) ≡ 0xA)
      × Holds r.gdt (r.task_selector / 8) tss_address (tss_bytes - 1)
      × (r.gdtr_limit + 1 ≡ 64)
      × (r.gdtr_base ≡ gdt_address)
      × ((i : ℕ) → i < 12 → r.tss_words i ≡ 0)
      × (r.tss_words 12 ≡ 104 * 2 ^ 48)
unfolding gdt_init set_tss_desc make_desc
gdt_init-Segments gdt_address tss_address s h =
    let code = make_desc 0 0xFFFFF 0x9A 0xA in
    let flat = make_desc 0 0xFFFFF 0x92 0xC in
    let table = set_entry kernel_cs_idx code (set_entry kernel_ds_idx flat (set_entry 0 0 s.gdt)) in
    let task =
      set_tss_desc-Holds kernel_tss_idx tss_address (tss_bytes - 1) table h (omega arith) in
    (
      refl,
      refl,
      refl,
      refl,
      task,
      refl,
      refl,
      (λ i below.
          let other : (i == 12) ≡ false = ground (arith, below) in
          rw other (clear_words-zero (tss_bytes / 8) s.tss_words i (omega (arith, below)))),
      rw (clear_words-zero (tss_bytes / 8) s.tss_words 12 (omega arith)) refl,
    )
