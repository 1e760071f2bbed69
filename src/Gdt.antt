-- ===== src/Gdt.antt =====
-- kernel/arch/x86/gdt.c and gdt.h: segment descriptors, the table that `gdt_init` builds, and the
-- reading of a TSS base back from it. The table is a function from index to entry, with room for the
-- eight entries of the source; the processor's segment registers, GDTR and TR are fields of the state.
use chypervisor.Prelude.{ℕ, zero, suc, ◌+◌, ◌-◌, ◌*◌, ◌/◌, ◌%◌, ◌^◌, bit_and, bit_or, ◌<<<◌, ◌>>>◌}
use chypervisor.Prelude.{u8, u16, u32, u64, add64, not64, ◌==◌, if◌then◌else◌}
pub mod Layout
pub mod Base
mod Tests

abbrev pub kernel_ds_idx : ℕ
kernel_ds_idx = 0x01

abbrev pub kernel_cs_idx : ℕ
kernel_cs_idx = 0x02

abbrev pub kernel_tss_idx : ℕ
kernel_tss_idx = 0x03

abbrev pub gdt_max : ℕ
gdt_max = 8

-- `sizeof(tss64_t)`: one 32-bit word, twelve 64-bit words and two 16-bit words, packed.
abbrev pub tss_bytes : ℕ
tss_bytes = 4 + 12 * 8 + 2 * 2

unfoldable pub make_desc : ℕ → ℕ → ℕ → ℕ → ℕ
make_desc base limit access flags_nib =
    let d0 = bit_and limit 0xFFFF in
    let d1 = bit_or d0 (bit_and base 0xFFFFFF <<< 16) in
    let d2 = bit_or d1 (u8 access <<< 40) in
    let d3 = bit_or d2 (bit_and (limit >>> 16) 0xF <<< 48) in
    let d4 = bit_or d3 (bit_and flags_nib 0xF <<< 52) in
    bit_or d4 (bit_and (base >>> 24) 0xFF <<< 56)

abbrev pub make_code64_desc : ℕ
make_code64_desc = make_desc 0 0xFFFFF 0x9A 0xA

abbrev pub make_data_desc : ℕ
make_data_desc = make_desc 0 0xFFFFF 0x92 0xC

-- The access byte of an available 64-bit TSS.
abbrev pub tss_access : ℕ
tss_access = u8 (bit_or (bit_or (1 <<< 7) (0 <<< 5)) (bit_or (0 <<< 4) (bit_and 0x9 0xF)))

abbrev pub Table : Type 0
Table = ℕ → ℕ

abbrev pub set_entry : ℕ → ℕ → Table → Table
set_entry i v gdt j = if j == i then v else gdt j

unfoldable pub set_tss_desc : ℕ → ℕ → ℕ → Table → Table
set_tss_desc index base limit gdt =
    let base_lo = u32 (bit_and base 0xFFFFFFFF) in
    let base_hi = u32 (bit_and (base >>> 32) 0xFFFFFFFF) in
    let l0 = bit_and limit 0xFFFF in
    let l1 = bit_or l0 (bit_and base_lo 0xFFFFFF <<< 16) in
    let l2 = bit_or l1 (tss_access <<< 40) in
    let l3 = bit_or l2 (bit_and (limit >>> 16) 0xF <<< 48) in
    let l4 = bit_or l3 (bit_and 0x0 0xF <<< 52) in
    let low = bit_or l4 (bit_and (base_lo >>> 24) 0xFF <<< 56) in
    set_entry (index + 1) base_hi (set_entry index low gdt)

-- `tss_base_from_gdt`, over the loads from memory; `gdtr_base` is the base in the GDTR.
unfoldable pub tss_base_from_gdt : (ℕ → ℕ) → ℕ → ℕ → ℕ
tss_base_from_gdt load64 tr gdtr_base =
    let idx = bit_and tr (not64 7) in
    let low = load64 (add64 gdtr_base idx) in
    let high = load64 (add64 (add64 gdtr_base idx) 8) in
    bit_or (bit_or (bit_and (low >>> 16) 0xFFFFFF) (bit_and high 0xFF <<< 24))
      (bit_and high 0xFFFFFFFF00000000)

abbrev pub sel_gdt : ℕ → ℕ → ℕ
sel_gdt index rpl = u16 (bit_or (index <<< 3) (bit_and rpl 0x3))

-- What `gdt_init` writes: the table, the TSS as its quadwords, and the registers.
pub record Segments : Type 0 where
  pub gdt : Table
  pub tss_words : Table
  pub gdtr_limit : ℕ
  pub gdtr_base : ℕ
  pub data_selector : ℕ
  pub code_selector : ℕ
  pub task_selector : ℕ

-- The loop that clears the whole quadwords of the TSS.
unfoldable pub clear_words : ℕ → Table → Table
clear_words zero words = words
clear_words (suc n) words = set_entry n 0 (clear_words n words)

-- `iomap_base` is bytes 102 and 103 of the TSS, the upper 16 bits of its last quadword.
abbrev pub set_iomap_base : ℕ → Table → Table
set_iomap_base v words i = if i == 12 then words 12 % 2 ^ 48 + v * 2 ^ 48 else words i

-- `gdt_init`, over the addresses that the linker gives to `gdt` and `g_tss`.
unfoldable pub gdt_init : ℕ → ℕ → Segments → Segments
gdt_init gdt_address tss_address s =
    let g0 = set_entry 0 0 s.gdt in
    let g1 = set_entry kernel_ds_idx make_data_desc g0 in
    let g2 = set_entry kernel_cs_idx make_code64_desc g1 in
    record {
      gdt = set_tss_desc kernel_tss_idx tss_address (u32 (tss_bytes - 1)) g2;
      tss_words = set_iomap_base (u16 tss_bytes) (clear_words (tss_bytes / 8) s.tss_words);
      gdtr_limit = u16 (gdt_max * 8 - 1);
      gdtr_base = gdt_address;
      data_selector = sel_gdt kernel_ds_idx 0;
      code_selector = sel_gdt kernel_cs_idx 0;
      task_selector = sel_gdt kernel_tss_idx 0;
    }
