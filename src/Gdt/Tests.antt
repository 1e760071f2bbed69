-- ===== src/Gdt/Tests.antt =====
-- Runs of gdt.c on small inputs.
use chypervisor.Prelude.{ℕ, ◌+◌, ◌*◌, ◌/◌, ◌%◌, ◌^◌, ◌<◌, ◌≡◌, refl, arith}
use chypervisor.Prelude.{if◌then◌else◌, ◌==◌}
use chypervisor.Gdt.{set_tss_desc, tss_base_from_gdt, Segments, gdt_init, Table}
use chypervisor.Gdt.Layout.{access_of, flags_of}
use chypervisor.Gdt.Base.{Holds, tss_base_from_gdt-set_tss_desc, gdt_init-Segments}

abbrev empty_table : Table
empty_table i = 0

abbrev reset : Segments
reset = record {
  gdt = empty_table;
  tss_words = empty_table;
  gdtr_limit = 0;
  gdtr_base = 0;
  data_selector = 0;
  code_selector = 0;
  task_selector = 0;
}

abbrev tss_at : ℕ
tss_at = 0xFFFFFFFF80123450

-- A memory that holds the two entries of the TSS descriptor, with the table at 0x1000.
abbrev memory : ℕ → ℕ
memory a =
    if a == 0x1018
    then set_tss_desc 3 tss_at 103 empty_table 3
    else (if a == 0x1020 then set_tss_desc 3 tss_at 103 empty_table (3 + 1) else 0)

tss_base_from_gdt-set_tss_desc_example :
    tss_base_from_gdt memory 0x18 0x1000 ≡ tss_at % 2 ^ 24 + tss_at / 2 ^ 32 % 2 ^ 8 * 2 ^ 24
tss_base_from_gdt-set_tss_desc_example =
    tss_base_from_gdt-set_tss_desc memory 0x1000 0x18 3 tss_at 103 empty_table (omega arith)
      (omega arith) refl refl

gdt_init-Segments_example :
    let r = gdt_init 0xFFFFFFFF80100000 tss_at reset in
    (r.gdt 0 ≡ 0)
    × (access_of (r.gdt (r.data_selector / 8)) ≡ 0x92)
    × (access_of (r.gdt (r.code_selector / 8)) ≡ 0x9A)
    × (flags_of (r.gdt (r.code_selector / 8)) ≡ 0xA)
    × Holds r.gdt (r.task_selector / 8) tss_at 103
    × (r.gdtr_limit + 1 ≡ 64)
    × (r.gdtr_base ≡ 0xFFFFFFFF80100000)
    × ((i : ℕ) → i < 12 → r.tss_words i ≡ 0)
    × (r.tss_words 12 ≡ 104 * 2 ^ 48)
gdt_init-Segments_example = gdt_init-Segments 0xFFFFFFFF80100000 tss_at reset (omega arith)
