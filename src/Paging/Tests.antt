-- ===== src/Paging/Tests.antt =====
-- The switch to new tables at a concrete state.
use chypervisor.Prelude.{ℕ, ◌+◌, ◌≡◌, true, false, refl, arith, ◌==◌, if◌then◌else◌, inl, inr}
use chypervisor.Prelude.{Bool-cases, some, ◌∷◌, [], ◌∙◌, sym}
use chypervisor.Paging.{virt2phys, phys2virt}
use chypervisor.Paging.Reconstruct.{
  Pages, alloc_pt_zeroed, map_direct_region_1g, each_entry, clone_kernel_upper_half, fill_1g,
  clone_table,
}
use chypervisor.Paging.Table.{Tables, refers, walk_from}
use chypervisor.Paging.Reconstruct.{Machine, paging_reconstruct, paging_reconstruct_and_mark}
use chypervisor.Paging.Switch.{root_table}
use chypervisor.Paging.Space.{
  Switched, paging_reconstruct_lem, paging_reconstruct_and_mark-phys2virt,
}
use chypervisor.Paging.Kernel.{kernel_pages, kernel_pages-Laws, Used}
use chypervisor.PageAlloc.{PageAllocator, bm_get}
use chypervisor.PageAlloc.Alloc.{IsValid}

-- Frames 1, 2 and 5 are used; the managed range is [1, 4096).
abbrev busy : PageAllocator
busy = record { bitmap = λ l. if l == 0 then 0x27 else 0; frame_begin = 1; frame_end = 4096 }

busy-IsValid : IsValid busy
busy-IsValid = omega arith

-- Entry 511 of the top level, in frame 1, points to the table in frame 2, whose entry 510 maps 1 GiB.
abbrev boot : Machine (kernel_pages false)
boot = record {
  mem = λ q j.
      if q == 0x1000
      then (if j == 511 then 0x2003 else 0)
      else (if q == 0x2000 then (if j == 510 then 0x40000083 else 0) else 0);
  pages = (busy, busy-IsValid);
  cr3 = 0x1000;
  reconstructed = false;
}

abbrev Owned : ℕ → Type 0
Owned = Used false boot.pages

first-Owned : Owned 0x1000
unfolding bm_get phys2virt
first-Owned = (1, omega arith, refl, refl)

second-Owned : Owned 0x2000
unfolding bm_get phys2virt
second-Owned = (2, omega arith, refl, refl)

boot_lower-Tables : Tables false Owned boot.mem 2 0x2000
boot_lower-Tables = (
  second-Owned,
  λ i below ref. elim (Bool-cases (i == 510)) [
    | inl e ↦
        let no_table : refers 1 (boot.mem 0x2000 i) ≡ false = rw e refl in
        absurd (ground (arith, sym no_table ∙ ref))
    | inr e ↦
        let no_table : refers 1 (boot.mem 0x2000 i) ≡ false = rw e refl in
        absurd (ground (arith, sym no_table ∙ ref))
  ],
)

boot-Tables : Tables false Owned boot.mem 3 (root_table (kernel_pages-Laws false) boot)
unfolding phys2virt
boot-Tables = (
  first-Owned,
  λ i below ref. elim (Bool-cases (i == 511)) [
    | inl e ↦ rw e boot_lower-Tables
    | inr e ↦
        let no_table : refers 2 (boot.mem 0x1000 i) ≡ false = rw e refl in
        absurd (ground (arith, sym no_table ∙ ref))
  ],
)

paging_reconstruct_lem_example :
    Switched (kernel_pages-Laws false) boot (paging_reconstruct (kernel_pages false) boot)
paging_reconstruct_lem_example =
    paging_reconstruct_lem (kernel_pages-Laws false) boot refl boot-Tables

abbrev root_of : Machine (kernel_pages false) → ℕ
root_of s = root_table (kernel_pages-Laws false) s

paging_reconstruct_and_mark-phys2virt_example :
    let (ok, t) = paging_reconstruct_and_mark (kernel_pages false) boot in
    (ok ≡ true
      → (t.reconstructed ≡ true)
        × (walk_from false t.mem 3 (root_of t) (phys2virt t.reconstructed 0x123456)
            ≡ some (0x123456, 0x8000000000000123 ∷ 0x1A3 ∷ [])))
    × (ok ≡ false → (t.reconstructed ≡ false) × (t.cr3 ≡ 0x1000))
paging_reconstruct_and_mark-phys2virt_example =
    paging_reconstruct_and_mark-phys2virt (kernel_pages-Laws false) boot refl boot-Tables 0x123456
      (omega arith)

-- With pages to hand out the switch succeeds: here they are the frames from 0x10000 on.
abbrev counted : Pages
counted = record { State = ℕ; page_alloc_4k_aligned = λ n. (n, n + 0x1000) }

abbrev counted_boot : Machine counted
counted_boot = record { mem = boot.mem; pages = 0x10000; cr3 = 0x1000; reconstructed = false }

paging_reconstruct-counted :
    let (ok, t) = paging_reconstruct_and_mark counted counted_boot in
    (ok ≡ true) × (t.cr3 ≡ 0x10000) × (t.pages ≡ 0x13000) × (t.mem 0x10000 511 ≡ 0x12003)
unfolding paging_reconstruct_and_mark paging_reconstruct alloc_pt_zeroed map_direct_region_1g
    each_entry clone_kernel_upper_half fill_1g clone_table phys2virt virt2phys
paging_reconstruct-counted = (refl, refl, refl, refl)
