-- ===== src/KernelLoader/Tests.antt =====
-- Runs of kernel_loader.c.
use chypervisor.Prelude.{◌+◌, ◌*◌, ◌/◌, ◌%◌, ◌≡◌, refl, arith, true, List, [], ◌∷◌, sub64}
use mathlib.Core.List.{map}
use chypervisor.BootPage.{is_success}
use chypervisor.KernelLoader.{efi_ok, file_read_at}
use chypervisor.KernelLoader.Headers.{Ehdr, Phdr, ehdr_at}
use chypervisor.KernelLoader.Image.{
  no_range, range_of, page_size, load_kernel_elf, load_segments, load_range, with_services,
  map_segments,
}
use chypervisor.KernelLoader.Ideal.{
  content, file_bytes, firmware, position, firmware-IsReliable, firmware-SetsMemory, memory, sample,
  state_of,
}
use chypervisor.KernelLoader.Read.{Reads, file_read_at-Reads}
use chypervisor.KernelLoader.Segments.{AreSegments, AllLoads, LoadsAll, load_segments-LoadsAll}
use chypervisor.KernelLoader.Ending.{EndsSome, load_range-Ends}
use chypervisor.KernelLoader.Extent.{Covers, range_of-bounds}
use chypervisor.KernelLoader.Total.{IsGiven, load_kernel_elf-IsGiven}

-- Code, and data with a zeroed end.
abbrev code_header : Phdr
code_header = record {
  p_type = 1;
  p_flags = 5;
  p_offset = 64;
  p_vaddr = 0xFFFFFFFF80200000;
  p_paddr = 0x200000;
  p_filesz = 56;
  p_memsz = 0x1800;
  p_align = 0x1000;
}

abbrev data_header : Phdr
data_header = record {
  p_type = 1;
  p_flags = 6;
  p_offset = 100;
  p_vaddr = 0xFFFFFFFF80202000;
  p_paddr = 0x202000;
  p_filesz = 0x10;
  p_memsz = 0x1010;
  p_align = 0x1000;
}

abbrev headers : List Phdr
headers = code_header ∷ data_header ∷ []

headers-AreSegments : AreSegments file_bytes headers
headers-AreSegments =
    (λ e. omega arith, λ e. (λ e'. omega arith, tt), (λ e. omega arith, λ e. tt, tt))

file_read_at-Reads_example :
    Reads firmware content file_bytes 100 0x20 (file_read_at firmware 100 0x20 (7, 2))
file_read_at-Reads_example =
    file_read_at-Reads firmware content file_bytes position firmware-IsReliable 100 0x20 (7, 2)
      (omega arith) (omega arith)

load_segments-LoadsAll_example :
    LoadsAll firmware firmware-SetsMemory content file_bytes position firmware-IsReliable headers
      memory
      (load_segments firmware headers efi_ok memory)
load_segments-LoadsAll_example =
    load_segments-LoadsAll firmware firmware-SetsMemory content file_bytes position
      firmware-IsReliable headers efi_ok memory headers-AreSegments refl

abbrev elf : Ehdr
elf = ehdr_at content 0

load_range-Ends_example :
    let mapped = map_segments firmware headers (with_services firmware (0, 2) memory).tables in
    EndsSome firmware content elf headers efi_ok
      (is_success mapped.0)
      (record memory { tables = mapped.1 })
      (load_range firmware elf headers (range_of headers no_range) memory)
unfolding range_of
load_range-Ends_example =
    load_range-Ends firmware firmware-SetsMemory content file_bytes position firmware-IsReliable elf
      headers headers-AreSegments memory (λ e. absurd (omega (arith, e))) refl refl

range_of-bounds_example :
    let r = range_of headers no_range in
    let pages = sub64 r.phys_end r.phys_start / page_size in
    (r.phys_start % page_size ≡ 0)
    × (r.phys_start + pages * page_size ≡ r.phys_end)
    × AllLoads (Covers r) headers
unfolding range_of
range_of-bounds_example =
    range_of-bounds headers (λ e. omega arith, (λ e. omega arith, tt))
      (λ e. absurd (omega (arith, e)))

load_kernel_elf-IsGiven_example : IsGiven (load_kernel_elf firmware true true memory)
load_kernel_elf-IsGiven_example =
    load_kernel_elf-IsGiven firmware (λ n w ok. firmware-IsReliable.at_most n w) true true memory

-- The small file in memory: its last byte, the zeros behind it, and a byte that stays.
sample_bytes :
    map (state_of sample).bytes (0x200003 ∷ 0x200004 ∷ 0x200007 ∷ 0x200008 ∷ [])
    ≡ 0xC3 ∷ 0 ∷ 0 ∷ 0xCC ∷ []
unfolding sample
sample_bytes = refl
