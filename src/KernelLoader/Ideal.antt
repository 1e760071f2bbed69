-- ===== src/KernelLoader/Ideal.antt =====
-- Firmware whose reads give one byte at a time, with one small ELF file, for runs of the bootloader.
use chypervisor.Prelude.{
  ℕ, ◌+◌, ◌*◌, ◌≡◌, refl, arith, true, Option, none, some, List, [], ◌∷◌, ltb, leb, ◌&&◌,
  if◌then◌else◌,
}
use chypervisor.BootPage.{BootServices, clear_entry, page_set_lv4_writable, page_map4k_to}
use chypervisor.BootPage.{
  alloc_new_table, page_apply_attr_range, apply_attr_from, page_set_attr_4k, l1_entry_for_va,
}
use chypervisor.KernelLoader.{Firmware, efi_ok, file_read_at, read_loop}
use chypervisor.KernelLoader.Headers.{check_header, attr_from_phdr, temp_attr_for_load}
use chypervisor.KernelLoader.Image.{
  Boot, LoadResult, at_index, load_kernel_elf, load_open, open_image, load_image, load_range,
  load_mapped, load_segments, load_segment, read_to, range_of, map_segments, map_segment_for_load,
  map_pages, finalize_segments, finalize_segment_protection,
}
use chypervisor.KernelLoader.Read.{IsReliable}
use chypervisor.KernelLoader.Segments.{SetsMemory}

-- A header, one program header for 4 bytes of file in 8 of memory, and the bytes.
abbrev pub elf_file : List ℕ
elf_file =
    127 ∷ 69 ∷ 76 ∷ 70 ∷ 2 ∷ 1 ∷ 1 ∷ 0 ∷ 0 ∷ 0 ∷ 0 ∷ 0 ∷ 0 ∷ 0 ∷ 0 ∷ 0 ∷ 2 ∷ 0 ∷ 62 ∷ 0 ∷ 1 ∷ 0 ∷ 0
    ∷ 0 ∷ 0 ∷ 0 ∷ 32 ∷ 128 ∷ 255 ∷ 255 ∷ 255 ∷ 255 ∷ 64 ∷ 0 ∷ 0 ∷ 0 ∷ 0 ∷ 0 ∷ 0 ∷ 0 ∷ 0 ∷ 0 ∷ 0 ∷ 0
    ∷ 0 ∷ 0 ∷ 0 ∷ 0 ∷ 0 ∷ 0 ∷ 0 ∷ 0 ∷ 64 ∷ 0 ∷ 56 ∷ 0 ∷ 1 ∷ 0 ∷ 0 ∷ 0 ∷ 0 ∷ 0 ∷ 0 ∷ 0 ∷ 1 ∷ 0 ∷ 0
    ∷ 0 ∷ 5 ∷ 0 ∷ 0 ∷ 0 ∷ 120 ∷ 0 ∷ 0 ∷ 0 ∷ 0 ∷ 0 ∷ 0 ∷ 0 ∷ 0 ∷ 0 ∷ 32 ∷ 128 ∷ 255 ∷ 255 ∷ 255 ∷ 255
    ∷ 0 ∷ 0 ∷ 32 ∷ 0 ∷ 0 ∷ 0 ∷ 0 ∷ 0 ∷ 4 ∷ 0 ∷ 0 ∷ 0 ∷ 0 ∷ 0 ∷ 0 ∷ 0 ∷ 8 ∷ 0 ∷ 0 ∷ 0 ∷ 0 ∷ 0 ∷ 0 ∷ 0
    ∷ 0 ∷ 16 ∷ 0 ∷ 0 ∷ 0 ∷ 0 ∷ 0 ∷ 0 ∷ 144 ∷ 144 ∷ 244 ∷ 195 ∷ []

abbrev pub content : ℕ → ℕ
content i = at_index elf_file i

abbrev pub file_bytes : ℕ
file_bytes = 124

-- The state is the position in the file, and the number of the next free page.
abbrev pub services : BootServices
services = record {
  State = ℕ × ℕ;
  allocate_page = λ (w : ℕ × ℕ). (some (w.1 * 4096), (w.0, w.1 + 1));
}

abbrev pub firmware : Firmware
firmware = record {
  boot = services;
  open_kernel = λ (w : ℕ × ℕ). (efi_ok, true, w);
  set_position = λ o (w : ℕ × ℕ). (efi_ok, (o, w.1));
  read = λ n (w : ℕ × ℕ).
      if ltb 0 n && ltb w.0 file_bytes
      then (efi_ok, content w.0 ∷ [], (w.0 + 1, w.1))
      else (efi_ok, [], w);
  close = λ (w : ℕ × ℕ). w;
  allocate_pool = λ n (w : ℕ × ℕ). (efi_ok, 0x100000, w);
  free_pool = λ p (w : ℕ × ℕ). w;
  allocate_address = λ n a (w : ℕ × ℕ). (efi_ok, a, w);
  set_mem = λ a n v m q. if leb a q && ltb q (a + n) then v else m q;
}

abbrev pub position : ℕ × ℕ → ℕ
position w = w.0

pub firmware-IsReliable : IsReliable firmware content file_bytes position
firmware-IsReliable = record {
  small = omega arith;
  seek_succeeds = λ o w. refl;
  seek_sets = λ o w h. refl;
  succeeds = λ n w h. ground arith;
  at_most = λ n w. ground arith;
  progress = λ n w h l. ground arith;
  in_file = λ n w h. ground arith;
  moves = λ n w. ground arith;
  bytes_of = λ n w. ground arith;
}

pub firmware-SetsMemory : SetsMemory firmware
firmware-SetsMemory = record {
  inside = λ a n v q m h l. ground arith;
  outside = λ a n v q m h. ground arith;
}

abbrev pub memory : Boot firmware
memory = record {
  tables = record { mem = λ p i. clear_entry; services = (0, 2); cr3 = 0x1000 };
  bytes = λ q. 0xCC;
}

-- The state of a result.
abbrev pub state_of : Option (LoadResult firmware) → Boot firmware
state_of none = memory
state_of (some (st, out, t)) = t

-- A run on the small file: its entry point, its bytes in memory, and zeros behind them.
unfoldable pub sample : Option (LoadResult firmware)
unfolding load_kernel_elf file_read_at read_loop load_open open_image load_image load_range
    load_mapped load_segments load_segment read_to range_of map_segments map_segment_for_load
    map_pages temp_attr_for_load finalize_segments finalize_segment_protection attr_from_phdr
    check_header page_set_lv4_writable page_map4k_to alloc_new_table page_apply_attr_range
    apply_attr_from page_set_attr_4k l1_entry_for_va
sample = load_kernel_elf firmware true true memory

-- It ends without an error, with the entry point of the header.
pub sample_ends :
    load_kernel_elf firmware true true memory
    ≡ some (efi_ok, some 0xFFFFFFFF80200000, state_of sample)
unfolding sample
sample_ends = refl
