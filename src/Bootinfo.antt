-- ===== src/Bootinfo.antt =====
-- kernel/bootinfo.h and kernel/bootinfo.c: the UEFI memory map and the snapshot that the kernel takes
-- of it. A pointer to the map's bytes is the parameter `P` of `MemoryMap`: a possibly null pointer
-- for what the boot loader hands over, plain bytes for the kernel's own copy.
pub mod Copy
mod Tests
use chypervisor.Prelude.{ℕ, zero, suc, ◌+◌, ◌*◌, ◌^◌, Bool, true, false, Option, none, some}
use chypervisor.Prelude.{ltb, ◌==◌, if◌then◌else◌}

-- Memory as bytes by offset.
abbrev pub Bytes : Type 0
Bytes = ℕ → ℕ

pub record MemoryMap (P : Type 0) : Type 0 where
  pub buffer_size : ℕ
  pub descriptors : P
  pub map_size : ℕ
  pub map_key : ℕ
  pub descriptor_size : ℕ
  pub descriptor_version : ℕ

pub record BootInfo (P : Type 0) : Type 0 where
  pub magic : ℕ
  pub memory_map : MemoryMap P

-- A little-endian read of 4 or 8 bytes.
abbrev pub read_u32 : Bytes → ℕ → ℕ
read_u32 b o = b o + b (o + 1) * 2 ^ 8 + b (o + 2) * 2 ^ 16 + b (o + 3) * 2 ^ 24

abbrev pub read_u64 : Bytes → ℕ → ℕ
read_u64 b o = read_u32 b o + read_u32 b (o + 4) * 2 ^ 32

-- `EFI_MEMORY_DESCRIPTOR`, read at its packed offsets.
pub record MemoryDescriptor : Type 0 where
  pub type : ℕ
  pub physical_start : ℕ
  pub virtual_start : ℕ
  pub number_of_pages : ℕ
  pub attribute : ℕ

abbrev pub descriptor_at : Bytes → ℕ → MemoryDescriptor
descriptor_at b o = record {
  type = read_u32 b o;
  physical_start = read_u64 b (o + 8);
  virtual_start = read_u64 b (o + 16);
  number_of_pages = read_u64 b (o + 24);
  attribute = read_u64 b (o + 32);
}

-- The `EfiMemoryType` values that the kernel asks for.
abbrev pub boot_services_code : ℕ
boot_services_code = 3

abbrev pub boot_services_data : ℕ
boot_services_data = 4

abbrev pub conventional_memory : ℕ
conventional_memory = 7

abbrev pub mm_buf_bytes : ℕ
mm_buf_bytes = 16 * 1024

-- `g_boot_snapshot`.
pub record Snapshot : Type 0 where
  pub boot_info : BootInfo Bytes
  pub memory_map : MemoryMap Bytes
  pub buffer : Bytes
  pub ready : Bool

-- `dst[i] = src[i]` for the `left` bytes from `i` on.
unfoldable pub copy_bytes : Bytes → ℕ → ℕ → Bytes → Bytes
copy_bytes src i zero dst = dst
copy_bytes src i (suc left) dst = copy_bytes src (i + 1) left (λ o. if o == i then src i else dst o)

-- The return codes of `bootinfo_snapshot_init`.
pub data SnapshotResult : Type 0 where
  done no_info no_map too_large : SnapshotResult

-- The part of `bootinfo_snapshot_init` behind its null checks.
unfoldable pub snapshot_map : Snapshot → BootInfo (Option Bytes) → Bytes → SnapshotResult × Snapshot
snapshot_map g src_bi src =
    let src_mm = src_bi.memory_map in
    let buffer = copy_bytes src 0 src_mm.map_size g.buffer in
    let mm : MemoryMap Bytes = record {
      buffer_size = mm_buf_bytes;
      descriptors = buffer;
      map_size = src_mm.map_size;
      map_key = src_mm.map_key;
      descriptor_size = src_mm.descriptor_size;
      descriptor_version = src_mm.descriptor_version;
    } in
    let taken : Snapshot = record {
      boot_info = record { magic = src_bi.magic; memory_map = mm };
      memory_map = mm;
      buffer = buffer;
      ready = true;
    } in
    if src_mm.map_size == 0
    then (no_map, g)
    else if ltb mm_buf_bytes src_mm.map_size
    then (too_large, g)
    else (done, taken)

unfoldable pub bootinfo_snapshot_init :
    Snapshot → Option (BootInfo (Option Bytes)) → SnapshotResult × Snapshot
bootinfo_snapshot_init g none = (no_info, g)
bootinfo_snapshot_init g (some src_bi) = elim (src_bi.memory_map.descriptors) [
  | none ↦ (no_map, g)
  | some src ↦ snapshot_map g src_bi src
]

unfoldable pub bootinfo_snapshot : Snapshot → Option (BootInfo Bytes)
bootinfo_snapshot g = if g.ready then some g.boot_info else none

unfoldable pub bootinfo_snapshot_memmap : Snapshot → Option (MemoryMap Bytes)
bootinfo_snapshot_memmap g = if g.ready then some g.memory_map else none
