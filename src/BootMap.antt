-- ===== src/BootMap.antt =====
-- bootloader/memmap.c and boot.c: the memory map that the bootloader fetches, the exit from the boot
-- services, and the entry into the kernel. A pointer to a map's buffer is its address, 0 for NULL. The
-- firmware's functions are an interface over any state. Log lines are left out.
pub mod Refresh
pub mod Exit
pub mod Main
pub mod Safe
mod Tests
use chypervisor.Prelude.{
  ℕ, ◌+◌, ◌*◌, ◌^◌, Bool, true, false, Option, none, some, ◌==◌, leb, if◌then◌else◌, u64, mul64,
  add64,
}
use chypervisor.Bootinfo.{MemoryMap}

-- `EFI_ERROR` on a status code.
abbrev pub efi_error : ℕ → Bool
efi_error st = leb (2 ^ 63) st

abbrev pub invalid_parameter : ℕ
invalid_parameter = 2 ^ 63 + 2

abbrev pub buffer_too_small : ℕ
buffer_too_small = 2 ^ 63 + 5

abbrev pub efi_page_size : ℕ
efi_page_size = 4096

-- What `GetMemoryMap` writes through its pointers.
pub record MapReply : Type 0 where
  pub size : ℕ
  pub key : ℕ
  pub descriptor_size : ℕ
  pub descriptor_version : ℕ

pub record MapServices (S : Type 0) : Type 0 where
  pub get_memory_map : ℕ → ℕ → S → ℕ × MapReply × S
  pub allocate_pool : ℕ → S → ℕ × ℕ × S
  pub free_pool : ℕ → S → S
  pub exit_boot_services : ℕ → S → ℕ × S
  pub close_root : S → S

-- `MEMORY_MAP`, with the address of its buffer.
abbrev pub MapAt : Type 0
MapAt = MemoryMap ℕ

module _ {S : Type 0} (M : MapServices S) where
  abbrev pub take_reply : MapReply → MapAt → MapAt
  take_reply r mm = record mm {
    map_key = r.key;
    descriptor_size = r.descriptor_size;
    descriptor_version = r.descriptor_version;
  }

  -- For a map that is there.
  unfoldable pub memmap_init : ℕ → S → ℕ × MapAt × S
  memmap_init pages w =
      let size = mul64 pages efi_page_size in
      let (st, p, w') = M.allocate_pool size w in
      let mm : MapAt = record {
        buffer_size = size;
        descriptors = p;
        map_size = size;
        map_key = 0;
        descriptor_size = 0;
        descriptor_version = 0;
      } in
      if pages == 0
      then (
        invalid_parameter,
        record {
          buffer_size = 0;
          descriptors = 0;
          map_size = 0;
          map_key = 0;
          descriptor_size = 0;
          descriptor_version = 0;
        },
        w,
      )
      else ((if efi_error st then st else 0), mm, w')

  -- The second try of `memmap_refresh`, with a buffer for `size` bytes and two more descriptors and a page.
  unfoldable pub refresh_larger : ℕ → MapAt → S → ℕ × MapAt × S
  refresh_larger size mm w =
      let more = add64 size (u64 (2 * mm.descriptor_size + efi_page_size)) in
      let (st, p, w1) = M.allocate_pool more (M.free_pool mm.descriptors w) in
      let mm1 : MapAt = record mm { buffer_size = more; map_size = more; descriptors = p } in
      let (st', r, w2) = M.get_memory_map more p w1 in
      if efi_error st
      then (st, mm1, w1)
      else (st', take_reply r (record mm1 { map_size = r.size }), w2)

  unfoldable pub memmap_refresh : MapAt → S → ℕ × MapAt × S
  memmap_refresh mm w =
      let (st, r, w1) = M.get_memory_map mm.buffer_size mm.descriptors w in
      let mm1 = take_reply r mm in
      if mm.descriptors == 0
      then (invalid_parameter, mm, w)
      else if st == buffer_too_small
      then refresh_larger r.size mm1 w1
      else (st, record mm1 { map_size = r.size }, w1)

  -- The second try of `exit_boot_services_with_map`.
  unfoldable pub exit_again : MapAt → S → ℕ × MapAt × S
  exit_again mm w =
      let (st, mm1, w1) = memmap_refresh mm w in
      let (st', w2) = M.exit_boot_services mm1.map_key w1 in
      if efi_error st then (st, mm1, w1) else ((if efi_error st' then st' else 0), mm1, w2)

  unfoldable pub exit_boot_services_with_map : MapAt → S → ℕ × MapAt × S
  exit_boot_services_with_map mm w =
      let (st, mm1, w1) = memmap_refresh mm w in
      let (st', w2) = M.exit_boot_services mm1.map_key w1 in
      if efi_error st
      then (st, mm1, w1)
      else if efi_error st'
      then exit_again mm1 w2
      else (0, mm1, w2)

  unfoldable pub memmap_destroy : MapAt → S → MapAt × S
  memmap_destroy mm w = (
    record {
      buffer_size = 0;
      descriptors = 0;
      map_size = 0;
      map_key = 0;
      descriptor_size = 0;
      descriptor_version = 0;
    },
    (if mm.descriptors == 0 then w else M.free_pool mm.descriptors w),
  )
