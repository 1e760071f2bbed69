-- ===== src/PageAlloc/Setup.antt =====
-- The functions of page_alloc.c that walk the UEFI memory map: `page_allocator_init` and
-- `page_allocator_release_boot_services_data`. A walk takes fuel; `none` is one that has not ended,
-- as with a descriptor size of 0.
use chypervisor.Prelude.{ℕ, zero, suc, ◌+◌, ◌-◌, ◌^◌, Bool, Option, none, some}
use chypervisor.Prelude.{ltb, leb, ◌==◌, if◌then◌else◌, ◌||◌, add64, mul64, not}
use chypervisor.Bootinfo.{Bytes, MemoryMap, MemoryDescriptor, descriptor_at, boot_services_code}
use chypervisor.Bootinfo.{boot_services_data, conventional_memory}
use chypervisor.PageAlloc.{PageAllocator, page_size, max_phys_size, phys_to_frame, mapline_count}
use chypervisor.PageAlloc.{mark_range_used, mark_range_unused}

abbrev pub is_usable_type : ℕ → Bool
is_usable_type t = t == conventional_memory || t == boot_services_code

-- `PhysicalStart + NumberOfPages * PAGE_SIZE`, then cut to the largest managed address.
abbrev pub phys_end : MemoryDescriptor → ℕ
phys_end d = add64 d.physical_start (mul64 d.number_of_pages page_size)

abbrev pub clip : ℕ → ℕ
clip e = if ltb max_phys_size e then max_phys_size else e

-- `[f0, fN)` and its length.
abbrev pub first_frame : MemoryDescriptor → ℕ
first_frame d = phys_to_frame d.physical_start

abbrev pub last_frame : MemoryDescriptor → ℕ
last_frame d = phys_to_frame (clip (phys_end d))

abbrev pub frames_in : MemoryDescriptor → ℕ
frames_in d = if ltb (first_frame d) (last_frame d) then last_frame d - first_frame d else 0

-- `mark_range_unused(f0, cnt); if (fN > g_frame_end) g_frame_end = fN;`
unfoldable pub free_range : PageAllocator → MemoryDescriptor → PageAllocator
free_range s d =
    let t = mark_range_unused s (first_frame d) (frames_in d) in
    record t { frame_end = if ltb t.frame_end (last_frame d) then last_frame d else t.frame_end }

-- The loop body of `page_allocator_init`.
unfoldable pub init_descriptor : PageAllocator → MemoryDescriptor → PageAllocator
init_descriptor s d =
    if leb max_phys_size d.physical_start || frames_in d == 0
    then s
    else if is_usable_type d.type
    then free_range s d
    else mark_range_used s (first_frame d) (frames_in d)

-- The loop body of `page_allocator_release_boot_services_data`.
unfoldable pub release_descriptor : PageAllocator → MemoryDescriptor → PageAllocator
release_descriptor s d =
    if not (d.type == boot_services_data)
    then s
    else if leb max_phys_size d.physical_start
    then s
    else if leb (clip (phys_end d)) d.physical_start
    then s
    else if frames_in d == 0
    then s
    else free_range s d

-- `for (size_t off = 0; off + step <= end; off += step)`
unfoldable pub for_descriptors :
    (PageAllocator → MemoryDescriptor → PageAllocator)
    → MemoryMap Bytes
    → ℕ
    → ℕ
    → PageAllocator
    → Option PageAllocator
for_descriptors body map zero off s = none
for_descriptors body map (suc fuel) off s =
    let next = add64 off map.descriptor_size in
    let again = for_descriptors body map fuel next (body s (descriptor_at map.descriptors off)) in
    if leb next map.map_size then again else some s

-- Every line of the bitmap is filled with ones.
abbrev pub all_used : PageAllocator → PageAllocator
all_used s = record {
  bitmap = λ l. if ltb l mapline_count then 2 ^ 64 - 1 else s.bitmap l;
  frame_begin = 1;
  frame_end = 1;
}

-- `if (g_frame_end <= g_frame_begin) g_frame_end = g_frame_begin + 1;`
abbrev pub guard_end : PageAllocator → PageAllocator
guard_end s = record s {
  frame_end = if leb s.frame_end s.frame_begin then s.frame_begin + 1 else s.frame_end;
}

unfoldable pub page_allocator_init : PageAllocator → MemoryMap Bytes → Option PageAllocator
page_allocator_init s map =
    elim (for_descriptors init_descriptor map (map.map_size + 1) 0 (all_used s)) [
      | none ↦ none
      | some t ↦ some (guard_end t)
    ]

unfoldable pub page_allocator_release_boot_services_data :
    PageAllocator → Option (MemoryMap Bytes) → Option PageAllocator
page_allocator_release_boot_services_data s none = some s
page_allocator_release_boot_services_data s (some map) =
    for_descriptors release_descriptor map (map.map_size + 1) 0 s
