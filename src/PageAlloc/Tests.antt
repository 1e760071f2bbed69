-- ===== src/PageAlloc/Tests.antt =====
-- Runs of the page allocator, and its theorems at concrete inputs.
use chypervisor.Prelude.{ℕ, ◌+◌, ◌*◌, ◌/◌, ◌≤◌, ◌<◌, ◌≡◌, refl, arith}
use chypervisor.Prelude.{true, false, some, ◌⊎◌}
use chypervisor.Prelude.{ltb, ◌==◌, if◌then◌else◌}
use chypervisor.Bootinfo.{Bytes, MemoryMap}
use chypervisor.PageAlloc.{PageAllocator, found, not_found, bm_get, find_run, page_alloc_bytes}
use chypervisor.PageAlloc.{page_alloc_pages, page_free_bytes, frame_count, bm_set_used}
use chypervisor.PageAlloc.{mark_from, mark_range_used, scan}
use chypervisor.PageAlloc.{find_from, take_run}
use chypervisor.PageAlloc.Search.{IsFirstRun, find_run-IsFirstRun}
use chypervisor.PageAlloc.Alloc.{IsValid, Allocates, frame_addr, page_alloc_bytes-Allocates}
use chypervisor.PageAlloc.Alloc.{page_alloc_pages-Allocates}
use chypervisor.PageAlloc.Release.{page_free_bytes-page_alloc_bytes, page_alloc_bytes_twice}
use chypervisor.PageAlloc.Setup.{page_allocator_init}
use chypervisor.PageAlloc.Setup.{page_allocator_release_boot_services_data}
use chypervisor.PageAlloc.Init.{table, IsWalkable}
use chypervisor.PageAlloc.Status.{status, released, IsBounded, page_allocator_init-status}
use chypervisor.PageAlloc.Status.{page_allocator_release_boot_services_data-released}
use chypervisor.Paging.{phys2virt}

-- Frames 1, 2 and 5 are used; the managed range is [1, 12).
abbrev busy : PageAllocator
busy = record { bitmap = λ l. if l == 0 then 0x27 else 0; frame_begin = 1; frame_end = 12 }

busy-IsValid : IsValid busy
busy-IsValid = omega arith

-- The first two free frames are 3 and 4; the first aligned run of four starts at 8.
find_run-busy :
    (find_run busy 2 1 ≡ found 3) × (find_run busy 4 4 ≡ found 8) × (find_run busy 7 1 ≡ not_found)
unfolding find_run find_from scan bm_get
find_run-busy = (refl, refl, refl)

find_run-IsFirstRun_example : IsFirstRun busy 4 4 (find_run busy 4 4)
find_run-IsFirstRun_example = find_run-IsFirstRun busy 4 4 (omega arith) (omega arith)

page_alloc_pages-Allocates_example :
    Allocates false busy 4
      (if ltb 4096 16384 then (16384 + 4095) / 4096 else 1)
      (page_alloc_pages false busy 4 16384)
page_alloc_pages-Allocates_example =
    page_alloc_pages-Allocates false busy busy-IsValid 4 16384 (omega arith) (omega arith)
      (omega arith)

page_alloc_bytes-Allocates_example :
    Allocates true busy ((5000 + 4095) / 4096) 1 (page_alloc_bytes true busy 5000)
page_alloc_bytes-Allocates_example =
    page_alloc_bytes-Allocates true busy busy-IsValid 5000 (omega arith) (omega arith)

abbrev after_two : PageAllocator
after_two = mark_range_used busy 3 2

abbrev after_one : PageAllocator
after_one = mark_range_used after_two 6 1

alloc_two : page_alloc_bytes false busy 5000 ≡ some (3 * 4096, after_two)
unfolding page_alloc_bytes take_run find_run find_from scan bm_get phys2virt
alloc_two = refl

alloc_one : page_alloc_bytes false after_two 10 ≡ some (6 * 4096, after_one)
unfolding page_alloc_bytes take_run find_run find_from scan bm_get phys2virt mark_range_used
    mark_from bm_set_used
alloc_one = refl

page_free_bytes-page_alloc_bytes_example :
    ((g : ℕ) → bm_get (page_free_bytes false after_two (3 * 4096) 5000) g ≡ bm_get busy g)
    × IsValid (page_free_bytes false after_two (3 * 4096) 5000)
page_free_bytes-page_alloc_bytes_example =
    page_free_bytes-page_alloc_bytes false busy busy-IsValid 5000 (3 * 4096) after_two (omega arith)
      (omega arith) alloc_two (omega arith)

page_alloc_bytes_twice_example :
    (i j : ℕ) × (3 * 4096 ≡ frame_addr false i)
    × (6 * 4096 ≡ frame_addr false j)
    × (i + (5000 + 4095) / 4096 ≤ frame_count)
    × (j + (10 + 4095) / 4096 ≤ frame_count)
    × ((i + (5000 + 4095) / 4096 ≤ j) ⊎ (j + (10 + 4095) / 4096 ≤ i))
page_alloc_bytes_twice_example =
    page_alloc_bytes_twice false busy busy-IsValid 5000 10 (3 * 4096) (6 * 4096) after_two after_one
      (omega arith) alloc_two alloc_one (omega arith) (omega arith)

-- Two entries of 40 bytes: conventional memory in frames [0, 6), boot services data in [6, 9).
abbrev map_bytes : Bytes
map_bytes o =
    if o == 0
    then 7
    else if o == 24
    then 6
    else if o == 40
    then 4
    else if o == 49
    then 0x60
    else if o == 64
    then 3
    else 0

abbrev small_map : MemoryMap Bytes
small_map = record {
  buffer_size = 16384;
  descriptors = map_bytes;
  map_size = 80;
  map_key = 1;
  descriptor_size = 40;
  descriptor_version = 1;
}

small_map-IsWalkable : IsWalkable small_map
small_map-IsWalkable = omega arith

small_map-status :
    (status 5 (table small_map) 1 ≡ 0)
    × (status 7 (table small_map) 1 ≡ 1)
    × (released 7 (table small_map) 1 ≡ 0)
small_map-status = (refl, refl, refl)

page_allocator_init-status_example :
    (t : PageAllocator) × (page_allocator_init busy small_map ≡ some t)
    × ((g : ℕ) → g < frame_count → bm_get t g ≡ status g (table small_map) 1)
    × IsBounded t
page_allocator_init-status_example = page_allocator_init-status busy small_map small_map-IsWalkable

-- The allocator that `page_allocator_init` leaves.
abbrev initialised : PageAllocator
initialised = (page_allocator_init-status busy small_map small_map-IsWalkable).0

page_allocator_release_boot_services_data-released_example :
    (t : PageAllocator) × (page_allocator_release_boot_services_data initialised (some small_map)
      ≡ some t)
    × ((g : ℕ) → g < frame_count → bm_get t g ≡ released g (table small_map) (bm_get initialised g))
    × IsBounded t
page_allocator_release_boot_services_data-released_example =
    page_allocator_release_boot_services_data-released initialised small_map small_map-IsWalkable
      (page_allocator_init-status busy small_map small_map-IsWalkable).3
