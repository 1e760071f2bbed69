-- ===== src/Startup/Tests.antt =====
-- A start of the kernel on a map with a few free frames.
use chypervisor.Prelude.{ℕ, ◌<◌, ◌≡◌, refl, arith, Option, some, ◌==◌, if◌then◌else◌, false}
use chypervisor.Bootinfo.{Bytes, BootInfo, MemoryMap, Snapshot}
use chypervisor.PageAlloc.{PageAllocator, bm_get, frame_count}
use chypervisor.PageAlloc.Init.{table}
use chypervisor.PageAlloc.Setup.{all_used}
use chypervisor.PageAlloc.Status.{status, released, IsBounded, all_used-IsBounded}
use chypervisor.Startup.{started, kernel_trampoline, release_memory}
use chypervisor.Startup.Memory.{map_of, kernel_trampoline-status}

-- One descriptor of conventional memory: 6 pages from address 0x5000 on.
abbrev one_run : Bytes
one_run o = if o == 0 then 7 else if o == 9 then 0x50 else if o == 24 then 6 else 0

abbrev handed_over : BootInfo (Option Bytes)
handed_over = record {
  magic = 0xDEADBEEFCAFEBABE;
  memory_map = record {
    buffer_size = 16384;
    descriptors = some one_run;
    map_size = 48;
    map_key = 7;
    descriptor_size = 48;
    descriptor_version = 1;
  };
}

abbrev no_map : MemoryMap Bytes
no_map = record {
  buffer_size = 0;
  descriptors = λ o. 0;
  map_size = 0;
  map_key = 0;
  descriptor_size = 0;
  descriptor_version = 0;
}

-- The globals before the first call.
abbrev no_snapshot : Snapshot
no_snapshot = record {
  boot_info = record { magic = 0; memory_map = no_map };
  memory_map = no_map;
  buffer = λ o. 0;
  ready = false;
}

abbrev empty : PageAllocator
empty = record { bitmap = λ l. 0; frame_begin = 0; frame_end = 0 }

free_run :
    (status 5 (table (map_of handed_over one_run)) 1 ≡ 0)
    × (status 11 (table (map_of handed_over one_run)) 1 ≡ 1)
free_run = (refl, refl)

kernel_trampoline-status_example :
    (g' : Snapshot) × (t : PageAllocator) × (u : PageAllocator) × (kernel_trampoline no_snapshot
        empty handed_over
      ≡ some (started g' t))
    × ((h : ℕ) → h < frame_count → bm_get t h ≡ status h (table (map_of handed_over one_run)) 1)
    × IsBounded t
    × (release_memory g' (all_used empty) ≡ some u)
    × ((h : ℕ)
        → h < frame_count
        → bm_get u h ≡ released h (table (map_of handed_over one_run)) (bm_get (all_used empty) h))
    × IsBounded u
kernel_trampoline-status_example =
    kernel_trampoline-status no_snapshot empty (all_used empty) handed_over one_run refl refl
      (omega arith) (omega arith) (omega arith) (omega arith) (all_used-IsBounded empty)
