-- ===== src/Bootinfo/Tests.antt =====
-- Runs of bootinfo.c.
use chypervisor.Prelude.{◌≡◌, refl, false, Option, some}
use chypervisor.Bootinfo.{Bytes, BootInfo, MemoryMap, Snapshot, bootinfo_snapshot_init}
use chypervisor.Bootinfo.{snapshot_map, done, too_large}

abbrev counting : Bytes
counting o = o

abbrev loader_map : MemoryMap (Option Bytes)
loader_map = record {
  buffer_size = 4096;
  descriptors = some counting;
  map_size = 96;
  map_key = 7;
  descriptor_size = 48;
  descriptor_version = 1;
}

abbrev handed_over : BootInfo (Option Bytes)
handed_over = record { magic = 0xDEADBEEFCAFEBABE; memory_map = loader_map }

abbrev zero_map : MemoryMap Bytes
zero_map = record {
  buffer_size = 0;
  descriptors = λ o. 0;
  map_size = 0;
  map_key = 0;
  descriptor_size = 0;
  descriptor_version = 0;
}

-- The `.bss` before the first call.
abbrev bss : Snapshot
bss = record {
  boot_info = record { magic = 0; memory_map = zero_map };
  memory_map = zero_map;
  buffer = λ o. 0;
  ready = false;
}

-- The snapshot of a map of 96 bytes, and the refusal of one that is longer than the buffer.
snapshot_taken : (bootinfo_snapshot_init bss (some handed_over)).0 ≡ done
unfolding bootinfo_snapshot_init snapshot_map
snapshot_taken = refl

snapshot_refused :
    (bootinfo_snapshot_init bss
      (some (record handed_over { memory_map = record loader_map { map_size = 20000 } })))
    ≡ (too_large, bss)
unfolding bootinfo_snapshot_init snapshot_map
snapshot_refused = refl
