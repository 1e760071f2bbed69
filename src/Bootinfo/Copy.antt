-- ===== src/Bootinfo/Copy.antt =====
-- `bootinfo_snapshot_init` of kernel/bootinfo.c: what it copies, and what it refuses.
use chypervisor.Prelude.{ℕ, zero, suc, ◌+◌, ◌≤◌, ◌<◌, ◌≢◌, ◌≡◌, refl, arith}
use chypervisor.Prelude.{false, Option, none, some, ltb, leb, ◌==◌, ◌&&◌, if◌then◌else◌}
use chypervisor.Bootinfo.{Bytes, BootInfo, MemoryMap, Snapshot, copy_bytes, bootinfo_snapshot_init}
use chypervisor.Bootinfo.{snapshot_map, bootinfo_snapshot_memmap, bootinfo_snapshot, mm_buf_bytes}
use chypervisor.Bootinfo.{done, no_info, no_map, too_large}

copy_bytes-at :
    (src : Bytes) (i left : ℕ) (dst : Bytes) (o : ℕ)
    → copy_bytes src i left dst o ≡ (if leb i o && ltb o (i + left) then src o else dst o)
unfolding copy_bytes
copy_bytes-at src i zero dst o = ground arith
copy_bytes-at src i (suc left) dst o =
    ground (arith, copy_bytes-at src (i + 1) left (λ o'. if o' == i then src i else dst o') o)

-- The bytes of the map lie in the snapshot's own buffer, and the other fields are those of the source.
pub record IsSnapshotOf (src : Bytes) (m : MemoryMap (Option Bytes)) (t : MemoryMap Bytes)
    : Type 0 where
  pub bytes : (o : ℕ) → o < m.map_size → t.descriptors o ≡ src o
  pub size : t.map_size ≡ m.map_size
  pub key : t.map_key ≡ m.map_key
  pub step : t.descriptor_size ≡ m.descriptor_size
  pub version : t.descriptor_version ≡ m.descriptor_version
  pub fits : t.map_size ≤ t.buffer_size

-- A map that is present, not empty and at most 16 KiB long is taken: both accessors then return a map
-- with the bytes, size, key, descriptor size and version of the source, and the magic number is kept.
pub bootinfo_snapshot_init-IsSnapshotOf :
    (g : Snapshot) (bi : BootInfo (Option Bytes)) (src : Bytes)
    → bi.memory_map.descriptors ≡ some src
    → 0 < bi.memory_map.map_size
    → bi.memory_map.map_size ≤ mm_buf_bytes
    → let (r, t) = bootinfo_snapshot_init g (some bi) in
      (m : MemoryMap Bytes) × (r ≡ done)
      × (bootinfo_snapshot_memmap t ≡ some m)
      × (bootinfo_snapshot t ≡ some (record { magic = bi.magic; memory_map = m }))
      × IsSnapshotOf src bi.memory_map m
unfolding bootinfo_snapshot_init snapshot_map bootinfo_snapshot_memmap bootinfo_snapshot
bootinfo_snapshot_init-IsSnapshotOf g bi src e pos fits =
    let m = bi.memory_map in
    let nonempty : (m.map_size == 0) ≡ false = ground arith in
    let short : ltb mm_buf_bytes m.map_size ≡ false = ground arith in
    let buffer = copy_bytes src 0 m.map_size g.buffer in
    let copied : (o : ℕ) → o < m.map_size → buffer o ≡ src o =
      λ o p. ground (arith, copy_bytes-at src 0 m.map_size g.buffer o) in
    rw e (
      rw (nonempty, short)
        (
          _,
          refl,
          refl,
          refl,
          record {
            bytes = copied;
            size = refl;
            key = refl;
            step = refl;
            version = refl;
            fits = fits;
          },
        ))

-- A missing boot info, a null descriptor buffer, an empty map and one longer than the buffer are each
-- refused with their own code, and leave the snapshot as it was.
bootinfo_snapshot_init_refuses :
    (g : Snapshot) (bi : BootInfo (Option Bytes))
    → (bootinfo_snapshot_init g none ≡ (no_info, g))
      × (bi.memory_map.descriptors ≡ none → bootinfo_snapshot_init g (some bi) ≡ (no_map, g))
      × (bi.memory_map.map_size ≡ 0 → bootinfo_snapshot_init g (some bi) ≡ (no_map, g))
      × (bi.memory_map.descriptors ≢ none
          → mm_buf_bytes < bi.memory_map.map_size
          → bootinfo_snapshot_init g (some bi) ≡ (too_large, g))
unfolding bootinfo_snapshot_init snapshot_map
bootinfo_snapshot_init_refuses g bi = (refl, λ e. rw e, λ e. ground arith, λ p q. ground arith)
