-- ===== src/Startup/Memory.antt =====
-- From the boot loader's map to the state of every frame (kernel/main.c).
use chypervisor.Prelude.{
  ℕ, zero, suc, ◌+◌, ◌*◌, ◌/◌, ◌^◌, ◌≤◌, ◌<◌, ◌≡◌, refl, ap, ◌∙◌, arith, Option, some, true, ◌==◌,
  ◌∷◌,
}
use native.Mathlib.Nat.{div-mul-le_self}
use chypervisor.Bootinfo.{
  Bytes, BootInfo, MemoryMap, MemoryDescriptor, Snapshot, read_u32, read_u64, descriptor_at,
  mm_buf_bytes, bootinfo_snapshot_init,
}
use chypervisor.Bootinfo.Copy.{IsSnapshotOf, bootinfo_snapshot_init-IsSnapshotOf}
use chypervisor.PageAlloc.{PageAllocator, bm_get, frame_count}
use chypervisor.PageAlloc.Init.{table, table_from, IsWalkable}
use chypervisor.PageAlloc.Status.{
  status, released, IsBounded, page_allocator_init-status,
  page_allocator_release_boot_services_data-released,
}
use chypervisor.Startup.{started, kernel_trampoline, release_memory, bootinfo_magic}

-- The loader's map with the bytes that it points to.
abbrev pub map_of : BootInfo (Option Bytes) → Bytes → MemoryMap Bytes
map_of bi src =
    let m = bi.memory_map in
    record {
      buffer_size = m.buffer_size;
      descriptors = src;
      map_size = m.map_size;
      map_key = m.map_key;
      descriptor_size = m.descriptor_size;
      descriptor_version = m.descriptor_version;
    }

module _ (b c : Bytes) (size : ℕ) (same : (o : ℕ) → o < size → b o ≡ c o) where
  read_u32-same : (o : ℕ) → o + 4 ≤ size → read_u32 b o ≡ read_u32 c o
  read_u32-same o h =
      rw
        (
          same o (omega (arith, h)),
          same (o + 1) (omega (arith, h)),
          same (o + 2) (omega (arith, h)),
          same (o + 3) (omega (arith, h)),
        )
        refl

  read_u64-same : (o : ℕ) → o + 8 ≤ size → read_u64 b o ≡ read_u64 c o
  read_u64-same o h =
      let low = read_u32-same o (omega (arith, h)) in
      let high = read_u32-same (o + 4) (omega (arith, h)) in omega (arith, low, high)

  descriptor_at-same : (o : ℕ) → o + 40 ≤ size → descriptor_at b o ≡ descriptor_at c o
  descriptor_at-same o h =
      let t = read_u32-same o (omega (arith, h)) in
      let p = read_u64-same (o + 8) (omega (arith, h)) in
      let v = read_u64-same (o + 16) (omega (arith, h)) in
      let n = read_u64-same (o + 24) (omega (arith, h)) in
      let a = read_u64-same (o + 32) (omega (arith, h)) in
      let made : ℕ → ℕ → ℕ → ℕ → ℕ → MemoryDescriptor = λ t p v n a. record {
        type = t;
        physical_start = p;
        virtual_start = v;
        number_of_pages = n;
        attribute = a;
      } in
      ap
        (λ t.
          made t (read_u64 b (o + 8)) (read_u64 b (o + 16)) (read_u64 b (o + 24))
            (read_u64 b (o + 32)))
        t
      ∙ ap
          (λ p.
            made (read_u32 c o) p (read_u64 b (o + 16)) (read_u64 b (o + 24)) (read_u64 b (o + 32)))
          p
      ∙ ap
          (λ v.
            made (read_u32 c o) (read_u64 c (o + 8)) v (read_u64 b (o + 24)) (read_u64 b (o + 32)))
          v
      ∙ ap
          (λ n.
            made (read_u32 c o) (read_u64 c (o + 8)) (read_u64 c (o + 16)) n (read_u64 b (o + 32)))
          n
      ∙ ap
          (λ a.
            made (read_u32 c o) (read_u64 c (o + 8)) (read_u64 c (o + 16)) (read_u64 c (o + 24)) a)
          a

table_from-same :
    (m m' : MemoryMap Bytes) (off n : ℕ)
    → ((o : ℕ) → o < m'.map_size → m.descriptors o ≡ m'.descriptors o)
    → m.descriptor_size ≡ m'.descriptor_size
    → 40 ≤ m'.descriptor_size
    → off + n * m'.descriptor_size ≤ m'.map_size
    → table_from m off n ≡ table_from m' off n
table_from-same m m' off zero same step entry inside = refl
table_from-same m m' off (suc n) same step entry inside =
    let here : off + 40 ≤ m'.map_size = omega (arith, inside, entry) in
    let later =
      table_from-same m m' (off + m'.descriptor_size) n same step entry (omega (arith, inside)) in
    rw (step, later)
      (ap (λ d. d ∷ table_from m' (off + m'.descriptor_size) n)
        (descriptor_at-same m.descriptors m'.descriptors m'.map_size same off here))

table-map_of :
    (bi : BootInfo (Option Bytes)) (src : Bytes) (m : MemoryMap Bytes)
    → IsSnapshotOf src bi.memory_map m
    → 40 ≤ bi.memory_map.descriptor_size
    → table m ≡ table (map_of bi src)
table-map_of bi src m snap entry =
    let size = bi.memory_map.map_size in
    let step = bi.memory_map.descriptor_size in
    let count : m.map_size / m.descriptor_size ≡ size / step = rw (snap.size, snap.step) refl in
    ap (λ n. table_from m 0 n) count
    ∙ table_from-same m (map_of bi src) 0 (size / step) snap.bytes snap.step entry
        (omega (arith, div-mul-le_self size step))

-- For a boot info with the magic number and a map of 1 to 16384 bytes whose entries are at least 40 bytes
-- long: `kernelMain` gets past the set-up of the page allocator, where a frame is free exactly if the last
-- descriptor of the boot loader's map that covers it has a usable type. And from any state that the
-- allocator has reached since, with every free frame below the end of its range, the release of the boot
-- services data frees the frames that the loader's map gives that type, and no other.
pub kernel_trampoline-status :
    (g : Snapshot) (s later : PageAllocator) (bi : BootInfo (Option Bytes)) (src : Bytes)
    → bi.magic ≡ bootinfo_magic
    → bi.memory_map.descriptors ≡ some src
    → 0 < bi.memory_map.map_size
    → bi.memory_map.map_size ≤ mm_buf_bytes
    → 40 ≤ bi.memory_map.descriptor_size
    → bi.memory_map.descriptor_size < 2 ^ 63
    → IsBounded later
    → (g' : Snapshot) × (t : PageAllocator) × (u : PageAllocator) × (kernel_trampoline g s bi
        ≡ some (started g' t))
      × ((h : ℕ) → h < frame_count → bm_get t h ≡ status h (table (map_of bi src)) 1)
      × IsBounded t
      × (release_memory g' later ≡ some u)
      × ((h : ℕ)
          → h < frame_count
          → bm_get u h ≡ released h (table (map_of bi src)) (bm_get later h))
      × IsBounded u
unfolding kernel_trampoline release_memory
kernel_trampoline-status g s later bi src magic here pos fits entry small bounded =
    let g' = (bootinfo_snapshot_init g (some bi)).1 in
    let (m, ok, given, _, snap) = bootinfo_snapshot_init-IsSnapshotOf g bi src here pos fits in
    let walk : IsWalkable m = record {
      step = omega (arith, snap.step, entry);
      small_step = omega (arith, snap.step, small);
      small = omega (arith, snap.size, fits);
    } in
    let same = table-map_of bi src m snap entry in
    let (t, init, states, below) = page_allocator_init-status s m walk in
    let (u, freed, after, below') =
      page_allocator_release_boot_services_data-released later m walk bounded in
    let known : (bi.magic == bootinfo_magic) ≡ true = ground (arith, magic) in
    (
      g',
      t,
      u,
      rw (known, ok, given, init) refl,
      (λ h l. states h l ∙ ap (λ ds. status h ds 1) same),
      below,
      rw given freed,
      (λ h l. after h l ∙ ap (λ ds. released h ds (bm_get later h)) same),
      below',
    )
