-- ===== src/PageAlloc/Init.antt =====
-- What the walks over the memory map do to each frame.
use chypervisor.Prelude.{ℕ, zero, suc, ◌+◌, ◌*◌, ◌/◌, ◌^◌, ◌≤◌, ◌<◌, ◌≡◌, ◌≢◌, refl, arith}
use chypervisor.Prelude.{Bool, true, false, some, List, [], ◌∷◌, ◌∙◌}
use chypervisor.Prelude.{
  ltb, leb, ◌==◌, if◌then◌else◌, ◌&&◌, add64, Bool-cases, inl, inr, ==→eq, ==→ne,
}
use native.Mathlib.Nat.{div-le_self, div-mul-le_self, lt-div-mul-add}
use chypervisor.Bootinfo.{Bytes, MemoryMap, MemoryDescriptor, descriptor_at, boot_services_data}
use chypervisor.PageAlloc.{PageAllocator, bm_get, frame_count, page_size, max_phys_size}
use chypervisor.PageAlloc.{mark_range_used, mark_range_unused}
use chypervisor.PageAlloc.Bitmap.{bm_get-mark_range_used, bm_get-mark_range_unused}
use chypervisor.PageAlloc.Bitmap.{in_run}
use chypervisor.PageAlloc.Setup.{is_usable_type, phys_end, clip, first_frame, frames_in}
use chypervisor.PageAlloc.Setup.{free_range, init_descriptor, release_descriptor, for_descriptors}

-- The descriptors of the map in order.
abbrev pub table_from : MemoryMap Bytes → ℕ → ℕ → List MemoryDescriptor
table_from map off zero = []
table_from map off (suc n) =
    descriptor_at map.descriptors off ∷ table_from map (off + map.descriptor_size) n

abbrev pub table : MemoryMap Bytes → List MemoryDescriptor
table map = table_from map 0 (map.map_size / map.descriptor_size)

abbrev pub fold {ℓ κ} : {S : Type ℓ} {A : Type κ} → (S → A → S) → S → List A → S
fold f s [] = s
fold f s (d ∷ ds) = fold f (f s d) ds

-- A map whose entries have a size, in a buffer that 64-bit offsets reach twice over.
pub record IsWalkable (map : MemoryMap Bytes) : Type 0 where
  pub step : 0 < map.descriptor_size
  pub small_step : map.descriptor_size < 2 ^ 63
  pub small : map.map_size < 2 ^ 63

module _ (body : PageAllocator → MemoryDescriptor → PageAllocator) (map : MemoryMap Bytes)
    (walk : IsWalkable map) where
  for_descriptors-fold :
      (n fuel off : ℕ) (s : PageAllocator)
      → n < fuel
      → off + n * map.descriptor_size ≤ map.map_size
      → map.map_size < off + n * map.descriptor_size + map.descriptor_size
      → for_descriptors body map fuel off s ≡ some (fold body s (table_from map off n))
  unfolding for_descriptors
  for_descriptors-fold n zero off s h lo hi = absurd (omega arith)
  for_descriptors-fold zero (suc fuel) off s h lo hi =
      let stop : leb (add64 off map.descriptor_size) map.map_size ≡ false =
        ground (arith, walk.small, walk.small_step) in
      rw stop
  for_descriptors-fold (suc n) (suc fuel) off s h lo hi =
      let step : add64 off map.descriptor_size ≡ off + map.descriptor_size =
        omega (arith, walk.small) in
      let go : leb (off + map.descriptor_size) map.map_size ≡ true = ground arith in
      rw (step, go)
        (for_descriptors-fold n fuel (off + map.descriptor_size)
          (body s (descriptor_at map.descriptors off)) (omega arith) (omega arith) (omega arith))

  -- With an entry size that is not 0, the walk ends and visits each whole entry once, in order.
  pub for_descriptors-table :
      (s : PageAllocator)
      → for_descriptors body map (map.map_size + 1) 0 s ≡ some (fold body s (table map))
  for_descriptors-table s =
      for_descriptors-fold (map.map_size / map.descriptor_size) (map.map_size + 1) 0 s
        (omega (arith, walk.step, div-le_self map.map_size map.descriptor_size))
        (omega (arith, div-mul-le_self map.map_size map.descriptor_size))
        (omega (arith, lt-div-mul-add {a = map.map_size} {b = map.descriptor_size} walk.step))

-- A frame lies wholly or in its first part in the range of a descriptor.
abbrev pub covers : MemoryDescriptor → ℕ → Bool
covers d g = leb (d.physical_start / page_size) g && ltb g (phys_end d / page_size)

-- The range of a descriptor, cut to the bitmap.
pub range_within :
    (d : MemoryDescriptor) → frames_in d ≢ 0 → first_frame d + frames_in d ≤ frame_count
range_within d h = ground arith

pub bm_get-frame_end :
    (t : PageAllocator) (e g : ℕ) → bm_get (record t { frame_end = e }) g ≡ bm_get t g
unfolding bm_get
bm_get-frame_end t e g = refl

free_range-at :
    (s : PageAllocator) (d : MemoryDescriptor) (g : ℕ)
    → frames_in d ≢ 0
    → bm_get (free_range s d) g ≡ (if in_run (first_frame d) (frames_in d) g then 0 else bm_get s g)
unfolding free_range
free_range-at s d g h =
    bm_get-frame_end (mark_range_unused s (first_frame d) (frames_in d)) _ g
    ∙ bm_get-mark_range_unused s (first_frame d) (frames_in d) g (omega (arith, range_within d h))

-- On the bitmap the cut range is the range of the descriptor.
in_run-covers :
    (d : MemoryDescriptor) (g : ℕ)
    → g < frame_count
    → in_run (first_frame d) (frames_in d) g ≡ covers d g
in_run-covers d g h = ground arith

-- The descriptors that are passed over cover no frame of the bitmap.
above_covers :
    (d : MemoryDescriptor) (g : ℕ)
    → g < frame_count
    → leb max_phys_size d.physical_start ≡ true
    → covers d g ≡ false
above_covers d g h e = ground arith

empty_covers :
    (d : MemoryDescriptor) (g : ℕ) → g < frame_count → frames_in d ≡ 0 → covers d g ≡ false
empty_covers d g h e = ground (arith, in_run-covers d g h)

pub free_range-covers :
    (s : PageAllocator) (d : MemoryDescriptor) (g : ℕ)
    → g < frame_count
    → frames_in d ≢ 0
    → bm_get (free_range s d) g ≡ (if covers d g then 0 else bm_get s g)
free_range-covers s d g h ne = rw (← in_run-covers d g h) (free_range-at s d g ne)

pub used_range-covers :
    (s : PageAllocator) (d : MemoryDescriptor) (g : ℕ)
    → g < frame_count
    → frames_in d ≢ 0
    → bm_get (mark_range_used s (first_frame d) (frames_in d)) g
      ≡ (if covers d g then 1 else bm_get s g)
used_range-covers s d g h ne =
    rw (← in_run-covers d g h)
      (bm_get-mark_range_used s (first_frame d) (frames_in d) g (omega (arith, range_within d ne)))

pub init_descriptor-at :
    (s : PageAllocator) (d : MemoryDescriptor) (g : ℕ)
    → g < frame_count
    → bm_get (init_descriptor s d) g
      ≡ (if covers d g then (if is_usable_type d.type then 0 else 1) else bm_get s g)
unfolding init_descriptor
init_descriptor-at s d g h = elim (Bool-cases (leb max_phys_size d.physical_start)) [
  | inl above ↦ rw (above, above_covers d g h above)
  | inr below ↦ rw below (elim (Bool-cases (frames_in d == 0)) [
    | inl zero_frames ↦ rw (zero_frames, empty_covers d g h (==→eq _ _ zero_frames))
    | inr frames ↦ rw frames (elim (Bool-cases (is_usable_type d.type)) [
      | inl usable ↦ rw usable (free_range-covers s d g h (==→ne _ _ frames))
      | inr other ↦ rw other (used_range-covers s d g h (==→ne _ _ frames))
    ])
  ])
]

pub release_descriptor-at :
    (s : PageAllocator) (d : MemoryDescriptor) (g : ℕ)
    → g < frame_count
    → bm_get (release_descriptor s d) g
      ≡ (if d.type == boot_services_data && covers d g then 0 else bm_get s g)
unfolding release_descriptor
release_descriptor-at s d g h = elim (Bool-cases (d.type == boot_services_data)) [
  | inr other ↦ rw other
  | inl data_type ↦ rw data_type (elim (Bool-cases (leb max_phys_size d.physical_start)) [
    | inl above ↦ rw (above, above_covers d g h above)
    | inr below ↦ rw below (elim (Bool-cases (leb (clip (phys_end d)) d.physical_start)) [
      | inl empty ↦ rw (empty, empty_covers d g h (ground arith))
      | inr more ↦ rw more (elim (Bool-cases (frames_in d == 0)) [
        | inl zero_frames ↦ rw (zero_frames, empty_covers d g h (==→eq _ _ zero_frames))
        | inr frames ↦ rw frames (free_range-covers s d g h (==→ne _ _ frames))
      ])
    ])
  ])
]
