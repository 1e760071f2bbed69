-- ===== src/PageAlloc/Status.antt =====
-- `page_allocator_init` and `page_allocator_release_boot_services_data` against a description frame
-- by frame.
use chypervisor.Prelude.{ℕ, ◌/◌, ◌%◌, ◌<◌, ◌≡◌, ◌≢◌, refl, arith, ap}
use chypervisor.Prelude.{true, some, List, [], ◌∷◌, ◌∙◌, sym}
use chypervisor.Prelude.{ltb, leb, ◌==◌, if◌then◌else◌, ◌&&◌, ◌||◌, Bool-cases, inl, inr}
use chypervisor.Prelude.{==→ne}
use chypervisor.Prelude.Bits.{bit_ones}
use chypervisor.Bootinfo.{Bytes, MemoryMap, MemoryDescriptor, boot_services_data}
use chypervisor.PageAlloc.{PageAllocator, bm_get, frame_count, max_phys_size, mapline_count}
use chypervisor.PageAlloc.Bitmap.{bm_get-bit, SameFrame, mark_range_used-SameFrame}
use chypervisor.PageAlloc.Bitmap.{mark_range_unused-SameFrame}
use chypervisor.PageAlloc.{mark_range_used, mark_range_unused}
use chypervisor.PageAlloc.Setup.{is_usable_type, first_frame, last_frame, frames_in}
use chypervisor.PageAlloc.Setup.{free_range, init_descriptor, release_descriptor}
use chypervisor.PageAlloc.Setup.{all_used, page_allocator_init, guard_end}
use chypervisor.PageAlloc.Setup.{page_allocator_release_boot_services_data}
use chypervisor.PageAlloc.Alloc.{IsValid}
use chypervisor.PageAlloc.Init.{
  covers, fold, table, IsWalkable, for_descriptors-table, range_within,
}
use chypervisor.PageAlloc.Init.{init_descriptor-at, release_descriptor-at, bm_get-frame_end}
use chypervisor.PageAlloc.Init.{free_range-covers, used_range-covers}
use chypervisor.PageAlloc.Release.{SameFrame-IsValid}

-- What `page_allocator_init` promises for a frame: the last descriptor that covers it decides.
abbrev pub status : ℕ → List MemoryDescriptor → ℕ → ℕ
status g [] u = u
status g (d ∷ ds) u =
    status g ds (if covers d g then (if is_usable_type d.type then 0 else 1) else u)

-- Boot services data becomes free, and no other frame changes.
abbrev pub released : ℕ → List MemoryDescriptor → ℕ → ℕ
released g [] u = u
released g (d ∷ ds) u = released g ds (if d.type == boot_services_data && covers d g then 0 else u)

-- Every free frame of the bitmap lies below the end of the managed range, so that a search sees it.
pub record IsBounded (s : PageAllocator) : Type 0 where
  pub valid : IsValid s
  pub below : (g : ℕ) → g < frame_count → bm_get s g ≡ 0 → g < s.frame_end

module _ (s : PageAllocator) (d : MemoryDescriptor) (ne : frames_in d ≢ 0) (b : IsBounded s) where
  abbrev ends : ℕ → ℕ
  ends e = if ltb e (last_frame d) then last_frame d else e

  cleared : SameFrame s (mark_range_unused s (first_frame d) (frames_in d))
  cleared = mark_range_unused-SameFrame s (first_frame d) (frames_in d) (range_within d ne)

  free_range_end : (free_range s d).frame_end ≡ ends s.frame_end
  unfolding free_range
  free_range_end = ap ends cleared.same_end

  free_range_begin : (free_range s d).frame_begin ≡ s.frame_begin
  unfolding free_range
  free_range_begin = cleared.same_begin

  free_range-IsBounded : IsBounded (free_range s d)
  free_range-IsBounded = record {
    valid = record {
      reserved = free_range_begin ∙ b.valid.reserved;
      nonempty = ground (arith, free_range_end, b.valid.nonempty);
      within = ground (arith, free_range_end, b.valid.within);
    };
    below = λ g h e.
        ground (arith, free_range_end, free_range-covers s d g h ne, b.below g h, covers_end g h);
  }
    where
      covers_end : (g : ℕ) → g < frame_count → covers d g ≡ true → g < last_frame d
      covers_end g h e = ground arith

  used_range-IsBounded : IsBounded (mark_range_used s (first_frame d) (frames_in d))
  used_range-IsBounded =
      let same = mark_range_used-SameFrame s (first_frame d) (frames_in d) (range_within d ne) in
      record {
        valid = SameFrame-IsValid same b.valid;
        below = λ g h e. rw same.same_end (b.below g h (still_free g h e));
      }
    where
      still_free :
          (g : ℕ)
          → g < frame_count
          → bm_get (mark_range_used s (first_frame d) (frames_in d)) g ≡ 0
          → bm_get s g ≡ 0
      still_free g h e = ground (arith, used_range-covers s d g h ne)

init_descriptor-IsBounded :
    (s : PageAllocator) (d : MemoryDescriptor) → IsBounded s → IsBounded (init_descriptor s d)
unfolding init_descriptor
init_descriptor-IsBounded s d b =
    elim (Bool-cases (leb max_phys_size d.physical_start || frames_in d == 0)) [
      | inl skipped ↦ rw skipped b
      | inr visited ↦
          let ne : frames_in d ≢ 0 = λ e. ground arith in
          rw visited (elim (Bool-cases (is_usable_type d.type)) [
            | inl usable ↦ rw usable (free_range-IsBounded s d ne b)
            | inr other ↦ rw other (used_range-IsBounded s d ne b)
          ])
    ]

release_descriptor-IsBounded :
    (s : PageAllocator) (d : MemoryDescriptor) → IsBounded s → IsBounded (release_descriptor s d)
unfolding release_descriptor
release_descriptor-IsBounded s d b = elim (Bool-cases (frames_in d == 0)) [
  | inl empty ↦ ground arith
  | inr frames ↦ ground (arith, free_range-IsBounded s d (==→ne _ _ frames) b)
]

-- What holds of every visited descriptor holds of the whole table.
fold-IsBounded :
    (f : PageAllocator → MemoryDescriptor → PageAllocator)
    → ((s : PageAllocator) (d : MemoryDescriptor) → IsBounded s → IsBounded (f s d))
    → (ds : List MemoryDescriptor) (s : PageAllocator) → IsBounded s
    → IsBounded (fold f s ds)
fold-IsBounded f keep [] s b = b
fold-IsBounded f keep (d ∷ ds) s b = fold-IsBounded f keep ds (f s d) (keep s d b)

fold-status :
    (g : ℕ) (ds : List MemoryDescriptor) (s : PageAllocator)
    → g < frame_count
    → bm_get (fold init_descriptor s ds) g ≡ status g ds (bm_get s g)
fold-status g [] s h = refl
fold-status g (d ∷ ds) s h =
    fold-status g ds (init_descriptor s d) h ∙ ap (status g ds) (init_descriptor-at s d g h)

fold-released :
    (g : ℕ) (ds : List MemoryDescriptor) (s : PageAllocator)
    → g < frame_count
    → bm_get (fold release_descriptor s ds) g ≡ released g ds (bm_get s g)
fold-released g [] s h = refl
fold-released g (d ∷ ds) s h =
    fold-released g ds (release_descriptor s d) h
    ∙ ap (released g ds) (release_descriptor-at s d g h)

all_used-at : (s : PageAllocator) (g : ℕ) → g < frame_count → bm_get (all_used s) g ≡ 1
all_used-at s g h =
    let line : ltb (g / 64) mapline_count ≡ true = ground arith in
    bm_get-bit (all_used s) g ∙ rw line (bit_ones 64 (g % 64) (omega arith))

pub all_used-IsBounded : (s : PageAllocator) → IsBounded (all_used s)
all_used-IsBounded s = record {
  valid = record { reserved = refl; nonempty = omega arith; within = omega arith };
  below = λ g h e. absurd (omega (arith, all_used-at s g h));
}

guard_end-IsBounded : (t : PageAllocator) → IsBounded t → IsBounded (guard_end t)
guard_end-IsBounded t b = record {
  valid = record {
    reserved = b.valid.reserved;
    nonempty = ground (arith, b.valid.nonempty);
    within = ground (arith, b.valid.within, b.valid.reserved);
  };
  below = λ g h e. ground (arith, b.below g h (sym (bm_get-frame_end t _ g) ∙ e));
}

-- On a map whose entries have a size, `page_allocator_init` ends. A frame of the bitmap is free after
-- it exactly if the last descriptor that covers the frame has a usable type, frame 0 is outside the
-- managed range, and every free frame of the bitmap lies below its end.
pub page_allocator_init-status :
    (s : PageAllocator) (map : MemoryMap Bytes)
    → IsWalkable map
    → (t : PageAllocator) × (page_allocator_init s map ≡ some t)
      × ((g : ℕ) → g < frame_count → bm_get t g ≡ status g (table map) 1)
      × IsBounded t
unfolding page_allocator_init
page_allocator_init-status s map walk =
    let t = fold init_descriptor (all_used s) (table map) in
    let bounded : IsBounded t =
      fold-IsBounded init_descriptor init_descriptor-IsBounded (table map) (all_used s)
        (all_used-IsBounded s) in
    (
      guard_end t,
      rw (for_descriptors-table init_descriptor map walk (all_used s), page_allocator_init),
      λ g h.
          bm_get-frame_end t _ g
          ∙ fold-status g (table map) (all_used s) h
          ∙ ap (status g (table map)) (all_used-at s g h),
      guard_end-IsBounded t bounded,
    )

-- On a map whose entries have a size, and when every free frame lies below the end of the managed
-- range, `page_allocator_release_boot_services_data` ends. It frees the frames of the boot services
-- data, leaves all other frames of the bitmap as they are, and keeps every free frame below the end of
-- the range.
pub page_allocator_release_boot_services_data-released :
    (s : PageAllocator) (map : MemoryMap Bytes)
    → IsWalkable map
    → IsBounded s
    → (t : PageAllocator) × (page_allocator_release_boot_services_data s (some map) ≡ some t)
      × ((g : ℕ) → g < frame_count → bm_get t g ≡ released g (table map) (bm_get s g))
      × IsBounded t
unfolding page_allocator_release_boot_services_data
page_allocator_release_boot_services_data-released s map walk b = (
  fold release_descriptor s (table map),
  for_descriptors-table release_descriptor map walk s,
  λ g h. fold-released g (table map) s h,
  fold-IsBounded release_descriptor release_descriptor-IsBounded (table map) s b,
)
