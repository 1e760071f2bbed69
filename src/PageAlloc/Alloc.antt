-- ===== src/PageAlloc/Alloc.antt =====
-- The allocation and release functions of page_alloc.c: what a successful allocation owns, that a
-- failed one means that no run is left, and that releasing gives back the bitmap.
use chypervisor.Prelude.{ℕ, ◌+◌, ◌-◌, ◌*◌, ◌/◌, ◌^◌, ◌≤◌, ◌<◌, ◌≢◌, ◌≡◌, refl, arith}
use chypervisor.Prelude.{sym, ap, ◌∙◌, Bool, true, false, Option, none, some, bit_and, not64}
use chypervisor.Prelude.{add64, ltb, ◌==◌, if◌then◌else◌, ◌⊎◌, inl, inr, Bool-cases}
use chypervisor.Prelude.Bits.{bit_and_high}
use chypervisor.Paging.{phys2virt, virt2phys, direct_map_base}
use chypervisor.PageAlloc.{
  PageAllocator, Run, found, not_found, no_fuel, bm_get, find_run, take_run,
}
use chypervisor.PageAlloc.{mark_range_unused, frames_for, align_or_one}
use chypervisor.PageAlloc.{page_alloc_bytes, page_free_bytes, page_alloc_pages, frame_to_phys}
use chypervisor.PageAlloc.{page_size, frame_count, phys_to_frame}
use chypervisor.PageAlloc.Bitmap.{bm_get-mark_range_used, in_run}
use chypervisor.PageAlloc.Bitmap.{SameFrame, mark_range_used-SameFrame}
use chypervisor.PageAlloc.Search.{IsFreeRun, IsFirstRun, find_run-IsFirstRun}

-- Frame 0 is reserved, and the managed range ends within the bitmap.
pub record IsValid (s : PageAllocator) : Type 0 where
  pub reserved : s.frame_begin ≡ 1
  pub nonempty : 1 ≤ s.frame_end
  pub within : s.frame_end ≤ frame_count

-- The virtual address of a frame.
abbrev pub frame_addr : Bool → ℕ → ℕ
frame_addr reconstructed f = phys2virt reconstructed (f * page_size)

-- What a call for `n` frames at alignment `a` may return. NULL comes back only if no aligned run is
-- free, and then nothing changes. Otherwise the address is that of the first such run: its frames
-- were free and are used now, and no other frame has changed.
pub record IsTaken (reconstructed : Bool) (s : PageAllocator) (n a start : ℕ) (p : ℕ)
    (t : PageAllocator) : Type 0 where
  pub run : IsFreeRun s n a start
  pub first : (q : ℕ) → IsFreeRun s n a q → start ≤ q
  pub address : p ≡ frame_addr reconstructed start
  pub not_null : p ≢ 0
  pub marked : (g : ℕ) → bm_get t g ≡ (if in_run start n g then 1 else bm_get s g)
  pub same : SameFrame s t

abbrev pub Allocates : Bool → PageAllocator → ℕ → ℕ → Option (ℕ × PageAllocator) → Type 0
Allocates rec s n a none = ⊥
Allocates rec s n a (some (p, t)) =
    ((start : ℕ) × IsTaken rec s n a start p t)
    ⊎ ((p ≡ 0) × (t ≡ s) × ((q : ℕ) → ¬ IsFreeRun s n a q))

-- Masking the address of a frame and translating it back gives the frame.
frame_of-frame_addr :
    (reconstructed : Bool) (f : ℕ)
    → f ≤ frame_count
    → phys_to_frame
        (virt2phys reconstructed (bit_and (frame_addr reconstructed f) (not64 (page_size - 1))))
      ≡ f
unfolding phys2virt virt2phys
frame_of-frame_addr false f l = rw (bit_and_high 52 12 (f * page_size) (omega arith)) (omega arith)
frame_of-frame_addr true f l =
    rw (bit_and_high 52 12 (add64 (f * page_size) direct_map_base) (omega arith)) (ground arith)

module _ (reconstructed : Bool) (s : PageAllocator) (valid : IsValid s) where
  frame_addr-ne_zero : (f : ℕ) → 1 ≤ f → f ≤ frame_count → frame_addr reconstructed f ≢ 0
  unfolding phys2virt
  frame_addr-ne_zero f h l = elim reconstructed as (λ b. frame_addr b f ≢ 0) [
    | true ↦ omega arith
    | false ↦ omega arith
  ]

  take_run-Allocates :
      (n a : ℕ) (r : Run)
      → IsFirstRun s n a r
      → Allocates reconstructed s n a (take_run reconstructed s n r)
  unfolding take_run
  take_run-Allocates n a no_fuel h = h
  take_run-Allocates n a not_found h = inr (refl, refl, h)
  take_run-Allocates n a (found start) (run, first) =
      let address : phys2virt reconstructed (frame_to_phys start) ≡ frame_addr reconstructed start =
        ap (phys2virt reconstructed) (omega (arith, run.to_end)) in
      inl (
        start,
        record {
          run = run;
          first = first;
          address = address;
          not_null = λ e.
              frame_addr-ne_zero start (omega (arith, run.from_begin)) (omega (arith, run.to_end))
                (sym address ∙ e);
          marked = λ g. bm_get-mark_range_used s start n g (omega (arith, run.to_end));
          same = mark_range_used-SameFrame s start n (omega (arith, run.to_end));
        },
      )

  search_first :
      (n a : ℕ) → (n < 2 ^ 62) × (a < 2 ^ 62) → IsFirstRun s n (align_or_one a) (find_run s n a)
  search_first n a h = find_run-IsFirstRun s n a (omega arith) (omega arith)

  -- In a valid state, for 1 to 2^62 - 1 pages and an alignment below 2^62, `page_alloc_pages` returns
  -- NULL only if no aligned run of that many frames is free, and then changes nothing. Otherwise it
  -- returns the address of the first such run, whose frames were free, lie in the managed range and
  -- are used from then on; no other frame changes.
  pub page_alloc_pages-Allocates :
      (n align : ℕ)
      → 0 < n
      → n < 2 ^ 62
      → align < 2 ^ 62
      → Allocates reconstructed s n
          (if ltb page_size align then (align + 4095) / 4096 else 1)
          (page_alloc_pages reconstructed s n align)
  unfolding page_alloc_pages
  page_alloc_pages-Allocates n align pos small small_a =
      let some_pages : (n == 0) ≡ false = ground arith in
      rw some_pages (elim (Bool-cases (ltb page_size align)) [
        | inl more ↦
            let round : frames_for align ≡ (align + 4095) / 4096 = omega arith in
            let aligned : align_or_one ((align + 4095) / 4096) ≡ (align + 4095) / 4096 =
              ground arith in
            rw (more, round)
              (take_run-Allocates n _ _
                (rw aligned at (search_first n ((align + 4095) / 4096) (omega arith))))
        | inr less ↦ rw less (take_run-Allocates n 1 _ (search_first n 1 (omega arith)))
      ])

  -- In a valid state, for 1 to 2^62 - 1 bytes, `page_alloc_bytes` returns NULL only if no run of the
  -- frames that hold the bytes is free, and then changes nothing. Otherwise it returns the address of
  -- the first such run, whose frames were free, lie in the managed range and are used from then on; no
  -- other frame changes.
  pub page_alloc_bytes-Allocates :
      (nbytes : ℕ)
      → 0 < nbytes
      → nbytes < 2 ^ 62
      → Allocates reconstructed s
          ((nbytes + 4095) / 4096)
          1
          (page_alloc_bytes reconstructed s nbytes)
  unfolding page_alloc_bytes
  page_alloc_bytes-Allocates nbytes pos small =
      let some_bytes : (nbytes == 0) ≡ false = ground arith in
      let round : frames_for nbytes ≡ (nbytes + 4095) / 4096 = omega arith in
      rw (some_bytes, round) (take_run-Allocates _ 1 _ (search_first _ 1 (omega arith)))

  -- The byte count rounds up to frames, and the address is one of a frame.
  pub page_free_bytes-eq :
      (f nbytes : ℕ)
      → 1 ≤ f
      → f ≤ frame_count
      → 0 < nbytes
      → nbytes < 2 ^ 62
      → page_free_bytes reconstructed s (frame_addr reconstructed f) nbytes
        ≡ mark_range_unused s f ((nbytes + 4095) / 4096)
  unfolding page_free_bytes
  page_free_bytes-eq f nbytes h l pos small =
      let some_bytes : (nbytes == 0) ≡ false = ground arith in
      let not_null : (frame_addr reconstructed f == 0) ≡ false =
        ground (arith, frame_addr-ne_zero f h l) in
      let round : frames_for nbytes ≡ (nbytes + 4095) / 4096 = omega arith in
      rw (not_null, some_bytes, round)
        (ap (λ (t : ℕ). mark_range_unused s t ((nbytes + 4095) / 4096))
          (frame_of-frame_addr reconstructed f l))
