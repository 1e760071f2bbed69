-- ===== src/PageAlloc/Release.antt =====
-- Sequences of calls of page_alloc.c: release after allocation, and two allocations in a row.
use chypervisor.Prelude.{dec_lt, max, ℕ, ◌-◌, ◌+◌, ◌/◌, ◌^◌, ◌≤◌, ◌<◌, ◌≢◌, ◌≡◌, arith, ap, ◌∙◌}
use chypervisor.Prelude.{Bool, true, some, ◌⊎◌, inl, inr}
use chypervisor.PageAlloc.{PageAllocator, bm_get, page_alloc_bytes}
use chypervisor.PageAlloc.{page_free_bytes, mark_range_unused, frame_count}
use chypervisor.PageAlloc.Bitmap.{
  in_run, bm_get-mark_range_unused, SameFrame, mark_range_unused-SameFrame,
}
use chypervisor.PageAlloc.Search.{IsFreeRun}
use chypervisor.PageAlloc.Alloc.{IsValid, IsTaken, page_alloc_bytes-Allocates}
use chypervisor.PageAlloc.Alloc.{page_free_bytes-eq, frame_addr}

-- A managed range is kept by what keeps the two bounds.
pub SameFrame-IsValid : {s t : PageAllocator} → SameFrame s t → IsValid s → IsValid t
SameFrame-IsValid same v = omega (arith, same.same_begin, same.same_end)

module _ (reconstructed : Bool) {s : PageAllocator} (valid : IsValid s) where
  -- A successful call of an allocation function leaves one of the two cases of `Allocates`.
  IsTaken-of :
      (n a : ℕ) {p : ℕ} {t : PageAllocator}
      → p ≢ 0
      → ((start : ℕ) × IsTaken reconstructed s n a start p t)
        ⊎ ((p ≡ 0) × (t ≡ s) × ((q : ℕ) → ¬ IsFreeRun s n a q))
      → (start : ℕ) × IsTaken reconstructed s n a start p t
  IsTaken-of n a h (inl taken) = taken
  IsTaken-of n a h (inr (e, _, _)) = absurd (h e)

  pub page_alloc_bytes-IsTaken :
      (nbytes : ℕ) {p : ℕ} {t : PageAllocator}
      → 0 < nbytes
      → nbytes < 2 ^ 62
      → page_alloc_bytes reconstructed s nbytes ≡ some (p, t)
      → p ≢ 0
      → (start : ℕ) × IsTaken reconstructed s ((nbytes + 4095) / 4096) 1 start p t
  page_alloc_bytes-IsTaken nbytes pos small e h =
      IsTaken-of _ 1 h (rw e at (page_alloc_bytes-Allocates reconstructed s valid nbytes pos small))

free_in_run :
    (s : PageAllocator) (n start g : ℕ)
    → ((i : ℕ) → i < n → bm_get s (start + i) ≡ 0)
    → in_run start n g ≡ true
    → bm_get s g ≡ 0
free_in_run s n start g free h =
    let here : start + (g - start) ≡ g = ground arith in
    rw here at (free (g - start) (ground arith))

-- A free run of the state after an allocation does not meet the frames that were handed out.
runs_disjoint :
    (reconstructed : Bool) {s t : PageAllocator} {m n a b i j p : ℕ}
    → 0 < m
    → 0 < n
    → IsTaken reconstructed s m a i p t
    → IsFreeRun t n b j
    → (i + m ≤ j) ⊎ (j + n ≤ i)
runs_disjoint reconstructed {s} {t} {m} {n} {i = i} {j = j} hm hn taken run =
    elim (dec_lt j (i + m)) [
      | no p ↦ inl (omega arith)
      | yes p ↦ elim (dec_lt i (j + n)) [
        | no q ↦ inr (omega arith)
        | yes q ↦
            let g = max i j in
            let here : j + (g - j) ≡ g = omega arith in
            let free : bm_get t g ≡ 0 = rw here at (run.free (g - j) (omega arith)) in
            absurd (ground (arith, free, taken.marked g))
      ]
    ]

module _ (reconstructed : Bool) (s : PageAllocator) (valid : IsValid s) where
  -- In a valid state, for 1 to 2^62 - 1 bytes: releasing what `page_alloc_bytes` returned, if that is
  -- not NULL, makes every frame what it was before the call, and leaves a valid state.
  pub page_free_bytes-page_alloc_bytes :
      (nbytes p : ℕ) (t : PageAllocator)
      → 0 < nbytes
      → nbytes < 2 ^ 62
      → page_alloc_bytes reconstructed s nbytes ≡ some (p, t)
      → p ≢ 0
      → ((g : ℕ) → bm_get (page_free_bytes reconstructed t p nbytes) g ≡ bm_get s g)
        × IsValid (page_free_bytes reconstructed t p nbytes)
  page_free_bytes-page_alloc_bytes nbytes p t pos small e h =
      let (start, taken) = page_alloc_bytes-IsTaken reconstructed valid nbytes pos small e h in
      let n = (nbytes + 4095) / 4096 in
      let valid_t = SameFrame-IsValid taken.same valid in
      let run = taken.run in
      let inside : (1 ≤ start) × (start + n ≤ frame_count) =
        omega (arith, run.from_begin, run.to_end) in
      let freed : page_free_bytes reconstructed t p nbytes ≡ mark_range_unused t start n =
        ap (λ v. page_free_bytes reconstructed t v nbytes) taken.address
        ∙ page_free_bytes-eq reconstructed t valid_t start nbytes (omega arith) (omega arith) pos
            small in
      rw freed (
        (λ g. ground (
          arith,
          bm_get-mark_range_unused t start n g,
          taken.marked g,
          free_in_run s n start g run.free,
        )),
        SameFrame-IsValid (mark_range_unused-SameFrame t start n inside.1) valid_t,
      )

  -- From a valid state, two allocations in a row of 1 to 2^62 - 1 bytes that do not return NULL own
  -- disjoint runs of frames, which the bitmap covers.
  pub page_alloc_bytes_twice :
      (m n p q : ℕ) (t u : PageAllocator)
      → (0 < m) × (m < 2 ^ 62) × (0 < n) × (n < 2 ^ 62)
      → page_alloc_bytes reconstructed s m ≡ some (p, t)
      → page_alloc_bytes reconstructed t n ≡ some (q, u)
      → p ≢ 0
      → q ≢ 0
      → (i j : ℕ) × (p ≡ frame_addr reconstructed i)
        × (q ≡ frame_addr reconstructed j)
        × (i + (m + 4095) / 4096 ≤ frame_count)
        × (j + (n + 4095) / 4096 ≤ frame_count)
        × ((i + (m + 4095) / 4096 ≤ j) ⊎ (j + (n + 4095) / 4096 ≤ i))
  page_alloc_bytes_twice m n p q t u small e f h k =
      let (i, one) = page_alloc_bytes-IsTaken reconstructed valid m small.0 small.1 e h in
      let valid_t = SameFrame-IsValid one.same valid in
      let (j, two) = page_alloc_bytes-IsTaken reconstructed valid_t n small.2 small.3 f k in
      (
        i,
        j,
        one.address,
        two.address,
        omega (arith, one.run.to_end, valid.within),
        omega (arith, two.run.to_end, valid_t.within),
        runs_disjoint reconstructed (omega arith) (omega arith) one two.run,
      )
