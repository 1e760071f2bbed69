-- ===== src/Paging/Kernel.antt =====
-- `paging_reconstruct` over the page allocator of page_alloc.c.
use chypervisor.Prelude.{ℕ, ◌+◌, ◌*◌, ◌≤◌, ◌≡◌, ◌≢◌, Bool, true, false, sym, ap, ◌∙◌, arith}
use chypervisor.Prelude.{Option, none, some, inl, inr, bit_and, ltb, add64, sub64}
use chypervisor.Prelude.Bits.{bit_and_high}
use mathlib.Core.Path.{subst}
use chypervisor.Paging.{virt2phys, phys2virt, direct_map_base, kernel_base}
use chypervisor.Paging.Table.{pte_addr_mask}
use chypervisor.Paging.Reconstruct.{Pages}
use chypervisor.Paging.Clone.{Laws}
use chypervisor.PageAlloc.{PageAllocator, page_alloc_4k_aligned, bm_get, page_size, frame_count}
use chypervisor.PageAlloc.Alloc.{IsValid, Allocates, frame_addr, page_alloc_pages-Allocates}

-- The address of a frame of the managed range leads back to itself through an entry.
frame_addr-linked :
    (r : Bool) (f : ℕ)
    → f ≤ frame_count
    → phys2virt r (bit_and (virt2phys r (frame_addr r f)) pte_addr_mask) ≡ frame_addr r f
unfolding phys2virt virt2phys
frame_addr-linked false f h = bit_and_high 40 12 (f * page_size) (omega arith) ∙ omega arith
frame_addr-linked true f h =
    let low : ltb (add64 (f * page_size) direct_map_base) kernel_base ≡ true = ground arith in
    let back : sub64 (add64 (f * page_size) direct_map_base) direct_map_base ≡ f * page_size =
      omega arith in
    rw (low, back)
      (ap (λ x. add64 x direct_map_base)
        (bit_and_high 40 12 (f * page_size) (omega arith) ∙ omega arith))

frame_addr-inj :
    (r : Bool) (f g : ℕ)
    → f ≤ frame_count
    → g ≤ frame_count
    → frame_addr r f ≡ frame_addr r g
    → f ≡ g
unfolding phys2virt
frame_addr-inj false f g h k e = omega arith
frame_addr-inj true f g h k e = omega arith

module _ (r : Bool) where
  -- The allocator, once it is set up.
  abbrev pub Allocator : Type 0
  Allocator = (s : PageAllocator) × IsValid s

  -- An answer of the allocator for one page, together with the validity of the state that it leaves.
  abbrev given :
      (s : PageAllocator)
      → IsValid s
      → (o : Option (ℕ × PageAllocator)) → Allocates r s 1 1 o
      → ℕ × Allocator
  given s valid none a = absurd a
  given s valid (some (p, t)) (inl (start, taken)) = (
    p,
    (
      t,
      record {
        reserved = taken.same.same_begin ∙ valid.reserved;
        nonempty = omega (arith, taken.same.same_end, valid.nonempty);
        within = omega (arith, taken.same.same_end, valid.within);
      },
    ),
  )
  given s valid (some (p, t)) (inr (null, same, full)) = (p, (t, subst IsValid (sym same) valid))

  pub page_answer : (s : PageAllocator) → IsValid s → Allocates r s 1 1 (page_alloc_4k_aligned r s)
  unfolding page_alloc_4k_aligned
  page_answer s valid =
      page_alloc_pages-Allocates r s valid 1 page_size (omega arith) (omega arith) (omega arith)

  abbrev pub kernel_pages : Pages
  kernel_pages = record {
    State = Allocator;
    page_alloc_4k_aligned =
        λ (s : Allocator). given s.0 s.1 (page_alloc_4k_aligned r s.0) (page_answer s.0 s.1);
  }

  -- The pages in use: the frames of the bitmap that are marked.
  abbrev pub Used : Allocator → ℕ → Type 0
  Used s q = (f : ℕ) × (f ≤ frame_count) × (q ≡ frame_addr r f) × (bm_get s.0 f ≡ 1)

  abbrev IsFair : Allocator → ℕ × Allocator → Type 0
  IsFair s (p, t) =
      ((q : ℕ) → Used s q → Used t q)
      × (p ≢ 0
          → (¬ Used s p) × Used t p × (phys2virt r (bit_and (virt2phys r p) pte_addr_mask) ≡ p))

  given-IsFair :
      (s : PageAllocator) (valid : IsValid s) (o : Option (ℕ × PageAllocator))
      (a : Allocates r s 1 1 o)
      → IsFair (s, valid) (given s valid o a)
  given-IsFair s valid none a = absurd a
  given-IsFair s valid (some (p, t)) (inr (null, same, full)) = (
    λ q (f, below, at_f, marked). (f, below, at_f, ap (λ x. bm_get x f) same ∙ marked),
    λ ne. absurd (ne null),
  )
  given-IsFair s valid (some (p, t)) (inl (start, taken)) =
      let small : start ≤ frame_count = omega (arith, taken.run.to_end, valid.within) in
      let unmarked : bm_get s start ≡ 0 =
        let e : start + 0 ≡ start = omega arith in rw e at (taken.run.free 0 (omega arith)) in
      (
        λ q (f, below, at_f, marked). (f, below, at_f, ground (arith, taken.marked f, marked)),
        λ ne. (
          λ (f, below, at_f, marked).
              let same = frame_addr-inj r start f small below (sym taken.address ∙ at_f) in
              let contra : 0 ≡ 1 = sym unmarked ∙ ap (bm_get s) same ∙ marked in
              absurd (omega (arith, contra)),
          (start, small, taken.address, ground (arith, taken.marked start)),
          subst (λ x. phys2virt r (bit_and (virt2phys r x) pte_addr_mask) ≡ x) (sym taken.address)
              (frame_addr-linked r start small),
        ),
      )

  pub kernel_pages-Laws : Laws kernel_pages r Used
  kernel_pages-Laws =
      let fair : (s : Allocator) → IsFair s (kernel_pages.page_alloc_4k_aligned s) =
        λ s. given-IsFair s.0 s.1 (page_alloc_4k_aligned r s.0) (page_answer s.0 s.1) in
      record {
        keeps = λ s q o. (fair s).0 q o;
        fresh = λ s ne. ((fair s).1 ne).0;
        owns = λ s ne. ((fair s).1 ne).1;
        links = λ s ne. ((fair s).1 ne).2;
      }
