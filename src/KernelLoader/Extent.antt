-- ===== src/KernelLoader/Extent.antt =====
-- The range of physical memory that kernel_loader.c asks the firmware for.
use chypervisor.Prelude.{
  ℕ, ◌+◌, ◌-◌, ◌*◌, ◌/◌, ◌%◌, ◌^◌, ◌≤◌, ◌<◌, ◌≡◌, ◌≢◌, refl, ap, arith, ◌⊎◌, inl, inr,
}
use chypervisor.Prelude.{List, [], ◌∷◌, if◌then◌else◌, Bool-cases, bit_and, not64, add64, sub64}
use chypervisor.Prelude.Bits.{bit_and_high}
use chypervisor.KernelLoader.Headers.{Phdr, align_down}
use chypervisor.KernelLoader.Image.{Range, widen, range_of, no_range, is_loaded, page_size}
use chypervisor.KernelLoader.Segments.{AllLoads}

-- The segment and the rest of its last page end below 2^64.
abbrev pub Low : Phdr → Type 0
Low p = p.p_paddr + p.p_memsz + page_size < 2 ^ 64

abbrev pub Covers : Range → Phdr → Type 0
Covers r p = (r.phys_start ≤ p.p_paddr) × (p.p_paddr + p.p_memsz ≤ r.phys_end)

rounded : (x : ℕ) → x < 2 ^ 64 → bit_and x (not64 (page_size - 1)) ≡ x / 4096 * 4096
rounded x h = bit_and_high 52 12 x (omega (arith, h))

-- A range whose ends are those of pages, or the empty one.
record IsPaged (r : Range) : Type 0 where
  start : (r.phys_start ≡ 2 ^ 64 - 1) ⊎ ((r.phys_start % 4096 ≡ 0) × (r.phys_start ≤ r.phys_end))
  end : r.phys_end % 4096 ≡ 0
  small : r.phys_end < 2 ^ 64

module _ (p : Phdr) (r : Range) (low : Low p) where
  -- The start and end of the segment's own pages.
  page_start : align_down p.p_paddr page_size ≡ p.p_paddr / 4096 * 4096
  page_start = rounded p.p_paddr (omega (arith, low))

  page_end :
      bit_and (add64 (add64 p.p_paddr p.p_memsz) (page_size - 1)) (not64 (page_size - 1))
      ≡ (p.p_paddr + p.p_memsz + 4095) / 4096 * 4096
  page_end =
      let sum : add64 (add64 p.p_paddr p.p_memsz) (page_size - 1) ≡ p.p_paddr + p.p_memsz + 4095 =
        omega (arith, low) in
      rw sum (rounded (p.p_paddr + p.p_memsz + 4095) (omega (arith, low)))

  widen-start : (widen p r).phys_start ≤ p.p_paddr
  widen-start = rw page_start (ground arith)

  widen-end : p.p_paddr + p.p_memsz ≤ (widen p r).phys_end
  widen-end = rw page_end (ground arith)

  widen-IsPaged : IsPaged r → IsPaged (widen p r)
  widen-IsPaged h = record {
    start = rw (page_start, page_end) (ground (arith, h.start, low));
    end = rw page_end (ground (arith, h.end));
    small = rw page_end (ground (arith, h.small, low));
  }

widen_grows :
    (p : Phdr) (r : Range)
    → ((widen p r).phys_start ≤ r.phys_start) × (r.phys_end ≤ (widen p r).phys_end)
widen_grows p r = (ground arith, ground arith)

-- A step of `range_of`.
abbrev step : Phdr → Range → Range
step p r = if is_loaded p then widen p r else r

step_grows :
    (p : Phdr) (r : Range)
    → ((step p r).phys_start ≤ r.phys_start) × (r.phys_end ≤ (step p r).phys_end)
step_grows p r = elim (Bool-cases (is_loaded p)) [
  | inl e ↦ rw e (widen_grows p r)
  | inr e ↦ rw e (omega arith)
]

range_of_grows :
    (ps : List Phdr) (r : Range)
    → ((range_of ps r).phys_start ≤ r.phys_start) × (r.phys_end ≤ (range_of ps r).phys_end)
unfolding range_of
range_of_grows [] r = omega arith
range_of_grows (p ∷ ps) r = omega (arith, range_of_grows ps (step p r), step_grows p r)

range_of-Covers :
    (ps : List Phdr) (r : Range) → AllLoads Low ps → AllLoads (Covers (range_of ps r)) ps
unfolding range_of
range_of-Covers [] r low = tt
range_of-Covers (p ∷ ps) r (low, rest) = (
  λ e.
      let now : (step p r) ≡ widen p r = rw e refl in
      let grown = range_of_grows ps (step p r) in
      (
        omega (arith, grown, ap (λ (x : Range). x.phys_start) now, widen-start p r (low e)),
        omega (arith, grown, ap (λ (x : Range). x.phys_end) now, widen-end p r (low e)),
      ),
  range_of-Covers ps (step p r) rest,
)

range_of-IsPaged :
    (ps : List Phdr) (r : Range) → AllLoads Low ps → IsPaged r → IsPaged (range_of ps r)
unfolding range_of
range_of-IsPaged [] r low h = h
range_of-IsPaged (p ∷ ps) r (low, rest) h =
    range_of-IsPaged ps (step p r) rest (elim (Bool-cases (is_loaded p)) [
      | inl e ↦ rw e (widen-IsPaged p r (low e) h)
      | inr e ↦ rw e h
    ])

-- For segments that end a page below 2^64, when one is loaded: the range starts at a page, the pages that
-- are asked for fill it exactly, and it holds every segment that is loaded.
pub range_of-bounds :
    (ps : List Phdr)
    → AllLoads Low ps
    → let r = range_of ps no_range in
      let pages = sub64 r.phys_end r.phys_start / page_size in
      r.phys_start ≢ 2 ^ 64 - 1
      → (r.phys_start % page_size ≡ 0)
        × (r.phys_start + pages * page_size ≡ r.phys_end)
        × AllLoads (Covers r) ps
range_of-bounds ps low some_range =
    let h = range_of-IsPaged ps no_range low (omega arith) in
    (
      omega (arith, h.start, some_range),
      omega (arith, h.start, h.end, h.small, some_range),
      range_of-Covers ps no_range low,
    )
