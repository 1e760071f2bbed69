-- ===== src/PageAlloc/Bitmap.antt =====
-- The bit operations of page_alloc.c frame by frame: setting and clearing a frame's bit, and the
-- two range loops.
use chypervisor.Prelude.{ℕ, zero, suc, ◌+◌, ◌-◌, ◌/◌, ◌%◌, ◌^◌, ◌≤◌, ◌<◌, ◌≡◌, refl, ◌∙◌, ap}
use chypervisor.Prelude.{bit_and, bit_or, ◌<<<◌, not64, add64, ltb, leb, ◌==◌, if◌then◌else◌}
use chypervisor.Prelude.{arith, ◌&&◌, Bool}
use chypervisor.Prelude.Bits.{bit, bit-bit_and, bit-bit_or, bit-pow, bit_complement, bit-lt}
use native.Mathlib.Nat.{pow-le-pow_right}
use chypervisor.Prelude.Bits.{shift-bit_and-one}
use chypervisor.PageAlloc.{PageAllocator, bm_get, bm_set_used, bm_set_unused, mark_from}
use chypervisor.PageAlloc.{mark_range_used, mark_range_unused}
use chypervisor.PageAlloc.{frame_count, mapline_count}

-- The bit of a frame, read from the line that holds it.
pub bm_get-bit : (s : PageAllocator) (f : ℕ) → bm_get s f ≡ bit (s.bitmap (f / 64)) (f % 64)
unfolding bm_get
bm_get-bit s f = shift-bit_and-one (f % 64) (s.bitmap (f / 64))

pub bm_get-lt : (s : PageAllocator) (f : ℕ) → bm_get s f < 2
bm_get-lt s f = omega (arith, bm_get-bit s f, bit-lt (s.bitmap (f / 64)) (f % 64))

bit_set : (x b i : ℕ) → bit (bit_or x (1 <<< b)) i ≡ (if i == b then 1 else bit x i)
bit_set x b i = ground (
  arith,
  bit-bit_or i x (1 <<< b),
  ap (λ (t : ℕ). bit t i) (one_shift b),
  bit-pow b i,
  bit-lt x i,
)
  where
    one_shift : (b : ℕ) → 1 <<< b ≡ 2 ^ b
    one_shift b = omega arith

pow_small : (b : ℕ) → b < 64 → 2 ^ b < 2 ^ 64
pow_small b h = omega (arith, pow-le-pow_right {n = 2} (omega arith) {i = b} {j = 63} (omega arith))

bit_clear :
    (x b i : ℕ)
    → b < 64
    → i < 64
    → bit (bit_and x (not64 (1 <<< b))) i ≡ (if i == b then 0 else bit x i)
bit_clear x b i hb hi = ground (
  arith,
  bit-bit_and i x (not64 (1 <<< b)),
  ap (λ (t : ℕ). bit t i) mask,
  bit_complement 64 i (2 ^ b) small hi,
  bit-pow b i,
  bit-lt x i,
)
  where
    small : 2 ^ b < 2 ^ 64
    small = pow_small b hb

    mask : not64 (1 <<< b) ≡ 2 ^ 64 - 1 - 2 ^ b
    mask = omega (arith, small)

-- Two frames share a line and a bit only if they are one frame.
pub bm_get-bm_set_used :
    (s : PageAllocator) (f g : ℕ) → bm_get (bm_set_used s f) g ≡ (if g == f then 1 else bm_get s g)
unfolding bm_set_used
bm_get-bm_set_used s f g = ground (
  arith,
  bm_get-bit s g,
  bm_get-bit (bm_set_used s f) g,
  bit_set (s.bitmap (g / 64)) (f % 64) (g % 64),
)

pub bm_get-bm_set_unused :
    (s : PageAllocator) (f g : ℕ)
    → bm_get (bm_set_unused s f) g ≡ (if g == f then 0 else bm_get s g)
unfolding bm_set_unused
bm_get-bm_set_unused s f g = ground (
  arith,
  bm_get-bit s g,
  bm_get-bit (bm_set_unused s f) g,
  bit_clear (s.bitmap (g / 64)) (f % 64) (g % 64),
)

-- A frame lies in the run of `n` frames from `start`.
abbrev pub in_run : ℕ → ℕ → ℕ → Bool
in_run start n g = leb start g && ltb g (start + n)

-- One round marks the first frame of what is left.
mark_from-used :
    (s : PageAllocator) (start i left g : ℕ)
    → start + i + left < 2 ^ 64
    → bm_get (mark_from bm_set_used start i left s) g
      ≡ (if in_run (start + i) left g then 1 else bm_get s g)
unfolding mark_from
mark_from-used s start i zero g h = ground arith
mark_from-used s start i (suc left) g h = ground (
  arith,
  mark_from-used (bm_set_used s (add64 start i)) start (i + 1) left g,
  bm_get-bm_set_used s (start + i) g,
)

mark_from-unused :
    (s : PageAllocator) (start i left g : ℕ)
    → start + i + left < 2 ^ 64
    → bm_get (mark_from bm_set_unused start i left s) g
      ≡ (if in_run (start + i) left g then 0 else bm_get s g)
unfolding mark_from
mark_from-unused s start i zero g h = ground arith
mark_from-unused s start i (suc left) g h = ground (
  arith,
  mark_from-unused (bm_set_unused s (add64 start i)) start (i + 1) left g,
  bm_get-bm_set_unused s (start + i) g,
)

-- `mark_range_used` marks exactly the frames of its range.
pub bm_get-mark_range_used :
    (s : PageAllocator) (start n g : ℕ)
    → start + n < 2 ^ 64
    → bm_get (mark_range_used s start n) g ≡ (if in_run start n g then 1 else bm_get s g)
unfolding mark_range_used
bm_get-mark_range_used s start n g h = ground (arith, mark_from-used s start 0 n g)

-- `mark_range_unused` clears exactly the frames of its range.
pub bm_get-mark_range_unused :
    (s : PageAllocator) (start n g : ℕ)
    → start + n < 2 ^ 64
    → bm_get (mark_range_unused s start n) g ≡ (if in_run start n g then 0 else bm_get s g)
unfolding mark_range_unused
bm_get-mark_range_unused s start n g h = ground (arith, mark_from-unused s start 0 n g)

-- What a marking loop leaves alone: the managed range, and the lines behind the array if the range
-- ends at or below the last managed frame.
pub record SameFrame (s t : PageAllocator) : Type 0 where
  pub same_begin : t.frame_begin ≡ s.frame_begin
  pub same_end : t.frame_end ≡ s.frame_end
  pub same_rest : (l : ℕ) → mapline_count ≤ l → t.bitmap l ≡ s.bitmap l

module _ (set : PageAllocator → ℕ → PageAllocator)
    (one : (s : PageAllocator) (f : ℕ) → f < frame_count → SameFrame s (set s f)) where
  mark_from-SameFrame :
      (s : PageAllocator) (start i left : ℕ)
      → start + i + left ≤ frame_count
      → SameFrame s (mark_from set start i left s)
  unfolding mark_from
  mark_from-SameFrame s start i zero h = record {
    same_begin = refl;
    same_end = refl;
    same_rest = λ l p. refl;
  }
  mark_from-SameFrame s start i (suc left) h =
      let step = one s (add64 start i) (omega arith) in
      let rest = mark_from-SameFrame (set s (add64 start i)) start (i + 1) left (omega arith) in
      record {
        same_begin = rest.same_begin ∙ step.same_begin;
        same_end = rest.same_end ∙ step.same_end;
        same_rest = λ l p. rest.same_rest l p ∙ step.same_rest l p;
      }

bm_set_used-SameFrame :
    (s : PageAllocator) (f : ℕ) → f < frame_count → SameFrame s (bm_set_used s f)
unfolding bm_set_used
bm_set_used-SameFrame s f h = record {
  same_begin = refl;
  same_end = refl;
  same_rest = λ l p. ground arith;
}

bm_set_unused-SameFrame :
    (s : PageAllocator) (f : ℕ) → f < frame_count → SameFrame s (bm_set_unused s f)
unfolding bm_set_unused
bm_set_unused-SameFrame s f h = record {
  same_begin = refl;
  same_end = refl;
  same_rest = λ l p. ground arith;
}

pub mark_range_used-SameFrame :
    (s : PageAllocator) (start n : ℕ)
    → start + n ≤ frame_count
    → SameFrame s (mark_range_used s start n)
unfolding mark_range_used
mark_range_used-SameFrame s start n h =
    mark_from-SameFrame bm_set_used bm_set_used-SameFrame s start 0 n (omega arith)

pub mark_range_unused-SameFrame :
    (s : PageAllocator) (start n : ℕ)
    → start + n ≤ frame_count
    → SameFrame s (mark_range_unused s start n)
unfolding mark_range_unused
mark_range_unused-SameFrame s start n h =
    mark_from-SameFrame bm_set_unused bm_set_unused-SameFrame s start 0 n (omega arith)
