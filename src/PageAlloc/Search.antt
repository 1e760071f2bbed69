-- ===== src/PageAlloc/Search.antt =====
-- `find_run` of page_alloc.c: it ends, and finds the first aligned run of free frames.
use chypervisor.Prelude.{
  ℕ, zero, suc, ◌+◌, ◌-◌, ◌*◌, ◌≤◌, ◌<◌, ◌≢◌, ◌^◌, ◌≡◌, arith, sym, ap, ◌∙◌, dec_lt,
}
use native.Mathlib.Nat.{div-mul-le_self, mod-eq_of_lt}
use chypervisor.Prelude.{add64, sub64, ◌/◌, leb, ◌==◌, Bool-cases, inl, inr, ==→eq, ==→ne}
use chypervisor.Prelude.{leb→le, leb→lt}
use chypervisor.Prelude.Round.{round_up, round_up-ge, round_up-lt, round_up-multiple}
use chypervisor.Prelude.Round.{round_up-least}
use chypervisor.PageAlloc.{
  PageAllocator, bm_get, scan, find_from, find_run, align_frame, frame_count, align_or_one,
}
use chypervisor.PageAlloc.{Run, found, not_found, no_fuel}

-- A run of `n` free frames from `start`, at a multiple of `a`, within the managed range.
pub record IsFreeRun (s : PageAllocator) (n a start : ℕ) : Type 0 where
  pub from_begin : s.frame_begin ≤ start
  pub aligned : (q : ℕ) × (start ≡ q * a)
  pub to_end : start + n ≤ s.frame_end
  pub free : (i : ℕ) → i < n → bm_get s (start + i) ≡ 0

-- What a search may report: the first run, or that there is none.
abbrev pub IsFirstRun : PageAllocator → ℕ → ℕ → Run → Type 0
IsFirstRun s n a (found r) = IsFreeRun s n a r × ((t : ℕ) → IsFreeRun s n a t → r ≤ t)
IsFirstRun s n a not_found = (t : ℕ) → ¬ IsFreeRun s n a t
IsFirstRun s n a no_fuel = ⊥

-- What the inner loop reports, started at index `i` with `left` frames to look at.
record IsScanned (s : PageAllocator) (start i left j : ℕ) : Type 0 where
  low : i ≤ j
  high : j ≤ i + left
  clear : (k : ℕ) → i ≤ k → k < j → bm_get s (start + k) ≡ 0
  stopped : j < i + left → bm_get s (start + j) ≢ 0

scan-IsScanned :
    (s : PageAllocator) (start i left : ℕ)
    → start + i + left < 2 ^ 64
    → IsScanned s start i left (scan s start i left)
unfolding scan
scan-IsScanned s start i zero h = record {
  low = omega arith;
  high = omega arith;
  clear = λ k p q. absurd (omega arith);
  stopped = λ p. absurd (omega arith);
}
scan-IsScanned s start i (suc left) h = elim (Bool-cases (bm_get s (add64 start i) == 0)) [
  | inl free ↦ rw free (
      let rest = scan-IsScanned s start (i + 1) left (omega arith) in
      record {
        low = omega (arith, rest.low);
        high = omega (arith, rest.high);
        clear = λ k p q. ground (arith, rest.clear k);
        stopped = λ p. rest.stopped (omega arith);
      })
  | inr used ↦ rw used (record {
    low = omega arith;
    high = omega arith;
    clear = λ k p q. absurd (omega arith);
    stopped = λ p e. ground arith;
  })
]

-- Without a wrap the rounding of the code is `round_up`.
align_frame-eq : (a x : ℕ) → 0 < a → x + a < 2 ^ 64 → align_frame a x ≡ round_up a x
unfolding round_up
align_frame-eq a x h l =
    let inner : sub64 (add64 x a) 1 ≡ x + a - 1 = omega arith in
    rw inner (mod-eq_of_lt {n = (x + a - 1) / a * a} (omega (arith, div-mul-le_self (x + a - 1) a)))

-- A used frame inside the run rules out every start up to that frame.
IsFreeRun-skip :
    {s : PageAllocator} {n a start j t : ℕ}
    → bm_get s (start + j) ≢ 0
    → j < n
    → start ≤ t
    → IsFreeRun s n a t
    → start + j + 1 ≤ t
IsFreeRun-skip {s} {start = start} {j = j} {t = t} used l le run = elim (dec_lt (start + j) t) [
  | yes p ↦ omega arith
  | no p ↦
      let k = start + j - t in
      let same : t + k ≡ start + j = omega arith in
      absurd (used (ap (bm_get s) (sym same) ∙ run.free k (omega arith)))
]

-- The managed range and the request are far from the ends of 64-bit arithmetic.
abbrev pub InRange : PageAllocator → ℕ → ℕ → Type 0
InRange s n a = (s.frame_end ≤ frame_count) × (n < 2 ^ 62) × (a < 2 ^ 62)

module _ (s : PageAllocator) (n a : ℕ) (pos : 0 < a) (range : InRange s n a) where
  -- Every run lies at or behind `start`, the multiple of `a` that is tried next.
  record IsNext (start : ℕ) : Type 0 where
    low : s.frame_begin ≤ start
    bound : start < 2 ^ 63
    aligned : (q : ℕ) × (start ≡ q * a)
    first : (t : ℕ) → IsFreeRun s n a t → start ≤ t

  IsNext-round_up :
      (x : ℕ)
      → s.frame_begin ≤ x
      → x ≤ frame_count
      → ((t : ℕ) → IsFreeRun s n a t → x ≤ t)
      → IsNext (align_frame a x)
  IsNext-round_up x low high first = rw (align_frame-eq a x pos (omega arith)) (record {
    low = omega (arith, round_up-ge a x pos);
    bound = omega (arith, round_up-lt a x pos);
    aligned = round_up-multiple a x pos;
    first = λ t run.
        let (q, e) = run.aligned in rw e (round_up-least a x q pos (rw e at (first t run)));
  })

  -- The next start lies behind the frame that stopped the scan.
  align_frame-gt : (x : ℕ) → x ≤ frame_count → x ≤ align_frame a x
  align_frame-gt x h = rw (align_frame-eq a x pos (omega arith)) (round_up-ge a x pos)

  find_from-IsFirstRun :
      (fuel start : ℕ)
      → s.frame_end + 1 - start < fuel
      → IsNext start
      → IsFirstRun s n a (find_from s n a fuel start)
  unfolding find_from
  find_from-IsFirstRun zero start enough next = absurd (omega arith)
  find_from-IsFirstRun (suc fuel) start enough next =
      elim (Bool-cases (leb (add64 start n) s.frame_end)) [
        | inr over ↦ rw over (λ t run.
            absurd (omega (arith, next.first t run, run.to_end, leb→lt _ _ over, next.bound)))
        | inl fits ↦ rw fits (elim (Bool-cases (scan s start 0 n == n)) [
          | inl all ↦ rw all (
            let seen = scan-IsScanned s start 0 n (omega (arith, next.bound)) in
                let count = ==→eq _ _ all in
                record {
                  from_begin = next.low;
                  aligned = next.aligned;
                  to_end = omega (arith, leb→le _ _ fits, next.bound);
                  free = λ i l. seen.clear i (omega arith) (omega (arith, count));
                },
            next.first,
          )
          | inr hit ↦ rw hit (
              let i = scan s start 0 n in
              let seen = scan-IsScanned s start 0 n (omega (arith, next.bound)) in
              let fits' : start + n ≤ s.frame_end = omega (arith, leb→le _ _ fits, next.bound) in
              let short : i < n = omega (arith, seen.high, ==→ne _ _ hit) in
              let step : add64 (add64 start i) 1 ≡ start + i + 1 = omega arith in
              let next' =
                IsNext-round_up (start + i + 1) (omega (arith, next.low)) (omega arith) (λ t run.
                  IsFreeRun-skip (seen.stopped (omega arith)) short (next.first t run) run) in
              rw step (
                find_from-IsFirstRun fuel _
                  (omega (arith, align_frame-gt (start + i + 1) (omega arith))) next'))
        ])
      ]

  find_from-begin-IsFirstRun :
      s.frame_begin ≤ s.frame_end
      → IsFirstRun s n a (find_from s n a (s.frame_end + 2) (align_frame a s.frame_begin))
  find_from-begin-IsFirstRun h =
      find_from-IsFirstRun _ _ (omega arith)
        (IsNext-round_up s.frame_begin (omega arith) (omega arith) (λ t run. run.from_begin))

-- When the managed range is not reversed and its end, the length and the alignment are small enough
-- for no address arithmetic to wrap, `find_run` ends, and reports the least aligned start of a run of
-- free frames in the managed range, or that there is none. An alignment of 0 counts as 1.
pub find_run-IsFirstRun :
    (s : PageAllocator) (n a : ℕ)
    → InRange s n a
    → s.frame_begin ≤ s.frame_end
    → IsFirstRun s n (align_or_one a) (find_run s n a)
unfolding find_run
find_run-IsFirstRun s n a range h =
    find_from-begin-IsFirstRun s n (align_or_one a) (ground arith) (ground arith) h
