-- ===== src/PageAlloc.antt =====
-- kernel/page_alloc.c: the physical page allocator, a bitmap with one bit for each 4 KiB frame
-- (1 = used). The three globals of the file are the fields of `PageAllocator`; a function that
-- changes them returns the new record. Line numbers at or above `mapline_count` stand for memory
-- behind the array.
pub mod Bitmap
pub mod Search
pub mod Alloc
pub mod Release
pub mod Setup
pub mod Init
pub mod Status
mod Tests
use chypervisor.Prelude.{
  ℕ, zero, suc, ◌+◌, ◌*◌, ◌/◌, ◌%◌, ◌^◌, Bool, true, false, Option, none, some,
}
use chypervisor.Prelude.{◌-◌, ltb, leb, ◌==◌, if◌then◌else◌, ◌||◌, ◌>>>◌, ◌<<<◌, bit_and, bit_or}
use chypervisor.Prelude.{add64, sub64, mul64, not64}
use chypervisor.Paging.{phys2virt, virt2phys}

abbrev pub page_size : ℕ
page_size = 4096

abbrev pub max_phys_size : ℕ
max_phys_size = 128 * 2 ^ 30

abbrev pub frame_count : ℕ
frame_count = max_phys_size / page_size

abbrev pub bits_per_mapline : ℕ
bits_per_mapline = 64

abbrev pub mapline_count : ℕ
mapline_count = frame_count / bits_per_mapline

pub record PageAllocator : Type 0 where
  pub bitmap : ℕ → ℕ
  pub frame_begin : ℕ
  pub frame_end : ℕ

abbrev pub phys_to_frame : ℕ → ℕ
phys_to_frame phys = phys / page_size

abbrev pub frame_to_phys : ℕ → ℕ
frame_to_phys frm = mul64 frm page_size

-- One store into the `g_bitmap` array.
abbrev pub store_line : (ℕ → ℕ) → ℕ → ℕ → ℕ → ℕ
store_line m li v l = if l == li then v else m l

unfoldable pub bm_get : PageAllocator → ℕ → ℕ
bm_get s frame = bit_and (s.bitmap (frame / bits_per_mapline) >>> (frame % bits_per_mapline)) 1

unfoldable pub bm_set_used : PageAllocator → ℕ → PageAllocator
bm_set_used s frame =
    let li = frame / bits_per_mapline in
    let bi = frame % bits_per_mapline in
    record s { bitmap = store_line s.bitmap li (bit_or (s.bitmap li) (1 <<< bi)) }

unfoldable pub bm_set_unused : PageAllocator → ℕ → PageAllocator
bm_set_unused s frame =
    let li = frame / bits_per_mapline in
    let bi = frame % bits_per_mapline in
    record s { bitmap = store_line s.bitmap li (bit_and (s.bitmap li) (not64 (1 <<< bi))) }

-- The loop of both `mark_range` functions at counter `i`, with `left` rounds to go.
unfoldable pub mark_from :
    (PageAllocator → ℕ → PageAllocator) → ℕ → ℕ → ℕ → PageAllocator → PageAllocator
mark_from set start_frame i zero s = s
mark_from set start_frame i (suc left) s =
    mark_from set start_frame (i + 1) left (set s (add64 start_frame i))

unfoldable pub mark_range_used : PageAllocator → ℕ → ℕ → PageAllocator
mark_range_used s start_frame num_frames = mark_from bm_set_used start_frame 0 num_frames s

unfoldable pub mark_range_unused : PageAllocator → ℕ → ℕ → PageAllocator
mark_range_unused s start_frame num_frames = mark_from bm_set_unused start_frame 0 num_frames s

-- The inner `for` of `find_run`: the index of the first used frame, or the end of the range.
unfoldable pub scan : PageAllocator → ℕ → ℕ → ℕ → ℕ
scan s start i zero = i
scan s start i (suc left) =
    let rest = scan s start (i + 1) left in if bm_get s (add64 start i) == 0 then rest else i

-- What `find_run` reports; `no_fuel` is a loop that has not ended within its rounds.
pub data Run : Type 0 where
  found : ℕ → Run
  not_found no_fuel : Run

-- `(x + align_frames - 1) / align_frames * align_frames`
abbrev pub align_frame : ℕ → ℕ → ℕ
align_frame align_frames x = mul64 (sub64 (add64 x align_frames) 1 / align_frames) align_frames

-- `if (align_frames == 0) align_frames = 1;`
abbrev pub align_or_one : ℕ → ℕ
align_or_one align_frames = if align_frames == 0 then 1 else align_frames

-- The outer `while` of `find_run`.
unfoldable pub find_from : PageAllocator → ℕ → ℕ → ℕ → ℕ → Run
find_from s needed align_frames zero start = no_fuel
find_from s needed align_frames (suc fuel) start =
    let i = scan s start 0 needed in
    let again =
      find_from s needed align_frames fuel (align_frame align_frames (add64 (add64 start i) 1)) in
    if leb (add64 start needed) s.frame_end
    then (if i == needed then found start else again)
    else not_found

unfoldable pub find_run : PageAllocator → ℕ → ℕ → Run
find_run s needed align_frames =
    let a = align_or_one align_frames in
    find_from s needed a (s.frame_end + 2) (align_frame a s.frame_begin)

-- The common end of the allocation functions: mark the run and return its address (0 is NULL).
-- `none` is a search that did not end.
unfoldable pub take_run : Bool → PageAllocator → ℕ → Run → Option (ℕ × PageAllocator)
take_run reconstructed s num_frames no_fuel = none
take_run reconstructed s num_frames not_found = some (0, s)
take_run reconstructed s num_frames (found start) =
    some (phys2virt reconstructed (frame_to_phys start), mark_range_used s start num_frames)

-- `(nbytes + PAGE_SIZE - 1) / PAGE_SIZE` on `uint64_t`
abbrev pub frames_for : ℕ → ℕ
frames_for nbytes = sub64 (add64 nbytes page_size) 1 / page_size

unfoldable pub page_alloc_bytes : Bool → PageAllocator → ℕ → Option (ℕ × PageAllocator)
page_alloc_bytes reconstructed s nbytes =
    let need_frames = frames_for nbytes in
    if nbytes == 0
    then some (0, s)
    else take_run reconstructed s need_frames (find_run s need_frames 1)

unfoldable pub page_free_bytes : Bool → PageAllocator → ℕ → ℕ → PageAllocator
page_free_bytes reconstructed s ptr nbytes =
    let vbase = bit_and ptr (not64 (page_size - 1)) in
    if ptr == 0 || nbytes == 0
    then s
    else mark_range_unused s (phys_to_frame (virt2phys reconstructed vbase)) (frames_for nbytes)

unfoldable pub page_alloc_pages : Bool → PageAllocator → ℕ → ℕ → Option (ℕ × PageAllocator)
page_alloc_pages reconstructed s num_pages align_bytes =
    let align_frames = if ltb page_size align_bytes then frames_for align_bytes else 1 in
    if num_pages == 0
    then some (0, s)
    else take_run reconstructed s num_pages (find_run s num_pages align_frames)

unfoldable pub page_alloc_4k_aligned : Bool → PageAllocator → Option (ℕ × PageAllocator)
page_alloc_4k_aligned reconstructed s = page_alloc_pages reconstructed s 1 page_size

unfoldable pub page_free_4k : Bool → PageAllocator → ℕ → PageAllocator
page_free_4k reconstructed s ptr =
    if ptr == 0 then s else page_free_bytes reconstructed s ptr page_size
