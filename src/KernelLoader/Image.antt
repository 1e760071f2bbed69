-- ===== src/KernelLoader/Image.antt =====
-- `load_kernel_elf` and the functions below it (kernel_loader.c). The program headers are read from memory
-- once, since the loops write only to the pages of the image and to page tables.
use chypervisor.Prelude.{
  ℕ, zero, suc, ◌+◌, ◌-◌, ◌*◌, ◌/◌, ◌^◌, Bool, Option, none, some, List, [], ◌∷◌,
}
use chypervisor.Prelude.{
  ◌==◌, ltb, if◌then◌else◌, ◌||◌, ◌&&◌, not, bit_and, not64, add64, sub64, ◌>>=◌,
}
use chypervisor.BootPage.{
  Loader, is_success, EfiStatus, efi_success, page_set_lv4_writable, page_map4k_to,
  page_apply_attr_range, PageAttr,
}
use chypervisor.KernelLoader.{
  Firmware, Status, paging, is_error, efi_ok, efi_load_error, efi_invalid, efi_no_file,
  efi_out_of_resources, or_else, file_read_at,
}
use chypervisor.KernelLoader.Headers.{
  Ehdr, Phdr, ehdr_at, phdrs_at, ehdr_bytes, check_header, pt_load, attr_from_phdr,
  temp_attr_for_load, align_up, align_down,
}

abbrev pub page_size : ℕ
page_size = 4096

-- The bytes of a buffer.
abbrev pub at_index : List ℕ → ℕ → ℕ
at_index [] i = 0
at_index (x ∷ xs) zero = x
at_index (x ∷ xs) (suc i) = at_index xs i

-- Memory after bytes have been stored from an address up.
abbrev pub store_bytes : List ℕ → ℕ → (ℕ → ℕ) → ℕ → ℕ
store_bytes [] a m = m
store_bytes (x ∷ xs) a m = store_bytes xs (a + 1) (λ q. if q == a then x else m q)

-- The test at the head of the loops.
abbrev pub is_loaded : Phdr → Bool
is_loaded p = p.p_type == pt_load && not (p.p_memsz == 0)

-- `k_phys_start`, `k_phys_end` and `k_virt_start`.
pub record Range : Type 0 where
  pub phys_start : ℕ
  pub phys_end : ℕ
  pub virt_start : ℕ

abbrev pub widen : Phdr → Range → Range
widen p r =
    let lo = align_down p.p_paddr page_size in
    let hi = bit_and (add64 (add64 p.p_paddr p.p_memsz) (page_size - 1)) (not64 (page_size - 1)) in
    let virt = align_down p.p_vaddr page_size in
    record {
      phys_start = if ltb lo r.phys_start then lo else r.phys_start;
      phys_end = if ltb r.phys_end hi then hi else r.phys_end;
      virt_start = if ltb virt r.virt_start then virt else r.virt_start;
    }

unfoldable pub range_of : List Phdr → Range → Range
range_of [] r = r
range_of (p ∷ ps) r = range_of ps (if is_loaded p then widen p r else r)

abbrev pub no_range : Range
no_range = record { phys_start = 2 ^ 64 - 1; phys_end = 0; virt_start = 2 ^ 64 - 1 }

module _ (F : Firmware) where
  -- The page tables with the state of the services, and physical memory as bytes.
  pub record Boot : Type 0 where
    pub tables : Loader F.boot
    pub bytes : ℕ → ℕ

  abbrev pub with_services : F.boot.State → Boot → Boot
  with_services w s = let t = s.tables in record s { tables = record t { services = w } }

  -- The loop of `map_segment_for_load`, over the pages that are left.
  unfoldable pub map_pages : ℕ → ℕ → PageAttr → ℕ → Loader F.boot → EfiStatus × Loader F.boot
  map_pages v pa a zero t = (efi_success, t)
  map_pages v pa a (suc left) t =
      let (st, t') = page_map4k_to F.boot v pa a t in
      let rest = map_pages (add64 v page_size) (add64 pa page_size) a left t' in
      if is_success st then rest else (st, t')

  unfoldable pub map_segment_for_load : Phdr → Loader F.boot → EfiStatus × Loader F.boot
  map_segment_for_load p t =
      let v = align_down p.p_vaddr page_size in
      let pa = align_down p.p_paddr page_size in
      let sz = align_up (add64 p.p_memsz (p.p_vaddr - v)) page_size in
      map_pages v pa (temp_attr_for_load p) (sz / page_size) t

  unfoldable pub finalize_segment_protection : Phdr → Loader F.boot → EfiStatus × Loader F.boot
  finalize_segment_protection p t =
      let v = align_down p.p_vaddr page_size in
      let sz = align_up (add64 p.p_memsz (p.p_vaddr - v)) page_size in
      page_apply_attr_range F.boot v sz (attr_from_phdr p) t

  -- The loops of steps 6 and 8, whose status is a variable of the loop's own.
  unfoldable pub map_segments : List Phdr → Loader F.boot → EfiStatus × Loader F.boot
  map_segments [] t = (efi_success, t)
  map_segments (p ∷ ps) t =
      let (st, t') = if is_loaded p then map_segment_for_load p t else (efi_success, t) in
      let rest = map_segments ps t' in if is_success st then rest else (st, t')

  unfoldable pub finalize_segments : List Phdr → Loader F.boot → EfiStatus × Loader F.boot
  finalize_segments [] t = (efi_success, t)
  finalize_segments (p ∷ ps) t =
      let (st, t') =
        if p.p_type == pt_load then finalize_segment_protection p t else (efi_success, t) in
      let rest = finalize_segments ps t' in if is_success st then rest else (st, t')

  -- A read into memory at `a`.
  unfoldable pub read_to : ℕ → ℕ → ℕ → Boot → Option (Status × Boot)
  read_to offset a size s = do
    (st, bytes, w) ← file_read_at F offset size s.tables.services
    some (st, with_services w (record s { bytes = store_bytes bytes a s.bytes }))

  abbrev pub zero_rest : Phdr → Boot → Boot
  zero_rest p s =
      if ltb p.p_filesz p.p_memsz
      then record s {
        bytes = F.set_mem (add64 p.p_paddr p.p_filesz) (p.p_memsz - p.p_filesz) 0 s.bytes;
      }
      else s

  -- The body of the loop of step 7 for a segment that is loaded, from the status so far.
  unfoldable pub load_segment : Phdr → Status → Boot → Option (Status × Boot)
  load_segment p st s =
      if ltb 0 p.p_filesz
      then read_to p.p_offset p.p_paddr p.p_filesz s
        >>= (λ (st', s'). some (st', (if is_error st' then s' else zero_rest p s')))
      else some (st, zero_rest p s)

  unfoldable pub load_segments : List Phdr → Status → Boot → Option (Status × Boot)
  load_segments [] st s = some (st, s)
  load_segments (p ∷ ps) st s = do
    (st', s') ← if is_loaded p then load_segment p st s else some (st, s)
    let rest = load_segments ps st' s'
    if is_loaded p && is_error st' then some (st', s') else rest

  -- A result of `load_kernel_elf`: the status, what is put into `*out_entry`, and the state.
  abbrev pub LoadResult : Type 0
  LoadResult = Status × Option ℕ × Boot

  -- Steps 7 and 8. The status is that of the last read, or of the page allocation.
  unfoldable pub load_mapped : Ehdr → List Phdr → Status → Boot → Option LoadResult
  load_mapped eh ps st s = do
    (st', s') ← load_segments ps st s
    let (final, t) = finalize_segments ps s'.tables
    let done = record s' { tables = t }
    let last : LoadResult =
        if is_success final then (efi_ok, some eh.e_entry, done) else (st', none, done)
    some (if is_error st' then (st', none, s') else last)

  -- Steps 4 to 8, with the image's range `r`.
  unfoldable pub load_range : Ehdr → List Phdr → Range → Boot → Option LoadResult
  load_range eh ps r s =
      let pages = sub64 r.phys_end r.phys_start / page_size in
      let (st, at, w) = F.allocate_address pages r.phys_start s.tables.services in
      let s1 = with_services w s in
      let (mapped, t) = map_segments ps s1.tables in
      let s2 = record s1 { tables = t } in
      if r.phys_start == 2 ^ 64 - 1
      then some (efi_load_error, none, s)
      else if is_error st || not (at == r.phys_start)
      then some (st, none, s1)
      else if is_success mapped
      then load_mapped eh ps st s2
      else some (st, none, s2)

  abbrev pub freed : ℕ → LoadResult → LoadResult
  freed phdrs (st, entry, s) = (st, entry, with_services (F.free_pool phdrs s.tables.services) s)

  -- From step 3 to `cleanup_ph`.
  unfoldable pub load_image : Ehdr → Boot → Option LoadResult
  load_image eh s =
      let ph_size = eh.e_phentsize * eh.e_phnum in
      let (st, phdrs, w) = F.allocate_pool ph_size s.tables.services in
      let s1 = with_services w s in
      if is_error st || phdrs == 0
      then some (or_else st efi_out_of_resources, none, s1)
      else read_to eh.e_phoff phdrs ph_size s1 >>= (λ (st', s2).
        let ps = phdrs_at s2.bytes phdrs eh.e_phnum in
        if is_error st'
        then some (freed phdrs (st', none, s2))
        else load_range eh ps (range_of ps no_range) s2 >>= (λ r. some (freed phdrs r)))

  -- Step 2, behind the read of the header.
  unfoldable pub open_image : Status → List ℕ → Boot → Option LoadResult
  open_image st header s =
      let eh = ehdr_at (at_index header) 0 in
      if is_error st
      then some (st, none, s)
      else if is_error (check_header eh)
      then some (check_header eh, none, s)
      else load_image eh s

  -- From the read of the header to `cleanup`.
  unfoldable pub load_open : Boot → Option LoadResult
  load_open s = do
    (st, header, w) ← file_read_at F 0 ehdr_bytes s.tables.services
    (st', entry, t) ← open_image st header (with_services w s)
    some (st', entry, with_services (F.close t.tables.services) t)

  -- Over whether the root directory is open and the name is not empty.
  unfoldable pub load_kernel_elf : Bool → Bool → Boot → Option LoadResult
  load_kernel_elf root named s =
      let (lv4, t) = page_set_lv4_writable F.boot s.tables in
      let s1 = record s { tables = t } in
      let (st, opened, w) = F.open_kernel s1.tables.services in
      let s2 = with_services w s1 in
      if not (root && named)
      then some (efi_invalid, none, s)
      else if not (is_success lv4)
      then some (paging lv4, none, s1)
      else if is_error st || not opened
      then some (or_else st efi_no_file, none, s2)
      else load_open s2
