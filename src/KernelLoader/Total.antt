-- ===== src/KernelLoader/Total.antt =====
-- That `load_kernel_elf` (kernel_loader.c) returns.
use chypervisor.Prelude.{
  ℕ, zero, suc, ◌+◌, ◌-◌, ◌*◌, ◌/◌, ◌^◌, sub64, ◌<◌, ◌≤◌, false, add64, u64, ◌≡◌, refl, arith, inl,
  inr, Bool, Option, none, some, List, [], ◌∷◌, ◌==◌, ltb, if◌then◌else◌, Bool-cases, if_all,
  ltb→lt, ◌++◌, ◌>>=◌, ◌&&◌, ◌||◌, not, ==→ne,
}
use chypervisor.Prelude.Texts.{length}
use chypervisor.BootPage.{is_success, page_set_lv4_writable}
use chypervisor.KernelLoader.{
  Firmware, Status, ReadResult, is_error, prepend, read_loop, file_read_at,
}
use chypervisor.KernelLoader.Headers.{Ehdr, Phdr, ehdr_at, ehdr_bytes, check_header}
use chypervisor.KernelLoader.Image

-- There is a result.
abbrev pub IsGiven {ℓ} : {A : Type ℓ} → Option A → Type ℓ
IsGiven {A} r = (x : A) × (r ≡ some x)

bind-IsGiven {ℓ κ} :
    {A : Type ℓ} {B : Type κ} (r : Option A) (f : A → Option B)
    → IsGiven r
    → ((x : A) → IsGiven (f x))
    → IsGiven (r >>= f)
bind-IsGiven r f (x, e) g = rw e (g x)

if-IsGiven {ℓ} :
    {A : Type ℓ} (b : Bool) (x y : Option A) → IsGiven x → IsGiven y → IsGiven (if b then x else y)
if-IsGiven b x y h k = if_all (λ r. IsGiven r) b x y (λ e. h) (λ e. k)

-- A read that succeeds gives at most the bytes that it was asked for.
abbrev pub AtMost : Firmware → Type 0
AtMost F = (n : ℕ) (w : F.boot.State) → is_error (F.read n w).0 ≡ false → length (F.read n w).1 ≤ n

module _ (F : Firmware) (at_most : AtMost F) where
  prepend-IsGiven :
      (chunk : List ℕ) (r : Option (ReadResult F)) → IsGiven r → IsGiven (prepend F chunk r)
  prepend-IsGiven chunk r ((st, bytes, w), e) = ((st, chunk ++ bytes, w), rw e refl)

  read_loop-IsGiven :
      (fuel size done : ℕ) (w : F.boot.State)
      → size - done < fuel
      → size < 2 ^ 64
      → IsGiven (read_loop F fuel size done w)
  unfolding read_loop
  read_loop-IsGiven zero size done w enough bounded = absurd (omega arith)
  read_loop-IsGiven (suc fuel) size done w enough bounded =
      let (st, chunk, w') = F.read (size - done) w in
      let rest = read_loop F fuel size (add64 done (length chunk)) w' in
      elim (Bool-cases (ltb done size)) [
        | inl more ↦ elim (Bool-cases (length chunk == 0)) [
          | inl z ↦ rw (more, z) (if-IsGiven (is_error st) _ _ (_, refl) (_, refl))
          | inr z ↦
              rw (more, z)
                (elim (Bool-cases (is_error st)) [
                  | inl bad ↦ rw bad (_, refl)
                  | inr good ↦
                      let l = ltb→lt done size more in
                      let fits = at_most (size - done) w good in
                      let next : add64 done (length chunk) ≡ done + length chunk =
                        omega (arith, fits, l, bounded) in
                      rw good (
                        prepend-IsGiven chunk rest (
                          read_loop-IsGiven fuel size (add64 done (length chunk)) w'
                            (omega (arith, next, enough, l, ==→ne (length chunk) 0 z)) bounded))
                ])
        ]
        | inr stop ↦ rw stop (_, refl)
      ]

  file_read_at-IsGiven :
      (offset size : ℕ) (w : F.boot.State) → IsGiven (file_read_at F offset size w)
  unfolding file_read_at
  file_read_at-IsGiven offset size w =
      let (st, w') = F.set_position offset w in
      if-IsGiven (is_error st) _ _ (_, refl)
        (read_loop-IsGiven (suc (u64 size)) (u64 size) 0 w' (omega arith) (omega arith))

  read_to-IsGiven : (o a n : ℕ) (s : Image.Boot F) → IsGiven (Image.read_to F o a n s)
  unfolding Image.read_to
  read_to-IsGiven o a n s =
      bind-IsGiven _ _ (file_read_at-IsGiven o n s.tables.services) (λ x. (_, refl))

  load_segment-IsGiven :
      (p : Phdr) (st : Status) (s : Image.Boot F) → IsGiven (Image.load_segment F p st s)
  unfolding Image.load_segment
  load_segment-IsGiven p st s =
      if-IsGiven (ltb 0 p.p_filesz) _ _
        (bind-IsGiven _ _ (read_to-IsGiven p.p_offset p.p_paddr p.p_filesz s) (λ x. (_, refl)))
        (_, refl)

  load_segments-IsGiven :
      (ps : List Phdr) (st : Status) (s : Image.Boot F) → IsGiven (Image.load_segments F ps st s)
  unfolding Image.load_segments
  load_segments-IsGiven [] st s = (_, refl)
  load_segments-IsGiven (p ∷ ps) st s =
      bind-IsGiven _ _ (if-IsGiven (Image.is_loaded p) _ _ (load_segment-IsGiven p st s) (_, refl))
        (λ x. if-IsGiven _ _ _ (_, refl) (load_segments-IsGiven ps x.0 x.1))

  load_mapped-IsGiven :
      (eh : Ehdr) (ps : List Phdr) (st : Status) (s : Image.Boot F)
      → IsGiven (Image.load_mapped F eh ps st s)
  unfolding Image.load_mapped
  load_mapped-IsGiven eh ps st s = bind-IsGiven _ _ (load_segments-IsGiven ps st s) (λ x. (_, refl))

  load_range-IsGiven :
      (eh : Ehdr) (ps : List Phdr) (r : Image.Range) (s : Image.Boot F)
      → IsGiven (Image.load_range F eh ps r s)
  unfolding Image.load_range
  load_range-IsGiven eh ps r s =
      let (st, at, w) =
        F.allocate_address (sub64 r.phys_end r.phys_start / Image.page_size) r.phys_start
          s.tables.services in
      let (mapped, t) = Image.map_segments F ps (Image.with_services F w s).tables in
      if-IsGiven (r.phys_start == 2 ^ 64 - 1) (some _) _ (_, refl)
        (if-IsGiven (is_error st || not (at == r.phys_start)) (some _) _ (_, refl)
          (if-IsGiven (is_success mapped) (Image.load_mapped F eh ps _ _) (some _)
            (load_mapped-IsGiven eh ps _ _) (_, refl)))

  load_image-IsGiven : (eh : Ehdr) (s : Image.Boot F) → IsGiven (Image.load_image F eh s)
  unfolding Image.load_image
  load_image-IsGiven eh s =
      let (st, phdrs, w) = F.allocate_pool (eh.e_phentsize * eh.e_phnum) s.tables.services in
      if-IsGiven (is_error st || phdrs == 0) (some _) _ (_, refl)
        (bind-IsGiven _ _ (read_to-IsGiven eh.e_phoff _ _ _) (λ x.
          if-IsGiven (is_error x.0) (some _) _ (_, refl)
            (bind-IsGiven _ _ (load_range-IsGiven eh _ _ _) (λ r. (_, refl)))))

  open_image-IsGiven :
      (st : Status) (header : List ℕ) (s : Image.Boot F) → IsGiven (Image.open_image F st header s)
  unfolding Image.open_image
  open_image-IsGiven st header s =
      let eh = ehdr_at (Image.at_index header) 0 in
      if-IsGiven (is_error st) (some (st, none, s)) _ (_, refl)
        (if-IsGiven (is_error (check_header eh)) (some (check_header eh, none, s))
          (Image.load_image F eh s) (_, refl) (load_image-IsGiven eh s))

  load_open-IsGiven : (s : Image.Boot F) → IsGiven (Image.load_open F s)
  unfolding Image.load_open
  load_open-IsGiven s =
      bind-IsGiven _ _ (file_read_at-IsGiven 0 ehdr_bytes s.tables.services)
        (λ x. bind-IsGiven _ _ (open_image-IsGiven x.0 x.1 _) (λ y. (_, refl)))

  -- When a read that succeeds never gives more than it was asked for, `load_kernel_elf` returns, whatever
  -- else the firmware answers: no read loop runs out of rounds.
  pub load_kernel_elf-IsGiven :
      (root named : Bool) (s : Image.Boot F) → IsGiven (Image.load_kernel_elf F root named s)
  unfolding Image.load_kernel_elf
  load_kernel_elf-IsGiven root named s =
      let (lv4, t) = page_set_lv4_writable F.boot s.tables in
      let (st, opened, w) = F.open_kernel t.services in
      if-IsGiven (not (root && named)) (some _) _ (_, refl)
        (if-IsGiven (not (is_success lv4)) (some _) _ (_, refl)
          (if-IsGiven (is_error st || not opened) (some _) _ (_, refl) (load_open-IsGiven _)))
