-- ===== src/KernelLoader/Segments.antt =====
-- The loop of `load_kernel_elf` (kernel_loader.c) that fills physical memory, segment by segment.
use chypervisor.Prelude.{
  ℕ, zero, suc, ◌+◌, ◌-◌, ◌^◌, ◌≤◌, ◌<◌, ◌≡◌, refl, sym, ◌∙◌, arith, ◌⊎◌, inl, inr,
}
use chypervisor.Prelude.{
  true, false, Option, some, List, [], ◌∷◌, ◌==◌, ltb, if◌then◌else◌, Bool-cases, ltb→lt, ltb→le,
  ==-refl, add64,
}
use chypervisor.Prelude.Texts.{length}
use chypervisor.KernelLoader.{Firmware, Status, is_error, efi_ok}
use chypervisor.KernelLoader.Headers.{Phdr}
use chypervisor.KernelLoader.Image.{
  Boot, store_bytes, is_loaded, with_services, read_to, zero_rest, load_segment, load_segments,
}
use chypervisor.KernelLoader.Read.{IsAt, IsReliable, file_read_at-Reads}

store_bytes-below : (xs : List ℕ) (a q : ℕ) (m : ℕ → ℕ) → q < a → store_bytes xs a m q ≡ m q
store_bytes-below [] a q m h = refl
store_bytes-below (x ∷ xs) a q m h =
    let other : (q == a) ≡ false = ground arith in
    store_bytes-below xs (a + 1) q (λ r. if r == a then x else m r) (omega arith) ∙ rw other refl

store_bytes-above :
    (xs : List ℕ) (a q : ℕ) (m : ℕ → ℕ) → a + length xs ≤ q → store_bytes xs a m q ≡ m q
store_bytes-above [] a q m h = refl
store_bytes-above (x ∷ xs) a q m h =
    let other : (q == a) ≡ false = ground arith in
    store_bytes-above xs (a + 1) q (λ r. if r == a then x else m r) (omega arith) ∙ rw other refl

store_bytes-IsAt :
    (content : ℕ → ℕ) (xs : List ℕ) (a o i : ℕ) (m : ℕ → ℕ)
    → IsAt content o xs
    → i < length xs
    → store_bytes xs a m (a + i) ≡ content (o + i)
store_bytes-IsAt content [] a o i m h l = absurd (omega arith)
store_bytes-IsAt content (x ∷ xs) a o zero m (e, h) l =
    let m' = λ (r : ℕ). if r == a then x else m r in
    let here : a + 0 ≡ a = omega arith in
    let there : o + 0 ≡ o = omega arith in
    rw (here, there) (store_bytes-below xs (a + 1) a m' (omega arith) ∙ rw (==-refl a) (sym e))
store_bytes-IsAt content (x ∷ xs) a o (suc i) m (e, h) l =
    let m' = λ (r : ℕ). if r == a then x else m r in
    let here : a + suc i ≡ a + 1 + i = omega arith in
    let there : o + suc i ≡ o + 1 + i = omega arith in
    rw (here, there) (store_bytes-IsAt content xs (a + 1) (o + 1) i m' h (omega arith))

-- What the firmware documents of `SetMem`.
pub record SetsMemory (F : Firmware) : Type 0 where
  pub inside : (a n v q : ℕ) (m : ℕ → ℕ) → a ≤ q → q < a + n → F.set_mem a n v m q ≡ v
  pub outside : (a n v q : ℕ) (m : ℕ → ℕ) → (q < a) ⊎ (a + n ≤ q) → F.set_mem a n v m q ≡ m q

-- A program header as the ELF format asks for, in a file of `len` bytes.
pub record IsSegment (len : ℕ) (p : Phdr) : Type 0 where
  pub in_file : p.p_offset + p.p_filesz ≤ len
  pub fits : p.p_filesz ≤ p.p_memsz
  pub no_wrap : p.p_paddr + p.p_memsz < 2 ^ 64

-- The segment's bytes in memory: those of the file, then zeros.
pub record IsLoaded (content : ℕ → ℕ) (p : Phdr) (m : ℕ → ℕ) : Type 0 where
  pub image : (i : ℕ) → i < p.p_filesz → m (p.p_paddr + i) ≡ content (p.p_offset + i)
  pub zeros : (i : ℕ) → p.p_filesz ≤ i → i < p.p_memsz → m (p.p_paddr + i) ≡ 0

abbrev pub Outside : Phdr → ℕ → Type 0
Outside p q = (q < p.p_paddr) ⊎ (p.p_paddr + p.p_memsz ≤ q)

abbrev pub Apart : Phdr → Phdr → Type 0
Apart p p' = (p.p_paddr + p.p_memsz ≤ p'.p_paddr) ⊎ (p'.p_paddr + p'.p_memsz ≤ p.p_paddr)

-- A property of every header of the list that is loaded.
abbrev pub AllLoads : (Phdr → Type 0) → List Phdr → Type 0
AllLoads P [] = Unit
AllLoads P (p ∷ ps) = (is_loaded p ≡ true → P p) × AllLoads P ps

-- The segments that are loaded are as the format asks for, and pairwise apart in memory.
abbrev pub AreSegments : ℕ → List Phdr → Type 0
AreSegments len [] = Unit
AreSegments len (p ∷ ps) =
    (is_loaded p ≡ true → IsSegment len p)
    × (is_loaded p ≡ true → AllLoads (Apart p) ps)
    × AreSegments len ps

module _ (F : Firmware) (sets : SetsMemory F) where
  zero_rest-bytes :
      (len : ℕ) (p : Phdr) (s : Boot F) (q : ℕ)
      → IsSegment len p
      → ((p.p_paddr + p.p_filesz ≤ q → q < p.p_paddr + p.p_memsz → (zero_rest F p s).bytes q ≡ 0)
          × ((q < p.p_paddr + p.p_filesz) ⊎ (p.p_paddr + p.p_memsz ≤ q)
              → (zero_rest F p s).bytes q ≡ s.bytes q))
  zero_rest-bytes len p s q seg =
      let a : add64 p.p_paddr p.p_filesz ≡ p.p_paddr + p.p_filesz =
        omega (arith, seg.no_wrap, seg.fits) in
      let n = p.p_memsz - p.p_filesz in
      elim (Bool-cases (ltb p.p_filesz p.p_memsz)) [
        | inl more ↦
            let l = ltb→lt p.p_filesz p.p_memsz more in
            rw (more, a)
              (
                λ lo hi.
                    sets.inside (p.p_paddr + p.p_filesz) n 0 q s.bytes lo (omega (arith, hi, l)),
                λ out. sets.outside (p.p_paddr + p.p_filesz) n 0 q s.bytes (omega (arith, out, l)),
              )
        | inr all ↦
            let g = ltb→le p.p_filesz p.p_memsz all in
            rw all (λ lo hi. absurd (omega (arith, lo, hi, g)), λ out. refl)
      ]

  module _ (content : ℕ → ℕ) (len : ℕ) (pos : F.boot.State → ℕ)
      (file : IsReliable F content len pos) where
    read_to-bytes :
        (offset a size : ℕ) (s : Boot F)
        → offset + size ≤ len
        → (s' : Boot F) × (read_to F offset a size s ≡ some (efi_ok, s'))
          × ((i : ℕ) → i < size → s'.bytes (a + i) ≡ content (offset + i))
          × ((q : ℕ) → (q < a) ⊎ (a + size ≤ q) → s'.bytes q ≡ s.bytes q)
    unfolding read_to
    read_to-bytes offset a size s fits =
        let (st, bytes, w, e, read) =
          file_read_at-Reads F content len pos file offset size s.tables.services
            (omega (arith, fits)) (omega (arith, fits, file.small)) in
        elim read.whole [
          | inl (l, ok, all) ↦ (
            with_services F w (record s { bytes = store_bytes bytes a s.bytes }),
            rw (e, ok) refl,
            λ i h.
                store_bytes-IsAt content bytes a offset i s.bytes read.at (omega (arith, all, h)),
            λ q out. elim out [
              | inl lo ↦ store_bytes-below bytes a q s.bytes lo
              | inr hi ↦ store_bytes-above bytes a q s.bytes (omega (arith, hi, all))
            ],
          )
          | inr (l, end, all) ↦ absurd (omega (arith, l, fits))
        ]

    -- What a step of the loop does for one segment.
    abbrev Loads : Phdr → Boot F → Option (Status × Boot F) → Type 0
    Loads p s r =
        (st : Status) × (s' : Boot F) × (r ≡ some (st, s'))
        × (is_error st ≡ false)
        × IsLoaded content p s'.bytes
        × ((q : ℕ) → Outside p q → s'.bytes q ≡ s.bytes q)

    zero_rest-Loads :
        (p : Phdr) (st : Status) (s s' : Boot F)
        → IsSegment len p
        → is_error st ≡ false
        → ((i : ℕ) → i < p.p_filesz → s'.bytes (p.p_paddr + i) ≡ content (p.p_offset + i))
        → ((q : ℕ) → Outside p q → s'.bytes q ≡ s.bytes q)
        → Loads p s (some (st, zero_rest F p s'))
    zero_rest-Loads p st s s' seg ok image same = (
      st,
      zero_rest F p s',
      refl,
      ok,
      record {
        image = λ i h.
            (zero_rest-bytes len p s' (p.p_paddr + i) seg).1 (inl (omega (arith, h))) ∙ image i h;
        zeros = λ i lo hi.
            (zero_rest-bytes len p s' (p.p_paddr + i) seg).0 (omega (arith, lo))
              (omega (arith, hi));
      },
      λ q out. (zero_rest-bytes len p s' q seg).1 (omega (arith, out, seg.fits)) ∙ same q out,
    )

    load_segment-Loads :
        (p : Phdr) (st : Status) (s : Boot F)
        → IsSegment len p
        → is_error st ≡ false
        → Loads p s (load_segment F p st s)
    unfolding load_segment
    load_segment-Loads p st s seg ok = elim (Bool-cases (ltb 0 p.p_filesz)) [
      | inl some_bytes ↦
          let (s', e, image, same) = read_to-bytes p.p_offset p.p_paddr p.p_filesz s seg.in_file in
          rw (some_bytes, e)
            (zero_rest-Loads p efi_ok s s' seg refl image
              (λ q out. same q (omega (arith, out, seg.fits))))
      | inr no_bytes ↦
          let l = ltb→le 0 p.p_filesz no_bytes in
          rw no_bytes
            (zero_rest-Loads p st s s seg ok (λ i h. absurd (omega (arith, h, l))) (λ q out. refl))
    ]

    AllLoads-map :
        (P Q : Phdr → Type 0) (ps : List Phdr)
        → ((p : Phdr) → P p → Q p)
        → AllLoads P ps
        → AllLoads Q ps
    AllLoads-map P Q [] f u = u
    AllLoads-map P Q (p ∷ ps) f (h, t) = (λ e. f p (h e), AllLoads-map P Q ps f t)

    -- Memory that agrees on a segment keeps it loaded.
    IsLoaded-same :
        (p : Phdr) (m m' : ℕ → ℕ)
        → IsSegment len p
        → ((q : ℕ) → p.p_paddr ≤ q → q < p.p_paddr + p.p_memsz → m' q ≡ m q)
        → IsLoaded content p m
        → IsLoaded content p m'
    IsLoaded-same p m m' seg same h = record {
      image = λ i l. same (p.p_paddr + i) (omega arith) (omega (arith, l, seg.fits)) ∙ h.image i l;
      zeros = λ i lo hi. same (p.p_paddr + i) (omega arith) (omega (arith, hi)) ∙ h.zeros i lo hi;
    }

    abbrev pub LoadsAll : List Phdr → Boot F → Option (Status × Boot F) → Type 0
    LoadsAll ps s r =
        (st : Status) × (s' : Boot F) × (r ≡ some (st, s'))
        × (is_error st ≡ false)
        × AllLoads (λ p. IsLoaded content p s'.bytes) ps
        × ((q : ℕ) → AllLoads (λ p. Outside p q) ps → s'.bytes q ≡ s.bytes q)

    -- On a file no access of which fails, for headers whose segments lie in the file, have at
    -- least the size of their bytes, end below 2^64 and are pairwise apart: the loop ends without an error;
    -- every segment that is loaded then has its bytes from the file in memory, and zeros behind them up to
    -- its size; and no byte outside the segments has changed.
    pub load_segments-LoadsAll :
        (ps : List Phdr) (st : Status) (s : Boot F)
        → AreSegments len ps
        → is_error st ≡ false
        → LoadsAll ps s (load_segments F ps st s)
    unfolding load_segments
    load_segments-LoadsAll [] st s u ok = (st, s, refl, ok, tt, λ q h. refl)
    load_segments-LoadsAll (p ∷ ps) st s (seg, apart, segs) ok = elim (Bool-cases (is_loaded p)) [
      | inl yes_loaded ↦
          let (st1, s1, e1, ok1, now, same1) = load_segment-Loads p st s (seg yes_loaded) ok in
          let (st2, s2, e2, ok2, later, same2) = load_segments-LoadsAll ps st1 s1 segs ok1 in
          let sg = seg yes_loaded in
          let kept =
            IsLoaded-same p s1.bytes s2.bytes sg
              (λ q lo hi. same2 q (
                AllLoads-map (Apart p) (λ p'. Outside p' q) ps
                  (λ p' ap'. omega (arith, ap', lo, hi)) (apart yes_loaded)))
              now in
          (
            st2,
            s2,
            rw (yes_loaded, e1, ok1) e2,
            ok2,
            (λ e. kept, later),
            λ q h. same2 q h.1 ∙ same1 q (h.0 yes_loaded),
          )
      | inr skipped ↦
          let (st2, s2, e2, ok2, later, same2) = load_segments-LoadsAll ps st s segs ok in
          (
            st2,
            s2,
            rw skipped e2,
            ok2,
            (λ e. absurd (ground (arith, e, skipped)), later),
            λ q h. same2 q h.1,
          )
    ]
