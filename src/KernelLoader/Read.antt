-- ===== src/KernelLoader/Read.antt =====
-- `file_read_at` (kernel_loader.c) on a file whose reads may be short.
use chypervisor.Prelude.{ℕ, zero, suc, ◌+◌, ◌-◌, ◌≤◌, ◌<◌, ◌^◌, ◌≡◌, refl, arith, ◌⊎◌, inl, inr}
use chypervisor.Prelude.{
  true, false, Option, some, List, [], ◌∷◌, ◌++◌, ◌==◌, add64, u64, ltb, Bool-cases, ltb→lt, ltb→le,
  ==→eq, ==→ne,
}
use chypervisor.Prelude.Texts.{length, length-append}
use mathlib.Core.Path.{subst}
use chypervisor.KernelLoader.{
  Firmware, Status, ReadResult, is_error, efi_ok, efi_end_of_file, prepend, read_loop, file_read_at,
}

-- The bytes of a list stand in the content from position `p` on.
abbrev pub IsAt : (ℕ → ℕ) → ℕ → List ℕ → Type 0
IsAt content p [] = Unit
IsAt content p (x ∷ xs) = (content p ≡ x) × IsAt content (p + 1) xs

IsAt-append :
    (content : ℕ → ℕ) (p : ℕ) (xs ys : List ℕ)
    → IsAt content p xs
    → IsAt content (p + length xs) ys
    → IsAt content p (xs ++ ys)
IsAt-append content p [] ys h k =
    let e : p + 0 ≡ p = omega arith in subst (λ q. IsAt content q ys) e k
IsAt-append content p (x ∷ xs) ys (e, h) k =
    let shift : p + suc (length xs) ≡ p + 1 + length xs = omega arith in
    (e, IsAt-append content (p + 1) xs ys h (subst (λ q. IsAt content q ys) shift k))

-- An open file of `len` bytes, at a position `pos`, no access of which fails: a seek sets the position, but
-- for 2^64 - 1, which stands for the end; a read up to the end gives at most the bytes asked for, at least
-- one before the end, and moves the position past them.
pub record IsReliable (F : Firmware) (content : ℕ → ℕ) (len : ℕ) (pos : F.boot.State → ℕ)
    : Type 0 where
  pub small : len < 2 ^ 64 - 1
  pub seek_succeeds : (o : ℕ) (w : F.boot.State) → is_error (F.set_position o w).0 ≡ false
  pub seek_sets : (o : ℕ) (w : F.boot.State) → o < 2 ^ 64 - 1 → pos (F.set_position o w).1 ≡ o
  pub succeeds : (n : ℕ) (w : F.boot.State) → pos w ≤ len → is_error (F.read n w).0 ≡ false
  pub at_most : (n : ℕ) (w : F.boot.State) → length (F.read n w).1 ≤ n
  pub progress : (n : ℕ) (w : F.boot.State) → 0 < n → pos w < len → 0 < length (F.read n w).1
  pub in_file : (n : ℕ) (w : F.boot.State) → pos w ≤ len → pos w + length (F.read n w).1 ≤ len
  pub moves : (n : ℕ) (w : F.boot.State) → pos (F.read n w).2 ≡ pos w + length (F.read n w).1
  pub bytes_of : (n : ℕ) (w : F.boot.State) → IsAt content (pos w) (F.read n w).1

-- A read of `n` bytes at `p`: all of them, or those up to the end of the file and the status for it.
pub record IsRead (content : ℕ → ℕ) (len p n : ℕ) (st : Status) (bytes : List ℕ) : Type 0 where
  pub at : IsAt content p bytes
  pub whole :
      ((p + n ≤ len) × (st ≡ efi_ok) × (length bytes ≡ n))
      ⊎ ((len < p + n) × (st ≡ efi_end_of_file) × (p + length bytes ≡ len))

abbrev pub Reads : (F : Firmware) → (ℕ → ℕ) → ℕ → ℕ → ℕ → Option (ReadResult F) → Type 0
Reads F content len p n r =
    (st : Status) × (bytes : List ℕ) × (w : F.boot.State) × (r ≡ some (st, bytes, w))
    × IsRead content len p n st bytes

module _ (F : Firmware) (content : ℕ → ℕ) (len : ℕ) where
  prepend-Reads :
      (chunk : List ℕ) (p n k : ℕ) (r : Option (ReadResult F))
      → length chunk ≡ k
      → k ≤ n
      → IsAt content p chunk
      → Reads F content len (p + k) (n - k) r
      → Reads F content len p n (prepend F chunk r)
  prepend-Reads chunk p n k r size fits h (st, bytes, w, e, read) =
      let total : length (chunk ++ bytes) ≡ k + length bytes =
        omega (arith, length-append chunk bytes, size) in
      (
        st,
        chunk ++ bytes,
        w,
        rw e refl,
        record {
          at = IsAt-append content p chunk bytes h (rw size read.at);
          whole = elim read.whole [
            | inl (l, ok, all) ↦ inl (omega (arith, l, fits), ok, omega (arith, total, all, fits))
            | inr (l, end, all) ↦ inr (omega (arith, l, fits), end, omega (arith, total, all))
          ];
        },
      )

  module _ (pos : F.boot.State → ℕ) (file : IsReliable F content len pos) where
    round-Reads :
        (fuel size done : ℕ) (w : F.boot.State)
        → done < size
        → size < 2 ^ 64
        → pos w ≤ len
        → (let (st, chunk, w') = F.read (size - done) w in
            0 < length chunk
            → Reads F content len
                (pos w')
                (size - (done + length chunk))
                (read_loop F fuel size (done + length chunk) w'))
        → Reads F content len (pos w) (size - done) (read_loop F (suc fuel) size done w)
    unfolding read_loop
    round-Reads fuel size done w more bounded inside later =
        let n = size - done in
        let chunk = (F.read n w).1 in
        let k = length chunk in
        let ok = file.succeeds n w inside in
        let goes_on : ltb done size ≡ true = ground arith in
        elim (Bool-cases (k == 0)) [
          | inl e ↦
              let here : k ≡ 0 = ==→eq k 0 e in
              let at_end : pos w ≡ len = elim (Bool-cases (ltb (pos w) len)) [
                | inl l ↦ absurd (
                    omega
                      (arith, here, file.progress n w (omega (arith, more)) (ltb→lt (pos w) len l)))
                | inr g ↦ omega (arith, inside, ltb→le (pos w) len g)
              ] in
              (
                efi_end_of_file,
                [],
                (F.read n w).2,
                rw (goes_on, ok, e) refl,
                record {
                  at = tt;
                  whole = inr (omega (arith, at_end, more), refl, omega (arith, at_end));
                },
              )
          | inr e ↦
              let some_left : 0 < k = ground (arith, ==→ne k 0 e) in
              let moved = file.moves n w in
              let left : size - (done + k) ≡ n - k = omega arith in
              let next : add64 done k ≡ done + k = omega (arith, file.at_most n w, bounded, more) in
              let rest =
                subst
                  (λ q.
                    Reads F content len q (size - (done + k))
                      (read_loop F fuel size (done + k) (F.read n w).2))
                  moved (later some_left) in
              rw (goes_on, ok, e, next)
                (prepend-Reads chunk (pos w) n k (read_loop F fuel size (done + k) (F.read n w).2)
                  refl (file.at_most n w) (file.bytes_of n w) (rw left at rest))
        ]

    read_loop-Reads :
        (fuel size done : ℕ) (w : F.boot.State)
        → size - done < fuel
        → done ≤ size
        → size < 2 ^ 64
        → pos w ≤ len
        → Reads F content len (pos w) (size - done) (read_loop F fuel size done w)
    unfolding read_loop
    read_loop-Reads zero size done w enough le bounded inside = absurd (omega arith)
    read_loop-Reads (suc fuel) size done w enough le bounded inside =
        elim (Bool-cases (ltb done size)) [
          | inl more ↦
              let l = ltb→lt done size more in
              let n = size - done in
              round-Reads fuel size done w l bounded inside (λ some_left.
                read_loop-Reads fuel size (done + length (F.read n w).1) (F.read n w).2
                  (omega (arith, some_left, enough)) (omega (arith, file.at_most n w)) bounded
                  (omega (arith, file.moves n w, file.in_file n w inside)))
          | inr stop ↦
              let g = ltb→le done size stop in
              let full : (done == size) ≡ true = ground (arith, g, le) in
              (
                efi_ok,
                [],
                w,
                rw (stop, full) refl,
                record { at = tt; whole = inl (omega (arith, g, inside), refl, omega (arith, g)) },
              )
        ]

    -- On a file no access of which fails, a read of a 64-bit size that starts inside the file ends, however
    -- short the single reads are: with the bytes of the file from that place on and success, or, if the
    -- file ends before, with the bytes up to its end and `EFI_END_OF_FILE`.
    pub file_read_at-Reads :
        (offset size : ℕ) (w : F.boot.State)
        → offset ≤ len
        → size < 2 ^ 64
        → Reads F content len offset size (file_read_at F offset size w)
    unfolding file_read_at
    file_read_at-Reads offset size w inside bounded =
        let w' = (F.set_position offset w).1 in
        let set = file.seek_sets offset w (omega (arith, inside, file.small)) in
        let cut : u64 size ≡ size = omega (arith, bounded) in
        let read =
          read_loop-Reads (suc size) size 0 w' (omega arith) (omega arith) bounded
            (omega (arith, set, inside)) in
        let whole : size - 0 ≡ size = omega arith in
        rw (file.seek_succeeds offset w, cut)
          (subst (λ q. Reads F content len q size (read_loop F (suc size) size 0 w')) set
            (subst (λ n. Reads F content len (pos w') n (read_loop F (suc size) size 0 w')) whole
              read))
