-- ===== src/KernelLoader/Checks.antt =====
-- The two tests of an ELF header: that of elf64.c and that of kernel_loader.c.
use chypervisor.Prelude.{
  ℕ, ◌≤◌, ◌≡◌, refl, arith, true, false, none, some, ltb, if◌then◌else◌, Bool-cases, inl, inr, ◌==◌,
}
use chypervisor.Bootinfo.{Bytes}
use chypervisor.KernelLoader.{is_error}
use chypervisor.KernelLoader.Headers.{
  ehdr_at, ehdr_bytes, elf64_is_valid_magic, elf64_parse_header, check_header,
}

-- For a buffer of at least 64 bytes, `elf64_parse_header` takes exactly the headers that the loader takes,
-- refuses the others with the loader's status, and hands back the header only where it takes it.
elf64_parse_header-check_header :
    (b : Bytes) (n : ℕ)
    → ehdr_bytes ≤ n
    → let st = check_header (ehdr_at b 0) in
      elf64_parse_header (some b) n true ≡ (st, (if is_error st then none else some (ehdr_at b 0)))
unfolding elf64_parse_header check_header
elf64_parse_header-check_header b n enough =
    let room : ltb n ehdr_bytes ≡ false = ground arith in
    elim (Bool-cases (elf64_is_valid_magic (ehdr_at b 0))) [
      | inl magic ↦ elim (Bool-cases ((ehdr_at b 0).e_ident 4 == 2)) [
        | inl wide ↦ rw (room, magic, wide) refl
        | inr narrow ↦ rw (room, magic, narrow) refl
      ]
      | inr other ↦ rw (room, other) refl
    ]
