-- ===== src/KernelLoader/Headers.antt =====
-- The ELF headers (elf64.h), `elf64_parse_header` (elf64.c), and what kernel_loader.c reads from a header.
use chypervisor.Prelude.{ℕ, ◌+◌, ◌*◌, ◌^◌, Bool, Option, none, some, List, [], ◌∷◌, zero, suc, ◌-◌}
use chypervisor.Prelude.{◌==◌, ltb, if◌then◌else◌, ◌&&◌, not, bit_and, not64, add64}
use chypervisor.Bootinfo.{Bytes, read_u32, read_u64}
use chypervisor.BootPage.{PageAttr, page_ro, page_rw, page_rx, page_rwx}
use chypervisor.KernelLoader.{
  Status, efi_ok, efi_load_error, efi_invalid, efi_unsupported, efi_buffer_too_small,
}

pub record Ehdr : Type 0 where
  pub e_ident : Bytes
  pub e_type : ℕ
  pub e_machine : ℕ
  pub e_version : ℕ
  pub e_entry : ℕ
  pub e_phoff : ℕ
  pub e_shoff : ℕ
  pub e_flags : ℕ
  pub e_ehsize : ℕ
  pub e_phentsize : ℕ
  pub e_phnum : ℕ
  pub e_shentsize : ℕ
  pub e_shnum : ℕ
  pub e_shstrndx : ℕ

pub record Phdr : Type 0 where
  pub p_type : ℕ
  pub p_flags : ℕ
  pub p_offset : ℕ
  pub p_vaddr : ℕ
  pub p_paddr : ℕ
  pub p_filesz : ℕ
  pub p_memsz : ℕ
  pub p_align : ℕ

abbrev pub ehdr_bytes : ℕ
ehdr_bytes = 64

abbrev pub phdr_bytes : ℕ
phdr_bytes = 56

abbrev read_u16 : Bytes → ℕ → ℕ
read_u16 b o = b o + b (o + 1) * 2 ^ 8

-- The structures at an address, with the packed offsets of their fields.
abbrev pub ehdr_at : Bytes → ℕ → Ehdr
ehdr_at b o = record {
  e_ident = λ i. b (o + i);
  e_type = read_u16 b (o + 16);
  e_machine = read_u16 b (o + 18);
  e_version = read_u32 b (o + 20);
  e_entry = read_u64 b (o + 24);
  e_phoff = read_u64 b (o + 32);
  e_shoff = read_u64 b (o + 40);
  e_flags = read_u32 b (o + 48);
  e_ehsize = read_u16 b (o + 52);
  e_phentsize = read_u16 b (o + 54);
  e_phnum = read_u16 b (o + 56);
  e_shentsize = read_u16 b (o + 58);
  e_shnum = read_u16 b (o + 60);
  e_shstrndx = read_u16 b (o + 62);
}

abbrev pub phdr_at : Bytes → ℕ → Phdr
phdr_at b o = record {
  p_type = read_u32 b o;
  p_flags = read_u32 b (o + 4);
  p_offset = read_u64 b (o + 8);
  p_vaddr = read_u64 b (o + 16);
  p_paddr = read_u64 b (o + 24);
  p_filesz = read_u64 b (o + 32);
  p_memsz = read_u64 b (o + 40);
  p_align = read_u64 b (o + 48);
}

-- `phdrs[i]` for the `n` entries from `o` on.
abbrev pub phdrs_at : Bytes → ℕ → ℕ → List Phdr
phdrs_at b o zero = []
phdrs_at b o (suc n) = phdr_at b o ∷ phdrs_at b (o + phdr_bytes) n

abbrev pub elf64_is_valid_magic : Ehdr → Bool
elf64_is_valid_magic eh =
    eh.e_ident 0 == 0x7F && eh.e_ident 1 == b'E' && eh.e_ident 2 == b'L' && eh.e_ident 3 == b'F'

-- The status, and what is put into `*out`. `buf` and `out` may be null.
unfoldable pub elf64_parse_header : Option Bytes → ℕ → Bool → Status × Option Ehdr
elf64_parse_header none buf_size out = (efi_invalid, none)
elf64_parse_header (some buf) buf_size out =
    let eh = ehdr_at buf 0 in
    if not out
    then (efi_invalid, none)
    else if ltb buf_size ehdr_bytes
    then (efi_buffer_too_small, none)
    else if not (elf64_is_valid_magic eh)
    then (efi_load_error, none)
    else if not (eh.e_ident 4 == 2)
    then (efi_unsupported, none)
    else (efi_ok, some eh)

-- The test of the header in `load_kernel_elf`.
unfoldable pub check_header : Ehdr → Status
check_header eh =
    if not
      (eh.e_ident 0 == 0x7F && eh.e_ident 1 == b'E' && eh.e_ident 2 == b'L' && eh.e_ident 3 == b'F')
    then efi_load_error
    else if not (eh.e_ident 4 == 2)
    then efi_unsupported
    else efi_ok

abbrev pub pt_load : ℕ
pt_load = 1

abbrev pub flag_set : ℕ → ℕ → Bool
flag_set flags f = not (bit_and flags f == 0)

unfoldable pub attr_from_phdr : Phdr → PageAttr
attr_from_phdr p =
    let x = flag_set p.p_flags 1 in
    let w = flag_set p.p_flags 2 in
    if x && w then page_rwx else if x then page_rx else if w then page_rw else page_ro

unfoldable pub temp_attr_for_load : Phdr → PageAttr
temp_attr_for_load p = if flag_set p.p_flags 1 then page_rwx else page_rw

-- For a power of two `a`.
abbrev pub align_up : ℕ → ℕ → ℕ
align_up x a = bit_and (add64 x (a - 1)) (not64 (a - 1))

abbrev pub align_down : ℕ → ℕ → ℕ
align_down x a = bit_and x (not64 (a - 1))
