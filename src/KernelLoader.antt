-- ===== src/KernelLoader.antt =====
-- bootloader/kernel_loader.c, elf64.h and elf64.c: the kernel's ELF image is read from its file into
-- physical memory and mapped. The firmware's files and memory services are an interface over the state of
-- the boot services that the page tables of arch_x86_page.c are built on. Log lines are left out.
pub mod Headers
pub mod Image
pub mod Read
pub mod Segments
pub mod Ending
pub mod Extent
pub mod Total
pub mod Ideal
pub mod Checks
mod Tests
use chypervisor.Prelude.{
  ℕ, zero, suc, ◌+◌, ◌-◌, ◌*◌, ◌/◌, ◌%◌, ◌^◌, Bool, true, false, Option, none, some, List, [], ◌∷◌,
  ◌++◌,
}
use chypervisor.Prelude.{
  ◌==◌, add64, u64, ltb, leb, if◌then◌else◌, ◌||◌, not, bit_and, not64, add64, ◌>>=◌,
}
use chypervisor.Prelude.Texts.{length}
use chypervisor.BootPage.{BootServices, EfiStatus, is_success}

-- `EFI_STATUS`: one of arch_x86_page.c, or a code, where the errors have the highest bit set.
pub data Status : Type 0 where
  paging : EfiStatus → Status
  code : ℕ → Status

-- `EFI_ERROR`
abbrev pub is_error : Status → Bool
is_error (paging st) = not (is_success st)
is_error (code n) = leb (2 ^ 63) n

abbrev pub efi_ok : Status
efi_ok = code 0

abbrev pub efi_load_error : Status
efi_load_error = code (2 ^ 63 + 1)

abbrev pub efi_invalid : Status
efi_invalid = code (2 ^ 63 + 2)

abbrev pub efi_unsupported : Status
efi_unsupported = code (2 ^ 63 + 3)

abbrev pub efi_buffer_too_small : Status
efi_buffer_too_small = code (2 ^ 63 + 5)

abbrev pub efi_out_of_resources : Status
efi_out_of_resources = code (2 ^ 63 + 9)

abbrev pub efi_no_file : Status
efi_no_file = code (2 ^ 63 + 14)

abbrev pub efi_end_of_file : Status
efi_end_of_file = code (2 ^ 63 + 31)

-- `st ? st : other`
abbrev pub or_else : Status → Status → Status
or_else (paging st) other = if is_success st then other else paging st
or_else (code n) other = if n == 0 then other else code n

-- The firmware's services. `read` gives the bytes that it has put into the buffer, from its start on;
-- `allocate_pool` a pointer that may be 0, and `allocate_address` the address that it has got. `set_mem`
-- acts on memory, bytes by address.
pub record Firmware : Type 1 where
  pub boot : BootServices
  pub open_kernel : boot.State → Status × Bool × boot.State
  pub set_position : ℕ → boot.State → Status × boot.State
  pub read : ℕ → boot.State → Status × List ℕ × boot.State
  pub close : boot.State → boot.State
  pub allocate_pool : ℕ → boot.State → Status × ℕ × boot.State
  pub free_pool : ℕ → boot.State → boot.State
  pub allocate_address : ℕ → ℕ → boot.State → Status × ℕ × boot.State
  pub set_mem : ℕ → ℕ → ℕ → (ℕ → ℕ) → ℕ → ℕ

-- What a read returns: its status, the bytes in the buffer, and the firmware's state.
abbrev pub ReadResult : (F : Firmware) → Type 0
ReadResult F = Status × List ℕ × F.boot.State

abbrev pub prepend : (F : Firmware) → List ℕ → Option (ReadResult F) → Option (ReadResult F)
prepend F chunk none = none
prepend F chunk (some (st, bytes, w)) = some (st, chunk ++ bytes, w)

module _ (F : Firmware) where
  -- The loop of `file_read_at` from `done` on; `none` is a loop that is out of fuel.
  unfoldable pub read_loop : ℕ → ℕ → ℕ → F.boot.State → Option (ReadResult F)
  read_loop zero size done w = none
  read_loop (suc fuel) size done w =
      let (st, chunk, w') = F.read (size - done) w in
      let rest = read_loop fuel size (add64 done (length chunk)) w' in
      if ltb done size
      then if is_error st
        then some (st, chunk, w')
        else if length chunk == 0
        then some (efi_end_of_file, [], w')
        else prepend F chunk rest
      else some ((if done == size then efi_ok else efi_end_of_file), [], w)

  -- Every round but the last reads a byte, so the size and one suffice as fuel unless `done` wraps around.
  unfoldable pub file_read_at : ℕ → ℕ → F.boot.State → Option (ReadResult F)
  file_read_at offset size w =
      let (st, w') = F.set_position offset w in
      if is_error st then some (st, [], w') else read_loop (suc (u64 size)) (u64 size) 0 w'
