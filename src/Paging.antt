-- ===== src/Paging.antt =====
-- kernel/arch/x86/paging.c: the address translation helpers, over the flag that
-- `paging_mark_reconstructed` sets (`true` once the kernel runs on its own page tables), and in the
-- modules below the page tables that it builds.
pub mod Table
pub mod Entry
pub mod Walk
pub mod Reconstruct
pub mod Clone
pub mod Loop
pub mod Upper
pub mod Trees
pub mod Direct
pub mod Switch
pub mod Space
pub mod Kernel
mod Tests
use chypervisor.Prelude.{ℕ, Bool, ltb, if◌then◌else◌, add64, sub64}

abbrev pub direct_map_base : ℕ
direct_map_base = 0xFFFF888000000000

abbrev pub kernel_base : ℕ
kernel_base = 0xFFFFFFFF80000000

unfoldable pub virt2phys : Bool → ℕ → ℕ
virt2phys reconstructed va =
    if reconstructed
    then (if ltb va kernel_base then sub64 va direct_map_base else sub64 va kernel_base)
    else va

unfoldable pub phys2virt : Bool → ℕ → ℕ
phys2virt reconstructed pa = if reconstructed then add64 pa direct_map_base else pa
