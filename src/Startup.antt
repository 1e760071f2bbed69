-- ===== src/Startup.antt =====
-- kernel/main.c: the check of the magic number, and how `kernelMain` hands the boot loader's memory map to the page allocator. The set-up of the
-- segments, interrupts and page tables between these calls leaves the snapshot alone.
use chypervisor.Prelude.{ℕ, Option, none, some, ◌>>=◌, ◌==◌, if◌then◌else◌}
use chypervisor.Bootinfo.{
  Bytes, BootInfo, Snapshot, SnapshotResult, bootinfo_snapshot_init, bootinfo_snapshot_memmap, done,
}
use chypervisor.PageAlloc.{PageAllocator}
use chypervisor.PageAlloc.Setup.{page_allocator_init, page_allocator_release_boot_services_data}
pub mod Memory
mod Tests

-- How the part up to the page allocator ends: in the endless HLT, or with the two components' globals.
pub data Started : Type 0 where
  halted : Started
  started : Snapshot → PageAllocator → Started

-- `page_allocator_init(bootinfo_snapshot_memmap())`; without a map it reads through a null pointer.
abbrev pub with_memmap : Snapshot → PageAllocator → Option Started
with_memmap g s = do
  map ← bootinfo_snapshot_memmap g
  t ← page_allocator_init s map
  some (started g t)

abbrev pub after_snapshot : SnapshotResult × Snapshot → PageAllocator → Option Started
after_snapshot (done, g) s = with_memmap g s
after_snapshot (r, g) s = some halted

abbrev pub bootinfo_magic : ℕ
bootinfo_magic = 0xDEADBEEFCAFEBABE

-- `kernelTrampoline` and `kernelMain` up to the page allocator.
unfoldable pub kernel_trampoline :
    Snapshot → PageAllocator → BootInfo (Option Bytes) → Option Started
kernel_trampoline g s bi =
    if bi.magic == bootinfo_magic
    then after_snapshot (bootinfo_snapshot_init g (some bi)) s
    else some halted

-- `page_allocator_release_boot_services_data(bootinfo_snapshot_memmap())`
unfoldable pub release_memory : Snapshot → PageAllocator → Option PageAllocator
release_memory g s = page_allocator_release_boot_services_data s (bootinfo_snapshot_memmap g)
