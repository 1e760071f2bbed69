-- ===== src/BootMap/Main.antt =====
-- bootloader/boot.c: `efi_main` from the load of the kernel on, and bootinfo.h. Before it, `init_file` and
-- `OpenRoot` decide whether the root directory is open.
use chypervisor.Prelude.{ℕ, ◌≡◌, Bool, true, false, Option, none, some, ◌>>=◌, if◌then◌else◌}
use chypervisor.Bootinfo.{BootInfo}
use chypervisor.KernelLoader.{Firmware, is_error}
use chypervisor.KernelLoader.Image.{Boot, load_kernel_elf}
use chypervisor.BootMap.{
  MapServices, MapAt, efi_error, memmap_init, memmap_refresh, exit_boot_services_with_map,
}
use chypervisor.BootMap.Refresh.{MapView, IsCurrent}

abbrev pub bootinfo_magic : ℕ
bootinfo_magic = 0xDEADBEEFCAFEBABE

-- How the bootloader ends: it waits for ever, or it calls the kernel's entry with the boot information.
pub data BootResult (S : Type 0) : Type 0 where
  stalled : BootResult S
  entered : ℕ → BootInfo ℕ → S → BootResult S

-- `entry` is 0 until the loader writes it.
abbrev pub entry_of : Option ℕ → ℕ
entry_of none = 0
entry_of (some e) = e

module _ {S : Type 0} (M : MapServices S) where
  abbrev pub boot_info : MapAt → BootInfo ℕ
  boot_info mm = record { magic = bootinfo_magic; memory_map = mm }

  unfoldable pub enter_kernel : ℕ → MapAt → S → BootResult S
  enter_kernel entry mm w =
      let (st, _, w') = exit_boot_services_with_map M mm w in
      if efi_error st then stalled else entered entry (boot_info mm) w'

  -- From `memmap_init` on.
  unfoldable pub boot_from_map : ℕ → S → BootResult S
  boot_from_map entry w =
      let (st, mm, w1) = memmap_init M 4 w in
      let (st', mm1, w2) = memmap_refresh M mm w1 in
      if efi_error st then stalled else if efi_error st' then stalled else enter_kernel entry mm1 w2

  -- The kernel is entered with a map that was current before the exit from the boot services, whose own
  -- map the firmware took; or the firmware has refused two keys, and the bootloader waits.
  pub data Boots (V : MapView S) (entry : ℕ) : BootResult S → Type 0 where
    runs :
        (mm mm' : MapAt) (w w' w'' : S)
        → IsCurrent V mm w
        → exit_boot_services_with_map M mm w ≡ (0, mm', w'')
        → IsCurrent V mm' w'
        → efi_error (M.exit_boot_services mm'.map_key w').0 ≡ false
        → Boots V entry (entered entry (boot_info mm) w'')
    waits :
        (mm mm' : MapAt) (w w' : S)
        → IsCurrent V mm w
        → efi_error (M.exit_boot_services mm.map_key w).0 ≡ true
        → IsCurrent V mm' w'
        → efi_error (M.exit_boot_services mm'.map_key w').0 ≡ true
        → Boots V entry stalled

-- Behind `OpenRoot`, over whether it has opened the root directory.
unfoldable pub boot_kernel :
    (F : Firmware) → MapServices F.boot.State → Bool → Boot F → Option (BootResult F.boot.State)
boot_kernel F M root s = do
  (st, out, t) ← load_kernel_elf F root true s
  some (
      if is_error st
      then stalled
      else boot_from_map M (entry_of out) (M.close_root t.tables.services))
