-- ===== src/BootMap/Safe.antt =====
-- What the kernel is entered with (memmap.c, boot.c), on any firmware that obeys its specification.
use chypervisor.Prelude.{
  ℕ, ◌≤◌, ◌<◌, ◌≡◌, ◌≢◌, refl, ap, add64, u64, ◌*◌, ◌+◌, ◌∙◌, arith, Bool, true, false, Option,
  some, ◌==◌, Bool-cases, inl, inr,
}
use chypervisor.Bootinfo.{BootInfo}
use chypervisor.KernelLoader.{Firmware, Status, is_error}
use chypervisor.KernelLoader.Image.{Boot, load_kernel_elf}
use chypervisor.BootMap.{
  MapServices, MapAt, efi_error, buffer_too_small, take_reply, refresh_larger, memmap_init,
  memmap_refresh, exit_again, exit_boot_services_with_map,
}
use chypervisor.BootMap.Refresh.{MapView, IsCurrent}
use chypervisor.BootMap.Exit.{Called}
use chypervisor.BootMap.Main.{
  BootResult, stalled, entered, entry_of, boot_info, enter_kernel, boot_from_map, boot_kernel,
}

-- What the UEFI specification says: a call that succeeds fills the buffer, which is not NULL, with the map
-- of that moment, whose size is at most that of the buffer.
pub record Fills {S : Type 0} (M : MapServices S) (V : MapView S) : Type 0 where
  pub filled :
      (n p : ℕ) (w : S)
      → efi_error (M.get_memory_map n p w).0 ≡ false
      → let r = M.get_memory_map n p w in
        (r.1.size ≡ V.size r.2)
        × (r.1.key ≡ V.key r.2)
        × (r.1.descriptor_size ≡ V.entry r.2)
        × (r.1.descriptor_version ≡ V.version r.2)
        × (r.1.size ≤ n)
        × (p ≢ 0)
        × ((i : ℕ) → i < V.size r.2 → V.buffer r.2 p i ≡ V.image r.2 i)

module _ {S : Type 0} (M : MapServices S) (V : MapView S) (fills : Fills M V) where
  -- An error, or a map that is current.
  abbrev pub IsSafe : ℕ × MapAt × S → Type 0
  IsSafe r = efi_error r.0 ≡ false → IsCurrent V r.1 r.2

  reply-IsCurrent :
      (n p : ℕ) (mm : MapAt) (w : S)
      → mm.buffer_size ≡ n
      → mm.descriptors ≡ p
      → efi_error (M.get_memory_map n p w).0 ≡ false
      → let r = M.get_memory_map n p w in
        IsCurrent V (take_reply M r.1 (record mm { map_size = r.1.size })) r.2
  reply-IsCurrent n p mm w room at ok =
      let (size, key, entry, version, fits, present, held) = fills.filled n p w ok in
      let r = M.get_memory_map n p w in
      record {
        same_size = size;
        same_key = key;
        same_entry = entry;
        same_version = version;
        held = λ i l. ap (λ q. V.buffer r.2 q i) at ∙ held i l;
        fits = omega (arith, fits, room);
        present = omega (arith, present, at);
      }

  refresh_larger-IsSafe : (size : ℕ) (mm : MapAt) (w : S) → IsSafe (refresh_larger M size mm w)
  unfolding refresh_larger
  refresh_larger-IsSafe size mm w =
      let more = add64 size (u64 (2 * mm.descriptor_size + 4096)) in
      let (st, p, w1) = M.allocate_pool more (M.free_pool mm.descriptors w) in
      let mm1 : MapAt = record mm { buffer_size = more; map_size = more; descriptors = p } in
      elim (Bool-cases (efi_error st)) [
        | inl bad ↦ rw bad (λ ok. absurd (ground (arith, ok, bad)))
        | inr good ↦ rw good (λ ok. reply-IsCurrent more p mm1 w1 refl refl ok)
      ]

  -- Whatever happens, a success of `memmap_refresh` comes with a map that is current.
  memmap_refresh-IsSafe : (mm : MapAt) (w : S) → IsSafe (memmap_refresh M mm w)
  unfolding memmap_refresh
  memmap_refresh-IsSafe mm w =
      let r = M.get_memory_map mm.buffer_size mm.descriptors w in
      elim (Bool-cases (mm.descriptors == 0)) [
        | inl null ↦ rw null (λ ok. absurd (ground (arith, ok)))
        | inr there ↦ elim (Bool-cases (r.0 == buffer_too_small)) [
          | inl small ↦ rw (there, small) (refresh_larger-IsSafe r.1.size (take_reply M r.1 mm) r.2)
          | inr other ↦
              rw (there, other)
                (λ ok. reply-IsCurrent mm.buffer_size mm.descriptors mm w refl refl ok)
        ]
      ]

  -- The firmware has taken the key of a map that was current.
  abbrev pub IsLeft : ℕ × MapAt × S → Type 0
  IsLeft r =
      efi_error r.0 ≡ false
      → (w : S) × Called M V false r.1 w × (r.2 ≡ (M.exit_boot_services r.1.map_key w).1)

  exit_again-IsLeft : (mm : MapAt) (w : S) → IsLeft (exit_again M mm w)
  unfolding exit_again
  exit_again-IsLeft mm w =
      let safe = memmap_refresh-IsSafe mm w in
      let (st, mm1, w1) = memmap_refresh M mm w in
      let (st', w2) = M.exit_boot_services mm1.map_key w1 in
      elim (Bool-cases (efi_error st)) [
        | inl bad ↦ rw bad (λ ok. absurd (ground (arith, ok, bad)))
        | inr good ↦ elim (Bool-cases (efi_error st')) [
          | inl refused ↦ rw (good, refused) (λ ok. absurd (ground (arith, ok, refused)))
          | inr taken ↦
              rw (good, taken) (λ ok. (w1, record { current = safe good; answer = taken }, refl))
        ]
      ]

  exit_boot_services_with_map-IsLeft :
      (mm : MapAt) (w : S) → IsLeft (exit_boot_services_with_map M mm w)
  unfolding exit_boot_services_with_map
  exit_boot_services_with_map-IsLeft mm w =
      let safe = memmap_refresh-IsSafe mm w in
      let (st, mm1, w1) = memmap_refresh M mm w in
      let (st', w2) = M.exit_boot_services mm1.map_key w1 in
      elim (Bool-cases (efi_error st)) [
        | inl bad ↦ rw bad (λ ok. absurd (ground (arith, ok, bad)))
        | inr good ↦ elim (Bool-cases (efi_error st')) [
          | inl refused ↦ rw (good, refused) (exit_again-IsLeft mm1 w2)
          | inr taken ↦
              rw (good, taken) (λ ok. (w1, record { current = safe good; answer = taken }, refl))
        ]
      ]

  -- The kernel is entered at `entry` with a map that was current before the exit from the boot services, and
  -- behind an exit with the key of a map that was current.
  pub record IsEntered (entry e : ℕ) (bi : BootInfo ℕ) (w : S) : Type 0 where
    pub at : e ≡ entry
    pub map : MapAt
    pub before : S
    pub current : IsCurrent V map before
    pub handed : bi ≡ boot_info M map
    pub asked : S
    pub called : Called M V false (exit_boot_services_with_map M map before).1 asked
    pub behind :
        w ≡ (M.exit_boot_services (exit_boot_services_with_map M map before).1.map_key asked).1

  -- Nothing is said of a bootloader that waits.
  abbrev pub Starts : ℕ → BootResult S → Type 0
  Starts entry stalled = Unit
  Starts entry (entered e bi w) = IsEntered entry e bi w

  enter_kernel-Starts :
      (entry : ℕ) (mm : MapAt) (w : S) → IsCurrent V mm w → Starts entry (enter_kernel M entry mm w)
  unfolding enter_kernel
  enter_kernel-Starts entry mm w now =
      let left = exit_boot_services_with_map-IsLeft mm w in
      let (st, mm', w') = exit_boot_services_with_map M mm w in
      elim (Bool-cases (efi_error st)) [
        | inl bad ↦ rw bad tt
        | inr good ↦
            let (asked, called, behind) = left good in
            rw good (record {
              at = refl;
              map = mm;
              before = w;
              current = now;
              handed = refl;
              asked = asked;
              called = called;
              behind = behind;
            })
      ]

  boot_from_map-Starts : (entry : ℕ) (w : S) → Starts entry (boot_from_map M entry w)
  unfolding boot_from_map
  boot_from_map-Starts entry w =
      let (st, mm, w1) = memmap_init M 4 w in
      let safe = memmap_refresh-IsSafe mm w1 in
      let (st', mm1, w2) = memmap_refresh M mm w1 in
      elim (Bool-cases (efi_error st)) [
        | inl bad ↦ rw bad tt
        | inr good ↦ elim (Bool-cases (efi_error st')) [
          | inl bad ↦ rw (good, bad) tt
          | inr fresh ↦ rw (good, fresh) (enter_kernel-Starts entry mm1 w2 (safe fresh))
        ]
      ]

-- On firmware that obeys the specification of the memory map, when the loader reports no error: the
-- bootloader waits for ever, or it enters the kernel, at the entry point that the loader has given or at 0
-- if it has given none, with the magic number and a map that was current before the exit from the boot
-- services, and behind a call of that exit with the key of a map that was current, which succeeded.
pub boot_kernel-Starts :
    (F : Firmware) (M : MapServices F.boot.State) (V : MapView F.boot.State) (fills : Fills M V)
    (root : Bool) (s t : Boot F) (st : Status) (out : Option ℕ)
    → load_kernel_elf F root true s ≡ some (st, out, t)
    → is_error st ≡ false
    → (r : BootResult F.boot.State) × (boot_kernel F M root s ≡ some r)
      × Starts M V fills (entry_of out) r
unfolding boot_kernel
boot_kernel-Starts F M V fills root s t st out loaded ok = (
  boot_from_map M (entry_of out) (M.close_root t.tables.services),
  rw (loaded, ok) refl,
  boot_from_map-Starts M V fills (entry_of out) (M.close_root t.tables.services),
)
