-- ===== src/BootMap/Exit.antt =====
-- `exit_boot_services_with_map` (memmap.c) on firmware with memory to spare.
use chypervisor.Prelude.{ℕ, ◌≡◌, ◌≢◌, Bool, true, false, Bool-cases, inl, inr}
use chypervisor.BootMap.{
  MapServices, MapAt, efi_error, memmap_refresh, exit_again, exit_boot_services_with_map,
}
use chypervisor.BootMap.Refresh.{MapView, IsCurrent, Spares, memmap_refresh-IsCurrent}

-- `ExitBootServices` was called with the key of the map that was current, and the firmware took it or not.
pub record Called {S : Type 0} (M : MapServices S) (V : MapView S) (refused : Bool) (mm : MapAt)
    (w : S) : Type 0 where
  pub current : IsCurrent V mm w
  pub answer : efi_error (M.exit_boot_services mm.map_key w).0 ≡ refused

-- The ends of the exit: the firmware took the key of the map that is handed back, or refused two.
pub data Exits {S : Type 0} (M : MapServices S) (V : MapView S) : ℕ × MapAt × S → Type 0 where
  left :
      (mm : MapAt) (w : S)
      → Called M V false mm w
      → Exits M V (0, mm, (M.exit_boot_services mm.map_key w).1)
  refused_twice :
      (mm1 mm2 : MapAt) (w1 w2 : S)
      → Called M V true mm1 w1
      → Called M V true mm2 w2
      → Exits M V
          ((M.exit_boot_services mm2.map_key w2).0, mm2, (M.exit_boot_services mm2.map_key w2).1)

module _ {S : Type 0} (M : MapServices S) (V : MapView S) (laws : Spares M V) where
  exit_again-Exits :
      (mm mm1 : MapAt) (w w1 : S)
      → mm.descriptors ≢ 0
      → Called M V true mm1 w1
      → Exits M V (exit_again M mm w)
  unfolding exit_again
  exit_again-Exits mm mm1 w w1 present before =
      let (ok, current) = memmap_refresh-IsCurrent M V laws mm w present in
      let (_, mm2, w2) = memmap_refresh M mm w in
      elim (Bool-cases (efi_error (M.exit_boot_services mm2.map_key w2).0)) [
        | inl e ↦
            rw (ok, e)
              (refused_twice mm1 mm2 w1 w2 before (record { current = current; answer = e }))
        | inr e ↦ rw (ok, e) (left mm2 w2 (record { current = current; answer = e }))
      ]

  -- On firmware with memory to spare, for a map with a buffer: `exit_boot_services_with_map` returns
  -- success exactly where the firmware took the key of its map at that moment, with that map handed back;
  -- otherwise the firmware has refused two keys that were current, and the second refusal is returned.
  pub exit_boot_services_with_map-Exits :
      (mm : MapAt) (w : S) → mm.descriptors ≢ 0 → Exits M V (exit_boot_services_with_map M mm w)
  unfolding exit_boot_services_with_map
  exit_boot_services_with_map-Exits mm w present =
      let (ok, current) = memmap_refresh-IsCurrent M V laws mm w present in
      let (_, mm1, w1) = memmap_refresh M mm w in
      elim (Bool-cases (efi_error (M.exit_boot_services mm1.map_key w1).0)) [
        | inl e ↦
            rw (ok, e)
              (exit_again-Exits mm1 mm1 (M.exit_boot_services mm1.map_key w1).1 w1 current.present
                (record { current = current; answer = e }))
        | inr e ↦ rw (ok, e) (left mm1 w1 (record { current = current; answer = e }))
      ]
