-- ===== src/BootMap/Tests.antt =====
-- Runs of memmap.c and boot.c on firmware with a map that is larger than the first buffer.
use chypervisor.Prelude.{
  ℕ, ◌≡◌, refl, arith, true, some, leb, if◌then◌else◌, ◌&&◌, not, ◌==◌, Bool-cases, inl, inr,
  leb→le, ==→ne,
}
use chypervisor.KernelLoader.{efi_ok}
use chypervisor.KernelLoader.Ideal.{firmware, memory, state_of, sample, sample_ends}
use chypervisor.BootMap.{MapServices, buffer_too_small}
use chypervisor.BootMap.Refresh.{MapView}
use chypervisor.BootMap.Safe.{Fills, Starts, boot_kernel-Starts}
use chypervisor.BootMap.Main.{BootResult, boot_kernel}

abbrev maps : MapServices (ℕ × ℕ)
maps = record {
  get_memory_map = λ n p w.
      if leb 20000 n && not (p == 0)
      then (0, record { size = 20000; key = 7; descriptor_size = 48; descriptor_version = 1 }, w)
      else (
        buffer_too_small,
        record { size = 20000; key = 0; descriptor_size = 48; descriptor_version = 1 },
        w,
      );
  allocate_pool = λ n w. (0, 0x8000, w);
  free_pool = λ p w. w;
  exit_boot_services = λ k w. (0, w);
  close_root = λ w. w;
}

abbrev view : MapView (ℕ × ℕ)
view = record {
  size = λ w. 20000;
  key = λ w. 7;
  entry = λ w. 48;
  version = λ w. 1;
  image = λ w i. i;
  buffer = λ w p i. i;
}

maps-Fills : Fills maps view
maps-Fills = record {
  filled = λ n p w ok. elim (Bool-cases (leb 20000 n)) [
    | inl room ↦ elim (Bool-cases (p == 0)) [
      | inl null ↦ absurd (ground (arith, room, null, ok))
      | inr there ↦
          rw (room, there)
            (refl, refl, refl, refl, leb→le 20000 n room, ==→ne p 0 there, λ i l. refl)
    ]
    | inr short ↦ absurd (ground (arith, short, ok))
  ];
}

boot_kernel-Starts_example :
    (r : BootResult (ℕ × ℕ)) × (boot_kernel firmware maps true memory ≡ some r)
    × Starts maps view maps-Fills 0xFFFFFFFF80200000 r
boot_kernel-Starts_example =
    boot_kernel-Starts firmware maps view maps-Fills true memory (state_of sample) efi_ok
      (some 0xFFFFFFFF80200000) sample_ends refl
