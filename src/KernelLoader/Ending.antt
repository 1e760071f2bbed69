-- ===== src/KernelLoader/Ending.antt =====
-- The status that kernel_loader.c reports once the image's memory is allocated.
use chypervisor.Prelude.{ℕ, ◌-◌, ◌/◌, ◌^◌, ◌≡◌, ◌≢◌, refl, arith, inl, inr}
use chypervisor.Prelude.{Bool, true, false, Option, none, some, List, ◌==◌, Bool-cases, sub64}
use chypervisor.BootPage.{is_success}
use chypervisor.KernelLoader.{Firmware, Status, is_error, efi_ok}
use chypervisor.KernelLoader.Headers.{Ehdr, Phdr}
use chypervisor.KernelLoader.Image.{
  Boot, LoadResult, with_services, page_size, map_segments, finalize_segments, load_mapped,
  load_range, load_segments, range_of, no_range,
}
use chypervisor.KernelLoader.Read.{IsReliable}
use chypervisor.KernelLoader.Segments.{
  SetsMemory, AreSegments, AllLoads, IsLoaded, load_segments-LoadsAll,
}

-- How the loader ends behind the allocation, by the state `s` in which the segments have been mapped, with
-- `mapped`, and the status `given` of the allocation: with the entry point and the segments in memory, or
-- without an entry point, where a page could not be mapped or protected. No end has a status that is an
-- error.
pub data Ends (F : Firmware) (content : ℕ → ℕ) (eh : Ehdr) (ps : List Phdr) (given : Status)
    (mapped : Bool) (s : Boot F) : LoadResult F → Type 0 where
  ready :
      (st : Status) (t : Boot F)
      → mapped ≡ true
      → load_segments F ps given s ≡ some (st, t)
      → AllLoads (λ p. IsLoaded content p t.bytes) ps
      → is_success (finalize_segments F ps t.tables).0 ≡ true
      → Ends F content eh ps given mapped s
          (efi_ok, some eh.e_entry, record t { tables = (finalize_segments F ps t.tables).1 })
  not_mapped : mapped ≡ false → Ends F content eh ps given mapped s (given, none, s)
  not_protected :
      (st : Status) (t : Boot F)
      → mapped ≡ true
      → load_segments F ps given s ≡ some (st, t)
      → is_error st ≡ false
      → is_success (finalize_segments F ps t.tables).0 ≡ false
      → Ends F content eh ps given mapped s
          (st, none, record t { tables = (finalize_segments F ps t.tables).1 })

-- A result of that kind.
abbrev pub EndsSome :
    (F : Firmware)
    → (ℕ → ℕ)
    → Ehdr
    → List Phdr
    → Status
    → Bool
    → Boot F
    → Option (LoadResult F)
    → Type 0
EndsSome F content eh ps given mapped s r =
    (x : LoadResult F) × (r ≡ some x)
    × (is_error x.0 ≡ false)
    × Ends F content eh ps given mapped s x

module _ (F : Firmware) (sets : SetsMemory F) (content : ℕ → ℕ) (len : ℕ) (pos : F.boot.State → ℕ)
    (file : IsReliable F content len pos) (eh : Ehdr) (ps : List Phdr)
    (segs : AreSegments len ps) where
  load_mapped-Ends :
      (st : Status) (s : Boot F)
      → is_error st ≡ false
      → EndsSome F content eh ps st true s (load_mapped F eh ps st s)
  unfolding load_mapped
  load_mapped-Ends st s ok =
      let (st', s', e, ok', loaded, _) =
        load_segments-LoadsAll F sets content len pos file ps st s segs ok in
      let done : Boot F = record s' { tables = (finalize_segments F ps s'.tables).1 } in
      elim (Bool-cases (is_success (finalize_segments F ps s'.tables).0)) [
        | inl good ↦ (
          (efi_ok, some eh.e_entry, done),
          rw (e, ok', good) refl,
          refl,
          ready st' s' refl e loaded good,
        )
        | inr bad ↦
            ((st', none, done), rw (e, ok', bad) refl, ok', not_protected st' s' refl e ok' bad)
      ]

  -- The state in which the firmware has been asked for the memory of the image, and its answer.
  abbrev pub asked : Boot F → Status × ℕ × F.boot.State
  asked s =
      let r = range_of ps no_range in
      F.allocate_address (sub64 r.phys_end r.phys_start / page_size) r.phys_start s.tables.services

  -- Behind the reading of the program headers, when no access of the file fails, for headers as the ELF
  -- format asks for, of which one is loaded, when the firmware gives the memory of their range:
  -- `load_kernel_elf` reports no error. It gives the entry point, with all segments in memory as the loop
  -- has left them, if all pages could be mapped and then protected; otherwise it gives none, and still
  -- reports no error.
  pub load_range-Ends :
      (s : Boot F)
      → (range_of ps no_range).phys_start ≢ 2 ^ 64 - 1
      → is_error (asked s).0 ≡ false
      → (asked s).1 ≡ (range_of ps no_range).phys_start
      → let mapped = map_segments F ps (with_services F (asked s).2 s).tables in
        EndsSome F content eh ps
          (asked s).0
          (is_success mapped.0)
          (record s { tables = mapped.1 })
          (load_range F eh ps (range_of ps no_range) s)
  unfolding load_range
  load_range-Ends s some_range ok got =
      let r = range_of ps no_range in
      let given = asked s in
      let s1 = with_services F given.2 s in
      let mapped = map_segments F ps s1.tables in
      let s2 : Boot F = record s1 { tables = mapped.1 } in
      let start : (r.phys_start == 2 ^ 64 - 1) ≡ false = ground (arith, some_range) in
      let same : (given.1 == r.phys_start) ≡ true = ground (arith, got) in
      elim (Bool-cases (is_success mapped.0)) [
        | inl good ↦
            let (x, e, fine, ends) = load_mapped-Ends given.0 s2 ok in
            (x, rw (start, ok, same, good) e, fine, rw good ends)
        | inr bad ↦ ((given.0, none, s2), rw (start, ok, same, bad) refl, ok, not_mapped bad)
      ]
