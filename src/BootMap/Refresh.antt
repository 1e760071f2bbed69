-- ===== src/BootMap/Refresh.antt =====
-- `memmap_refresh` (memmap.c) on firmware with memory to spare.
use chypervisor.Prelude.{
  ℕ, ◌+◌, ◌*◌, ◌^◌, ◌≤◌, ◌<◌, ◌≡◌, ◌≢◌, refl, sym, ◌∙◌, arith, false, ◌==◌, leb, inl, inr,
  Bool-cases, leb→le, leb→lt, add64, u64,
}
use chypervisor.BootMap.{
  MapServices, MapAt, efi_error, buffer_too_small, take_reply, refresh_larger, memmap_refresh,
}

-- What the firmware knows of its memory map in a state: size, key, descriptor size and version, the
-- map's bytes, and the bytes of a buffer.
pub record MapView (S : Type 0) : Type 0 where
  pub size : S → ℕ
  pub key : S → ℕ
  pub entry : S → ℕ
  pub version : S → ℕ
  pub image : S → ℕ → ℕ
  pub buffer : S → ℕ → ℕ → ℕ

-- The map `mm` describes the firmware's map in a state, and holds it.
pub record IsCurrent {S : Type 0} (V : MapView S) (mm : MapAt) (w : S) : Type 0 where
  pub same_size : mm.map_size ≡ V.size w
  pub same_key : mm.map_key ≡ V.key w
  pub same_entry : mm.descriptor_size ≡ V.entry w
  pub same_version : mm.descriptor_version ≡ V.version w
  pub held : (i : ℕ) → i < V.size w → V.buffer w mm.descriptors i ≡ V.image w i
  pub fits : mm.map_size ≤ mm.buffer_size
  pub present : mm.descriptors ≢ 0

-- Assumptions of a firmware with memory to spare, beyond its specification: a buffer that is there and large
-- enough gets the map, and a smaller one the size that is needed, with the descriptor size; the call does not
-- change the map. An allocation succeeds, and neither it nor a release adds more than two descriptors;
-- their size is at most half a page, and the map is smaller than 2^63 bytes.
pub record Spares {S : Type 0} (M : MapServices S) (V : MapView S) : Type 0 where
  pub enough :
      (n p : ℕ) (w : S)
      → V.size w ≤ n
      → p ≢ 0
      → let r = M.get_memory_map n p w in
        (r.0 ≡ 0)
        × (r.1.size ≡ V.size r.2)
        × (r.1.key ≡ V.key r.2)
        × (r.1.descriptor_size ≡ V.entry r.2)
        × (r.1.descriptor_version ≡ V.version r.2)
        × (V.size r.2 ≡ V.size w)
        × ((i : ℕ) → i < V.size r.2 → V.buffer r.2 p i ≡ V.image r.2 i)
  pub small :
      (n p : ℕ) (w : S)
      → n < V.size w
      → let r = M.get_memory_map n p w in
        (r.0 ≡ buffer_too_small)
        × (r.1.size ≡ V.size w)
        × (r.1.descriptor_size ≡ V.entry w)
        × (V.size r.2 ≡ V.size w)
        × (V.entry r.2 ≡ V.entry w)
  pub released : (p : ℕ) (w : S) → V.size (M.free_pool p w) ≤ V.size w + 2 * V.entry w
  pub released_entry : (p : ℕ) (w : S) → V.entry (M.free_pool p w) ≡ V.entry w
  pub allocated : (n : ℕ) (w : S) → (M.allocate_pool n w).0 ≡ 0
  pub allocated_size : (n : ℕ) (w : S) → V.size (M.allocate_pool n w).2 ≤ V.size w + 2 * V.entry w
  pub given : (n : ℕ) (w : S) → (M.allocate_pool n w).1 ≢ 0
  pub half_page : (w : S) → V.entry w ≤ 2048
  pub bounded : (w : S) → V.size w < 2 ^ 63

module _ {S : Type 0} (M : MapServices S) (V : MapView S) (laws : Spares M V) where
  -- A success with a map that is current.
  abbrev pub Refreshed : ℕ × MapAt × S → Type 0
  Refreshed r = (r.0 ≡ 0) × IsCurrent V r.1 r.2

  refresh_larger-Refreshed :
      (size : ℕ) (mm : MapAt) (w : S)
      → size ≡ V.size w
      → mm.descriptor_size ≡ V.entry w
      → Refreshed (refresh_larger M size mm w)
  unfolding refresh_larger
  refresh_larger-Refreshed size mm w here entry =
      let half = laws.half_page w in
      let more = add64 size (u64 (2 * mm.descriptor_size + 4096)) in
      let w1 = M.free_pool mm.descriptors w in
      let w2 = (M.allocate_pool more w1).2 in
      let p = (M.allocate_pool more w1).1 in
      let room : V.size w2 ≤ more = omega (
        arith,
        here,
        entry,
        laws.bounded w,
        half,
        laws.released mm.descriptors w,
        laws.released_entry mm.descriptors w,
        laws.allocated_size more w1,
      ) in
      let (ok, size', key, entry', version, same, held) =
        laws.enough more p w2 room (laws.given more w1) in
      let no_error : efi_error (M.allocate_pool more w1).0 ≡ false =
        rw (laws.allocated more w1) refl in
      rw no_error (
        ok,
        record {
          same_size = size';
          same_key = key;
          same_entry = entry';
          same_version = version;
          held = held;
          fits = omega (arith, size', same, room);
          present = laws.given more w1;
        },
      )

  -- On such firmware, for a map with a buffer: `memmap_refresh` succeeds,
  -- with the first buffer or a larger one, and leaves a map with the size, key, descriptor size and version
  -- of the firmware's map at that moment, whose bytes are in the buffer.
  pub memmap_refresh-IsCurrent :
      (mm : MapAt) (w : S) → mm.descriptors ≢ 0 → Refreshed (memmap_refresh M mm w)
  unfolding memmap_refresh
  memmap_refresh-IsCurrent mm w present =
      let there : (mm.descriptors == 0) ≡ false = ground arith in
      elim (Bool-cases (leb (V.size w) mm.buffer_size)) [
        | inl e ↦
            let room = leb→le (V.size w) mm.buffer_size e in
            let (ok, size', key, entry', version, same, held) =
              laws.enough mm.buffer_size mm.descriptors w room present in
            rw (there, ok)
              (
                refl,
                record {
                  same_size = size';
                  same_key = key;
                  same_entry = entry';
                  same_version = version;
                  held = held;
                  fits = omega (arith, size', same, room);
                  present = present;
                },
              )
        | inr e ↦
            let (st, size', entry', same, same_entry) =
              laws.small mm.buffer_size mm.descriptors w (leb→lt (V.size w) mm.buffer_size e) in
            let r = M.get_memory_map mm.buffer_size mm.descriptors w in
            rw (there, st)
              (refresh_larger-Refreshed r.1.size (take_reply M r.1 mm) r.2 (size' ∙ sym same)
                (entry' ∙ sym same_entry))
      ]
