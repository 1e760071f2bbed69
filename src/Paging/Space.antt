-- ===== src/Paging/Space.antt =====
-- `paging_reconstruct` and its wrapper (paging.c): the whole switch to the new tables.
use chypervisor.Prelude.{ℕ, ◌%◌, ◌^◌, ◌<◌, ◌≡◌, Bool, true, false, refl, sym, ap, ◌∙◌, arith}
use chypervisor.Prelude.{◌==◌, ==→ne, if_all, if◌then◌else◌, bit_and, some, ◌∷◌, [], add64}
use mathlib.Core.Path.{subst}
use chypervisor.Paging.{virt2phys, phys2virt}
use chypervisor.Paging.Table.{Tables, walk_from, pte_addr_mask, index_at}
use chypervisor.Paging.Entry.{bit_and_assoc}
use chypervisor.Paging.Walk.{Agrees}
use chypervisor.Paging.Reconstruct.{
  Pages, Machine, alloc_pt_zeroed, each_entry, direct_entry, upper_entry,
}
use chypervisor.Paging.Reconstruct.{
  paging_reconstruct, paging_reconstruct_and_mark, map_direct_region_1g, clone_kernel_upper_half,
}
use chypervisor.Paging.Clone.{Laws, In, Fresh, Extends, IsLinked, alloc_pt_zeroed-Fresh}
use chypervisor.Paging.Loop.{Inv}
use chypervisor.Paging.Switch.{
  IsMapped, direct_entry-IsMapped, root_table, upper_loop, new_space, new_walk,
}

module _ {P : Pages} {r : Bool} {Owned : P.State → ℕ → Type 0} (laws : Laws P r Owned) where
  map_direct_region_1g-IsMapped :
      (s s1 : Machine P) (lv4 : ℕ)
      → s.reconstructed ≡ r
      → Extends laws s s1
      → Fresh laws s s1 lv4
      → ((j : ℕ) → s1.mem lv4 j ≡ 0)
      → let (ok, u) = map_direct_region_1g P lv4 s1 in
        Extends laws s u × (ok ≡ true → IsMapped laws s lv4 u)
  unfolding map_direct_region_1g each_entry
  map_direct_region_1g-IsMapped s s1 lv4 rec ext fresh zeros =
      let (grown, mapped) = direct_entry-IsMapped laws s s1 lv4 rec ext fresh zeros in
      let (ok, u) = direct_entry P lv4 273 s1 in
      if_all (λ (x : Bool × Machine P). Extends laws s x.1 × (x.0 ≡ true → IsMapped laws s lv4 x.1))
        ok (true, u) (false, u) (λ e. (grown, λ h. mapped e))
        (λ e. (grown, λ h. absurd (ground (arith, h))))

  clone_kernel_upper_half-Inv :
      (s u : Machine P) (lv4 : ℕ)
      → s.reconstructed ≡ r
      → Tables r (In laws s) s.mem 3 (root_table laws s)
      → IsMapped laws s lv4 u
      → let (ok, v) = clone_kernel_upper_half P lv4 u in
        Extends laws s v × (ok ≡ true → Inv laws 2 274 (root_table laws s) lv4 s u 512 v)
  unfolding clone_kernel_upper_half
  clone_kernel_upper_half-Inv s u lv4 rec tables mapped =
      let same_root : phys2virt u.reconstructed (bit_and u.cr3 pte_addr_mask) ≡ root_table laws s =
        ap (λ b. phys2virt b (bit_and u.cr3 pte_addr_mask)) (mapped.before.0 ∙ rec)
        ∙ ap (λ c. phys2virt r (bit_and c pte_addr_mask)) mapped.before.1 in
      subst
        (λ old.
          let x = each_entry P (upper_entry P old lv4) 274 238 u in
          Extends laws s x.1 × (x.0 ≡ true → Inv laws 2 274 (root_table laws s) lv4 s u 512 x.1))
        (sym same_root) (upper_loop laws s u lv4 rec tables mapped)

  -- What a run of `paging_reconstruct` leaves: its result and the state.
  abbrev pub Switched : Machine P → Bool × Machine P → Type 0
  Switched s (ok, t) =
      Agrees r (In laws s) (In laws t) s.mem t.mem
      × (t.reconstructed ≡ s.reconstructed)
      × (ok ≡ false → t.cr3 ≡ s.cr3)
      × (ok ≡ true → (va : ℕ) → walk_from r t.mem 3 (root_table laws t) va ≡ new_space laws s va)

  failed : (s u : Machine P) → Extends laws s u → Switched s (false, u)
  failed s u ext = (ext.2, ext.0, λ h. ext.1, λ h. absurd (ground (arith, h)))

  -- The value that `paging_reconstruct` writes to CR3 leads back to the new table.
  new_root :
      (b : Bool) (lv4 : ℕ)
      → b ≡ r
      → IsLinked laws lv4
      → phys2virt r (bit_and (bit_and (virt2phys b lv4) pte_addr_mask) pte_addr_mask) ≡ lv4
  new_root b lv4 e linked =
      ap (phys2virt r) (bit_and_assoc (virt2phys b lv4) pte_addr_mask pte_addr_mask)
      ∙ ap (λ x. phys2virt r (bit_and (virt2phys x lv4) pte_addr_mask)) e
      ∙ linked

  -- For every state that runs on the tables of a known flag `r`, whose tables from CR3 on are all in pages
  -- in use, with an allocator that hands out only unused pages that an entry can address,
  -- `paging_reconstruct` leaves every page in use unchanged and in use. When it fails, CR3 is unchanged.
  -- When it succeeds, a walk from the new CR3 takes an address under entry 273 of the top level, the
  -- direct map, to the physical address of its 39 low bits, with the flags of its entries; it finds
  -- nothing below that entry, and above it exactly what a walk of the old tables found in the old memory.
  pub paging_reconstruct_lem :
      (s : Machine P)
      → s.reconstructed ≡ r
      → Tables r (In laws s) s.mem 3 (root_table laws s)
      → Switched s (paging_reconstruct P s)
  unfolding paging_reconstruct
  paging_reconstruct_lem s rec tables =
      let (lv4, s1) = alloc_pt_zeroed P s in
      let (ext, given) = alloc_pt_zeroed-Fresh laws s in
      let (ok, s2) = map_direct_region_1g P lv4 s1 in
      let (ok', s3) = clone_kernel_upper_half P lv4 s2 in
      let new_cr3 = bit_and (virt2phys s3.reconstructed lv4) pte_addr_mask in
      let end : Machine P = record s3 { cr3 = new_cr3 } in
      let last : Bool × Machine P = if ok' then (true, end) else (false, s3) in
      let middle : Bool × Machine P = if ok then last else (false, s2) in
      if_all (Switched s) (lv4 == 0) (false, s1) middle (λ e. failed s s1 ext)
        (λ e.
          let (fresh, linked, zeros) = given (==→ne lv4 0 e) in
          let (ext2, mapped) = map_direct_region_1g-IsMapped s s1 lv4 rec ext fresh zeros in
          if_all (Switched s) ok last (false, s2)
            (λ direct.
              let (ext3, inv) = clone_kernel_upper_half-Inv s s2 lv4 rec tables (mapped direct) in
              if_all (Switched s) ok' (true, end) (false, s3)
                (λ cloned. (
                  ext3.2,
                  ext3.0,
                  λ h. absurd (ground (arith, h)),
                  λ h va.
                      ap (λ p. walk_from r s3.mem 3 p va)
                        (new_root s3.reconstructed lv4 (ext3.0 ∙ rec) linked)
                      ∙ new_walk laws s s2 s3 lv4 va (mapped direct) (inv cloned),
                ))
                (λ no_clone. failed s s3 ext3))
            (λ no_map. failed s s2 ext2))

  direct_space :
      (s : Machine P) (pa : ℕ)
      → pa < 2 ^ 39
      → new_space laws s (phys2virt true pa) ≡ some (pa, 0x8000000000000123 ∷ 0x1A3 ∷ [])
  unfolding phys2virt
  direct_space s pa small =
      let va = add64 pa 0xFFFF888000000000 in
      let top : (index_at 3 va == 273) ≡ true = ground arith in
      let low : va % 2 ^ 39 ≡ pa = omega arith in rw (top, low) refl

  -- A successful `paging_reconstruct_and_mark` sets the flag, and from then on the new tables take the
  -- address that `phys2virt` gives for a physical address below 512 GiB to that physical address, under
  -- the conditions of `paging_reconstruct_lem`. A run that fails changes neither the flag nor CR3.
  pub paging_reconstruct_and_mark-phys2virt :
      (s : Machine P)
      → s.reconstructed ≡ r
      → Tables r (In laws s) s.mem 3 (root_table laws s)
      → (pa : ℕ) → pa < 2 ^ 39
      → let (ok, t) = paging_reconstruct_and_mark P s in
        (ok ≡ true
          → (t.reconstructed ≡ true)
            × (walk_from r t.mem 3 (root_table laws t) (phys2virt t.reconstructed pa)
                ≡ some (pa, 0x8000000000000123 ∷ 0x1A3 ∷ [])))
        × (ok ≡ false → (t.reconstructed ≡ r) × (t.cr3 ≡ s.cr3))
  unfolding paging_reconstruct_and_mark phys2virt
  paging_reconstruct_and_mark-phys2virt s rec tables pa small =
      let (ok, t) = paging_reconstruct P s in
      let (kept, mode, root, walks) = paging_reconstruct_lem s rec tables in
      let marked : Machine P = record t { reconstructed = true } in
      if_all
        (λ (x : Bool × Machine P).
          (x.0 ≡ true
            → (x.1.reconstructed ≡ true)
              × (walk_from r x.1.mem 3 (root_table laws x.1) (phys2virt x.1.reconstructed pa)
                  ≡ some (pa, 0x8000000000000123 ∷ 0x1A3 ∷ [])))
          × (x.0 ≡ false → (x.1.reconstructed ≡ r) × (x.1.cr3 ≡ s.cr3)))
        ok (true, marked) (false, t)
        (λ done. (
          λ h. (refl, walks done (phys2virt true pa) ∙ direct_space s pa small),
          λ h. absurd (ground (arith, h)),
        ))
        (λ no. (λ h. absurd (ground (arith, h)), λ h. (mode ∙ rec, root no)))
