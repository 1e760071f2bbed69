-- ===== src/Paging/Reconstruct.antt =====
-- `paging_reconstruct` (paging.c): a new top-level table with a direct map of physical memory and a
-- copy of the upper half of the old tables. The page allocator is an interface.
use chypervisor.Prelude.{ℕ, zero, suc, ◌+◌, ◌-◌, Bool, true, false, ◌==◌, if◌then◌else◌}
use chypervisor.Prelude.{bit_and, bit_or, ◌<<<◌, ◌>>>◌, u16}
use chypervisor.Paging.{virt2phys, phys2virt, direct_map_base}
use chypervisor.Paging.Table.{
  Memory, pte_p, pte_w, pte_a, pte_g, pte_nx, pte_flags_1g, pte_addr_mask, pt_entries,
}
use chypervisor.Paging.Table.{pte_from_pa, idx_lv4, pt_from_pte, is_present, is_large}
use chypervisor.Paging.Entry.{link}

pub record Pages : Type 1 where
  pub State : Type 0
  pub page_alloc_4k_aligned : State → ℕ × State

abbrev pub direct_map_size : ℕ
direct_map_size = 512 <<< 30

abbrev pub set_entry : ℕ → ℕ → ℕ → Memory → Memory
set_entry p i v mem q j = if q == p then (if j == i then v else mem q j) else mem q j

-- A whole table at once: `memset` to 0 and `memcpy`.
abbrev pub set_table : ℕ → (ℕ → ℕ) → Memory → Memory
set_table p table mem q j = if q == p then table j else mem q j

-- The entry of the direct map's table that maps the `l3`-th GiB.
abbrev pub direct_pte : ℕ → ℕ
direct_pte l3 = let pa = l3 <<< 30 in bit_or (pte_from_pa pa) pte_flags_1g

-- The loop over the entries of the direct map's table, from `l3` on.
unfoldable pub fill_1g : ℕ → ℕ → ℕ → Memory → Memory
fill_1g lv3 l3 zero mem = mem
fill_1g lv3 l3 (suc left) mem = fill_1g lv3 (l3 + 1) left (set_entry lv3 l3 (direct_pte l3) mem)

-- The entry of the top level for the table at the physical address `lv3_pa`.
abbrev pub direct_link : ℕ → ℕ
direct_link lv3_pa =
    bit_or (bit_or (bit_or (bit_or (bit_or (pte_from_pa lv3_pa) pte_p) pte_w) pte_a) pte_g) pte_nx

-- The flag that `paging_mark_reconstructed` sets, and CR3.
module _ (P : Pages) where
  pub record Machine : Type 0 where
    pub mem : Memory
    pub pages : P.State
    pub cr3 : ℕ
    pub reconstructed : Bool

  -- Null is 0.
  unfoldable pub alloc_pt_zeroed : Machine → ℕ × Machine
  alloc_pt_zeroed s =
      let (p, t) = P.page_alloc_4k_aligned s.pages in
      if p == 0
      then (0, record s { pages = t })
      else (p, record s { pages = t; mem = set_table p (λ j. 0) s.mem })

  -- A loop over `left` entries from `i` on, which a `return` of its body ends: `false` for -1 and NULL.
  unfoldable pub each_entry : (ℕ → Machine → Bool × Machine) → ℕ → ℕ → Machine → Bool × Machine
  each_entry body i zero s = (true, s)
  each_entry body i (suc left) s =
      let (ok, t) = body i s in
      let rest = each_entry body (i + 1) left t in if ok then rest else (false, t)

  -- The body of the loop of `map_direct_region_1g` at entry `l4`.
  abbrev pub direct_entry : ℕ → ℕ → Machine → Bool × Machine
  direct_entry lv4 l4 s =
      let (lv3, t) = alloc_pt_zeroed s in
      let u = record t { mem = fill_1g lv3 0 pt_entries t.mem } in
      let lv3_pa = virt2phys u.reconstructed lv3 in
      if lv3 == 0
      then (false, t)
      else (true, record u { mem = set_entry lv4 l4 (direct_link lv3_pa) u.mem })

  unfoldable pub map_direct_region_1g : ℕ → Machine → Bool × Machine
  map_direct_region_1g lv4 s =
      let l4_start = u16 (idx_lv4 direct_map_base) in
      let l4_end = u16 (l4_start + (direct_map_size >>> 39)) in
      each_entry (direct_entry lv4) l4_start (l4_end - l4_start) s

  unfoldable pub clone_lv1 : ℕ → Machine → ℕ × Machine
  clone_lv1 old_lv1 s =
      let (new_lv1, t) = alloc_pt_zeroed s in
      if new_lv1 == 0
      then (0, t)
      else (new_lv1, record t { mem = set_table new_lv1 (t.mem old_lv1) t.mem })

  -- The body of the loops of `clone_lv2` and `clone_lv3` at entry `i`, which clone a lower table by
  -- `clone`: `false` for `return NULL`.
  abbrev pub clone_entry : (ℕ → Machine → ℕ × Machine) → ℕ → ℕ → Machine → Bool × Machine
  clone_entry clone new i s =
      let pte = s.mem new i in
      let (child, t) = clone (pt_from_pte s.reconstructed pte) s in
      let pa = virt2phys t.reconstructed child in
      let linked = record t { mem = set_entry new i (link pa pte) t.mem } in
      if is_present pte
      then (if is_large pte then (true, s) else (if child == 0 then (false, t) else (true, linked)))
      else (true, s)

  abbrev pub clone_entries : (ℕ → Machine → ℕ × Machine) → ℕ → ℕ → ℕ → Machine → Bool × Machine
  clone_entries clone new i left s = each_entry (clone_entry clone new) i left s

  -- The common text of `clone_lv2` and `clone_lv3`.
  unfoldable pub clone_table : (ℕ → Machine → ℕ × Machine) → ℕ → Machine → ℕ × Machine
  clone_table clone old s =
      let (new, t) = alloc_pt_zeroed s in
      let copied = record t { mem = set_table new (t.mem old) t.mem } in
      let (ok, u) = clone_entries clone new 0 pt_entries copied in
      if new == 0 then (0, t) else (if ok then (new, u) else (0, u))

  abbrev pub clone_lv2 : ℕ → Machine → ℕ × Machine
  clone_lv2 old_lv2 s = clone_table clone_lv1 old_lv2 s

  abbrev pub clone_lv3 : ℕ → Machine → ℕ × Machine
  clone_lv3 old_lv3 s = clone_table clone_lv2 old_lv3 s

  -- The body of the loop of `clone_kernel_upper_half` at entry `l4`.
  abbrev pub upper_entry : ℕ → ℕ → ℕ → Machine → Bool × Machine
  upper_entry old_lv4 new_lv4 l4 s =
      let pte = s.mem old_lv4 l4 in
      let (new_lv3, t) = clone_lv3 (pt_from_pte s.reconstructed pte) s in
      let pa = virt2phys t.reconstructed new_lv3 in
      let linked = record t { mem = set_entry new_lv4 l4 (link pa pte) t.mem } in
      if is_present pte then (if new_lv3 == 0 then (false, t) else (true, linked)) else (true, s)

  abbrev pub upper_entries : ℕ → ℕ → ℕ → ℕ → Machine → Bool × Machine
  upper_entries old_lv4 new_lv4 l4 left s = each_entry (upper_entry old_lv4 new_lv4) l4 left s

  unfoldable pub clone_kernel_upper_half : ℕ → Machine → Bool × Machine
  clone_kernel_upper_half new_lv4 s =
      let old_lv4 = phys2virt s.reconstructed (bit_and s.cr3 pte_addr_mask) in
      let l4_start = u16 (idx_lv4 direct_map_base + (direct_map_size >>> 39)) in
      upper_entries old_lv4 new_lv4 l4_start (pt_entries - l4_start) s

  -- `true` for the result 0.
  unfoldable pub paging_reconstruct : Machine → Bool × Machine
  paging_reconstruct s =
      let (lv4, s1) = alloc_pt_zeroed s in
      let (ok, s2) = map_direct_region_1g lv4 s1 in
      let (ok', s3) = clone_kernel_upper_half lv4 s2 in
      let new_cr3 = bit_and (virt2phys s3.reconstructed lv4) pte_addr_mask in
      if lv4 == 0
      then (false, s1)
      else (if ok
          then (if ok' then (true, record s3 { cr3 = new_cr3 }) else (false, s3))
          else (false, s2))

  unfoldable pub paging_reconstruct_and_mark : Machine → Bool × Machine
  paging_reconstruct_and_mark s =
      let (ok, t) = paging_reconstruct s in
      if ok then (true, record t { reconstructed = true }) else (false, t)
