-- ===== src/BootPage.antt =====
-- bootloader/arch/x86/arch_x86_page.c: the page tables of the firmware, which the bootloader extends.
-- Memory is the entries of each table, in which virtual addresses are physical ones. The boot services'
-- page allocation is an interface.
pub mod Levels
pub mod Map
pub mod Walk
mod Tests
use chypervisor.Prelude.{
  ℕ, zero, suc, ◌+◌, ◌-◌, ◌*◌, ◌/◌, ◌%◌, ◌^◌, Bool, true, false, Option, none, some,
}
use chypervisor.Prelude.{
  ◌==◌, if◌then◌else◌, ◌||◌, ◌&&◌, not, ltb, bit_and, not64, add64, ◌>>>◌, ◌<<<◌,
}

abbrev pub page_size_4k : ℕ
page_size_4k = 1 <<< 12

abbrev pub page_mask_4k : ℕ
page_mask_4k = page_size_4k - 1

abbrev pub entries_per_pt : ℕ
entries_per_pt = 512

pub record PtEntry : Type 0 where
  pub present : ℕ
  pub rw : ℕ
  pub us : ℕ
  pub pwt : ℕ
  pub pcd : ℕ
  pub accessed : ℕ
  pub dirty : ℕ
  pub ps : ℕ
  pub global : ℕ
  pub ignored1 : ℕ
  pub restart : ℕ
  pub phys : ℕ
  pub xd : ℕ

abbrev pub clear_entry : PtEntry
clear_entry = record {
  present = 0;
  rw = 0;
  us = 0;
  pwt = 0;
  pcd = 0;
  accessed = 0;
  dirty = 0;
  ps = 0;
  global = 0;
  ignored1 = 0;
  restart = 0;
  phys = 0;
  xd = 0;
}

pub data PageAttr : Type 0 where
  page_ro page_rw page_rx page_rwx : PageAttr

-- The statuses of the file, and `efi_error` for one that the boot services report.
pub data EfiStatus : Type 0 where
  efi_success efi_invalid_parameter efi_already_started efi_not_found efi_error : EfiStatus

abbrev pub is_success : EfiStatus → Bool
is_success efi_success = true
is_success efi_invalid_parameter = false
is_success efi_already_started = false
is_success efi_not_found = false
is_success efi_error = false

-- `get_lv4_table` to `get_lv1_table`
abbrev pub get_table : ℕ → ℕ
get_table p = bit_and p (not64 page_mask_4k)

abbrev pub entry_addr : PtEntry → ℕ
entry_addr e = e.phys <<< 12

abbrev pub entry_set_phys : PtEntry → ℕ → PtEntry
entry_set_phys e p4k_aligned = record e { phys = bit_and (p4k_aligned >>> 12) (2 ^ 51 - 1) }

abbrev pub idx : ℕ → ℕ → ℕ
idx shift v = bit_and (v >>> shift) 0x1FF

abbrev pub pte_apply_attr : PtEntry → PageAttr → PtEntry
pte_apply_attr pte page_ro = record pte { rw = 0; xd = 1 }
pte_apply_attr pte page_rw = record pte { rw = 1; xd = 1 }
pte_apply_attr pte page_rx = record pte { rw = 0; xd = 0 }
pte_apply_attr pte page_rwx = record pte { rw = 1; xd = 0 }

-- `AllocatePages` for one page: `none` is an error.
pub record BootServices : Type 1 where
  pub State : Type 0
  pub allocate_page : State → Option ℕ × State

module _ (B : BootServices) where
  pub record Loader : Type 0 where
    pub mem : ℕ → ℕ → PtEntry
    pub services : B.State
    pub cr3 : ℕ

  abbrev pub put : ℕ → ℕ → PtEntry → Loader → Loader
  put p i e s = record s { mem = λ q j. if q == p && j == i then e else s.mem q j }

  abbrev pub clear_page : ℕ → Loader → Loader
  clear_page p s = record s { mem = λ q j. if q == p then clear_entry else s.mem q j }

  -- The entry that refers to a new table.
  abbrev pub table_entry : ℕ → PtEntry
  table_entry page = entry_set_phys (record clear_entry { present = 1; rw = 1 }) page

  -- What `alloc_new_table` does with the page that it has got.
  abbrev pub new_table : Option ℕ → ℕ → ℕ → Loader → EfiStatus × Loader
  new_table none p i s = (efi_error, s)
  new_table (some q) p i s = (efi_success, put p i (table_entry q) (clear_page q s))

  unfoldable pub alloc_new_table : ℕ → ℕ → Loader → EfiStatus × Loader
  alloc_new_table p i s =
      let (page, services) = B.allocate_page s.services in
      new_table page p i (record s { services = services })

  -- The copy of the top table and the switch to it.
  unfoldable pub page_set_lv4_writable : Loader → EfiStatus × Loader
  page_set_lv4_writable s =
      let (page, services) = B.allocate_page s.services in
      let t = record s { services = services } in
      elim page [
        | none ↦ (efi_error, t)
        | some q ↦ (
          efi_success,
          record t {
            mem = λ p j.
                if p == q && ltb j entries_per_pt then s.mem (get_table s.cr3) j else s.mem p j;
            cr3 = q;
          },
        )
      ]

  -- The table and index of the entry, and `none` for NULL.
  unfoldable pub l1_entry_for_va : ℕ → Loader → Option (ℕ × ℕ)
  l1_entry_for_va va s =
      let e4 = s.mem (get_table s.cr3) (idx 39 va) in
      let e3 = s.mem (get_table (entry_addr e4)) (idx 30 va) in
      let e2 = s.mem (get_table (entry_addr e3)) (idx 21 va) in
      if e4.present == 0
      then none
      else (if e3.present == 0 || not (e3.ps == 0)
          then none
          else (if e2.present == 0 || not (e2.ps == 0)
              then none
              else some (get_table (entry_addr e2), idx 12 va)))

  unfoldable pub page_set_attr_4k : ℕ → PageAttr → Loader → EfiStatus × Loader
  page_set_attr_4k vaddr attr s = elim (l1_entry_for_va vaddr s) [
    | none ↦ (efi_not_found, s)
    | some (p, i) ↦
        let l1 = s.mem p i in
        if l1.present == 0 || l1.ps == 0
        then (efi_not_found, s)
        else (efi_success, put p i (pte_apply_attr l1 attr) s)
  ]

  -- The loop of `page_apply_attr_range` from `va` on, over the pages that are left.
  unfoldable pub apply_attr_from : ℕ → ℕ → PageAttr → Loader → EfiStatus × Loader
  apply_attr_from va zero attr s = (efi_success, s)
  apply_attr_from va (suc left) attr s =
      let (status, t) = page_set_attr_4k va attr s in
      let rest = apply_attr_from (va + page_size_4k) left attr t in
      if is_success status then rest else (status, t)

  unfoldable pub page_apply_attr_range : ℕ → ℕ → PageAttr → Loader → EfiStatus × Loader
  page_apply_attr_range vaddr size attr s =
      let start = bit_and vaddr (not64 0xFFF) in
      let end = bit_and (add64 (add64 vaddr size) 0xFFF) (not64 0xFFF) in
      apply_attr_from start ((end - start) / page_size_4k) attr s

  -- A level of the way down: the table that an entry refers to, a new one if it refers to none.
  abbrev pub with_table : ℕ → ℕ → (ℕ → Loader → EfiStatus × Loader) → Loader → EfiStatus × Loader
  with_table p i next s =
      let (status, t) =
        if (s.mem p i).present == 0 then alloc_new_table p i s else (efi_success, s) in
      if is_success status then next (get_table (entry_addr (t.mem p i))) t else (status, t)

  abbrev pub page_entry : ℕ → PageAttr → PtEntry
  page_entry phys attr =
      pte_apply_attr (entry_set_phys (record clear_entry { present = 1; rw = 1; ps = 1 }) phys) attr

  abbrev pub map_entry : ℕ → PageAttr → ℕ → ℕ → Loader → EfiStatus × Loader
  map_entry phys attr i p s =
      if not ((s.mem p i).present == 0) && not ((s.mem p i).ps == 0)
      then (efi_already_started, s)
      else (efi_success, put p i (page_entry phys attr) s)

  unfoldable pub page_map4k_to : ℕ → ℕ → PageAttr → Loader → EfiStatus × Loader
  page_map4k_to virt phys attr s =
      let mapped =
        with_table (get_table s.cr3) (idx 39 virt)
          (λ lv3.
            with_table lv3 (idx 30 virt)
              (λ lv2. with_table lv2 (idx 21 virt) (λ lv1. map_entry phys attr (idx 12 virt) lv1)))
          s in
      if not (bit_and virt page_mask_4k == 0) || not (bit_and phys page_mask_4k == 0)
      then (efi_invalid_parameter, s)
      else mapped
