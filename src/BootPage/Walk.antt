-- ===== src/BootPage/Walk.antt =====
-- The walk of the processor through four levels of tables, and what an attribute means for it.
use chypervisor.Prelude.{
  ℕ, ◌-◌, ◌*◌, ◌/◌, ◌%◌, ◌^◌, ◌<◌, ◌≡◌, ◌≢◌, ==→ne, ==→eq, refl, sym, ap, ◌∙◌, arith, true, false,
  ◌==◌, bit_and,
}
use chypervisor.Prelude.Bits.{bit_and_mask, bit_and_shifted}
use chypervisor.BootPage.Levels.{target}
use chypervisor.BootPage.{
  BootServices, Loader, PtEntry, PageAttr, page_ro, page_rw, page_rx, page_rwx, page_entry, idx,
  get_table,
}

-- R/W and NX of a page, by its attribute.
abbrev pub writable : PageAttr → ℕ
writable page_ro = 0
writable page_rw = 1
writable page_rx = 0
writable page_rwx = 1

abbrev pub no_execute : PageAttr → ℕ
no_execute page_ro = 1
no_execute page_rw = 1
no_execute page_rx = 0
no_execute page_rwx = 0

-- The entry of a supervisor page: present, at the physical page, with R/W and NX by the attribute.
pub record IsPage (phys : ℕ) (attr : PageAttr) (e : PtEntry) : Type 0 where
  pub present : e.present ≡ 1
  pub frame : e.phys * 4096 ≡ phys
  pub supervisor : e.us ≡ 0
  pub write : e.rw ≡ writable attr
  pub execute : e.xd ≡ no_execute attr
  pub cached : (e.pwt ≡ 0) × (e.pcd ≡ 0)

idx-digit : (n va : ℕ) → idx n va ≡ va / 2 ^ n % 512
idx-digit n va = bit_and_mask 9 (va / 2 ^ n)

page_entry-IsPage :
    (B : BootServices) (phys : ℕ) (attr : PageAttr)
    → phys % 4096 ≡ 0
    → phys < 2 ^ 63
    → IsPage phys attr (page_entry B phys attr)
page_entry-IsPage B phys attr aligned small =
    let number : bit_and (phys / 2 ^ 12) (2 ^ 51 - 1) * 4096 ≡ phys =
      ap (λ x. x * 4096) (bit_and_mask 51 (phys / 2 ^ 12)) ∙ omega (arith, aligned, small) in
    elim attr as (λ a. IsPage phys a (page_entry B phys a)) [
      | page_ro ↦ record {
        present = refl;
        frame = number;
        supervisor = refl;
        write = refl;
        execute = refl;
        cached = (refl, refl);
      }
      | page_rw ↦ record {
        present = refl;
        frame = number;
        supervisor = refl;
        write = refl;
        execute = refl;
        cached = (refl, refl);
      }
      | page_rx ↦ record {
        present = refl;
        frame = number;
        supervisor = refl;
        write = refl;
        execute = refl;
        cached = (refl, refl);
      }
      | page_rwx ↦ record {
        present = refl;
        frame = number;
        supervisor = refl;
        write = refl;
        execute = refl;
        cached = (refl, refl);
      }
    ]

-- The table whose address is in the bits from 12 up of a 64-bit word.
abbrev pub table_of : ℕ → ℕ
table_of x = x / 2 ^ 12 % 2 ^ 52 * 2 ^ 12

get_table-table_of : (x : ℕ) → get_table x ≡ table_of x
get_table-table_of x =
    bit_and_shifted 12 x (2 ^ 52 - 1) ∙ ap (λ y. y * 2 ^ 12) (bit_and_mask 52 (x / 2 ^ 12))

module _ (B : BootServices) where
  -- The walk of an address: nine bits of it index each table, from CR3's on, each entry is present and
  -- refers to the next table, none of the middle ones is a large page, and the last is the page's.
  pub record IsMapped (va phys : ℕ) (attr : PageAttr) (t : Loader B) : Type 0 where
    pub e4 : PtEntry
    pub e3 : PtEntry
    pub e2 : PtEntry
    pub e1 : PtEntry
    pub at4 : t.mem (table_of t.cr3) (va / 2 ^ 39 % 512) ≡ e4
    pub at3 : t.mem (table_of (e4.phys * 2 ^ 12)) (va / 2 ^ 30 % 512) ≡ e3
    pub at2 : t.mem (table_of (e3.phys * 2 ^ 12)) (va / 2 ^ 21 % 512) ≡ e2
    pub at1 : t.mem (table_of (e2.phys * 2 ^ 12)) (va / 2 ^ 12 % 512) ≡ e1
    pub present4 : e4.present ≢ 0
    pub table3 : (e3.present ≢ 0) × (e3.ps ≡ 0)
    pub table2 : (e2.present ≢ 0) × (e2.ps ≡ 0)
    pub page : IsPage phys attr e1

  -- The same, as the code finds its way.
  pub record IsReached (va phys : ℕ) (attr : PageAttr) (t : Loader B) : Type 0 where
    pub e4 : PtEntry
    pub e3 : PtEntry
    pub e2 : PtEntry
    pub at4 : t.mem (get_table t.cr3) (idx 39 va) ≡ e4
    pub at3 : t.mem (target e4) (idx 30 va) ≡ e3
    pub at2 : t.mem (target e3) (idx 21 va) ≡ e2
    pub at1 : t.mem (target e2) (idx 12 va) ≡ page_entry B phys attr
    pub present4 : (e4.present == 0) ≡ false
    pub table3 : ((e3.present == 0) ≡ false) × ((e3.ps == 0) ≡ true)
    pub table2 : ((e2.present == 0) ≡ false) × ((e2.ps == 0) ≡ true)

  looks :
      (t : Loader B) (x n va : ℕ)
      → t.mem (table_of x) (va / 2 ^ n % 512) ≡ t.mem (get_table x) (idx n va)
  looks t x n va =
      ap (λ i. t.mem (table_of x) i) (sym (idx-digit n va))
      ∙ ap (λ p. t.mem p (idx n va)) (sym (get_table-table_of x))

  pub IsReached-IsMapped :
      (va phys : ℕ) (attr : PageAttr) (t : Loader B)
      → phys % 4096 ≡ 0
      → phys < 2 ^ 63
      → IsReached va phys attr t
      → IsMapped va phys attr t
  IsReached-IsMapped va phys attr t aligned small h = record {
    e4 = h.e4;
    e3 = h.e3;
    e2 = h.e2;
    e1 = page_entry B phys attr;
    at4 = looks t t.cr3 39 va ∙ h.at4;
    at3 = looks t (h.e4.phys * 2 ^ 12) 30 va ∙ h.at3;
    at2 = looks t (h.e3.phys * 2 ^ 12) 21 va ∙ h.at2;
    at1 = looks t (h.e2.phys * 2 ^ 12) 12 va ∙ h.at1;
    present4 = ==→ne h.e4.present 0 h.present4;
    table3 = (==→ne h.e3.present 0 h.table3.0, ==→eq h.e3.ps 0 h.table3.1);
    table2 = (==→ne h.e2.present 0 h.table2.0, ==→eq h.e2.ps 0 h.table2.1);
    page = page_entry-IsPage B phys attr aligned small;
  }
