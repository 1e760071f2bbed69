-- ===== src/Paging/Table.antt =====
-- Page-table entries (paging.h and the helpers of paging.c), and how the processor reads the tables.
use chypervisor.Prelude.{
  ℕ, zero, suc, ◌+◌, ◌*◌, ◌/◌, ◌%◌, ◌^◌, ◌<◌, ◌≡◌, Bool, true, Option, none, some,
}
use chypervisor.Prelude.{
  bit_and, bit_or, ◌>>>◌, not64, ◌==◌, if◌then◌else◌, not, List, [], ◌∷◌, ◌&&◌, ◌||◌,
}
use chypervisor.Paging.{phys2virt}

abbrev pub pte_p : ℕ
pte_p = 2 ^ 0

abbrev pub pte_w : ℕ
pte_w = 2 ^ 1

abbrev pub pte_a : ℕ
pte_a = 2 ^ 5

abbrev pub pte_ps : ℕ
pte_ps = 2 ^ 7

abbrev pub pte_g : ℕ
pte_g = 2 ^ 8

abbrev pub pte_nx : ℕ
pte_nx = 2 ^ 63

abbrev pub pte_flags_1g : ℕ
pte_flags_1g = bit_or (bit_or (bit_or (bit_or pte_p pte_w) pte_a) pte_ps) pte_g

abbrev pub pte_addr_mask : ℕ
pte_addr_mask = 0x000FFFFFFFFFF000

abbrev pub pt_entries : ℕ
pt_entries = 512

abbrev pub pte_from_pa : ℕ → ℕ
pte_from_pa pa = bit_and pa pte_addr_mask

abbrev pub idx_lv4 : ℕ → ℕ
idx_lv4 va = bit_and (va >>> 39) 0x1FF

abbrev pub idx_lv3 : ℕ → ℕ
idx_lv3 va = bit_and (va >>> 30) 0x1FF

abbrev pub idx_lv2 : ℕ → ℕ
idx_lv2 va = bit_and (va >>> 21) 0x1FF

abbrev pub idx_lv1 : ℕ → ℕ
idx_lv1 va = bit_and (va >>> 12) 0x1FF

abbrev pub pt_from_pte : Bool → ℕ → ℕ
pt_from_pte r pte = phys2virt r (bit_and pte pte_addr_mask)

-- Memory as tables: the entry with an index in the table at an address.
abbrev pub Memory : Type 0
Memory = ℕ → ℕ → ℕ

abbrev pub is_present : ℕ → Bool
is_present pte = not (bit_and pte pte_p == 0)

abbrev pub is_large : ℕ → Bool
is_large pte = not (bit_and pte pte_ps == 0)

-- The bits of an entry other than its address.
abbrev pub flags_of : ℕ → ℕ
flags_of pte = bit_and pte (not64 pte_addr_mask)

-- What the processor finds for an address: where it leads, and the flags of the entries on the way.
abbrev pub Translation : Type 0
Translation = Option (ℕ × List ℕ)

-- The page of `2 ^ k` bytes that an entry maps.
abbrev pub page_at : ℕ → ℕ → ℕ → Translation
page_at k pte va = some (bit_and pte pte_addr_mask / 2 ^ k * 2 ^ k + va % 2 ^ k, flags_of pte ∷ [])

abbrev pub under : ℕ → Translation → Translation
under pte none = none
under pte (some (pa, flags)) = some (pa, flags_of pte ∷ flags)

-- The bits below the index of a level, from 0 for the tables of 4 KiB pages.
abbrev pub shift_at : ℕ → ℕ
shift_at level = 12 + 9 * level

abbrev pub index_at : ℕ → ℕ → ℕ
index_at level va = va / 2 ^ shift_at level % 512

-- What an entry of a table above the lowest level leads to, given what the table below says. A large
-- page may stand at levels 1 and 2; the entries of the top level, 3, have none.
abbrev pub walk_step : ℕ → ℕ → Translation → ℕ → Translation
walk_step level pte below va =
    if is_present pte
    then (if level == 2
        then under pte below
        else (if is_large pte then page_at (shift_at (suc level)) pte va else under pte below))
    else none

-- The walk from a table of a level, as the processor's manual describes it.
abbrev pub walk_from : Bool → Memory → ℕ → ℕ → ℕ → Translation
walk_from r mem zero p va =
    let pte = mem p (index_at 0 va) in if is_present pte then page_at 12 pte va else none
walk_from r mem (suc level) p va =
    let pte = mem p (index_at (suc level) va) in
    walk_step level pte (walk_from r mem level (pt_from_pte r pte) va) va

-- The entry of a table above `level` points to a table of `level`.
abbrev pub refers : ℕ → ℕ → Bool
refers level pte = is_present pte && (level == 2 || not (is_large pte))

-- A tree of tables, all of whose pages are in a set.
abbrev pub Tables : Bool → (ℕ → Type 0) → Memory → ℕ → ℕ → Type 0
Tables r O mem zero p = O p
Tables r O mem (suc level) p =
    O p
    × ((i : ℕ)
        → i < 512
        → refers level (mem p i) ≡ true
        → Tables r O mem level (pt_from_pte r (mem p i)))
