-- ===== src/BinAlloc.antt =====
-- kernel/bin_alloc.c: the small-object allocator. The free lists are linked through the free chunks
-- themselves: the state holds the word that memory has at each chunk's address, the heads of the lists
-- by bin index, and the state of the page allocator, whose three functions are an interface.
use chypervisor.Prelude.{
  ℕ, zero, suc, ◌+◌, ◌-◌, ◌*◌, ◌/◌, Bool, true, false, not, Option, none, some, List, [], ◌∷◌,
}
use chypervisor.Prelude.{ltb, leb, ◌==◌, if◌then◌else◌, add64}
pub mod Class
pub mod Chain
pub mod Malloc
mod Tests

-- page_alloc.h, as this component calls it; an allocation gives 0 if it fails.
pub record Pages : Type 1 where
  pub State : Type 0
  pub page_alloc_pages : State → ℕ → ℕ → ℕ × State
  pub page_alloc_bytes : State → ℕ → ℕ × State
  pub page_free_bytes : State → ℕ → ℕ → State

abbrev pub page_size : ℕ
page_size = 4096

abbrev pub bin_sizes : List ℕ
bin_sizes = 0x20 ∷ 0x40 ∷ 0x80 ∷ 0x100 ∷ 0x200 ∷ 0x400 ∷ 0x800 ∷ []

-- `g_bin_sizes[i]`, 0 past the end.
abbrev pub size_at : List ℕ → ℕ → ℕ
size_at [] i = 0
size_at (b ∷ bs) zero = b
size_at (b ∷ bs) (suc i) = size_at bs i

abbrev pub max_size : ℕ → ℕ → ℕ
max_size a b = if ltb b a then a else b

-- The loop of `bin_index_for` from index `i` on.
unfoldable pub index_from : ℕ → List ℕ → ℕ → Option ℕ
index_from i [] need = none
index_from i (b ∷ bs) need =
    let rest = index_from (suc i) bs need in if leb need b then some i else rest

abbrev pub bin_index_for : ℕ → Option ℕ
bin_index_for need = index_from 0 bin_sizes need

abbrev pub update : ℕ → ℕ → (ℕ → ℕ) → ℕ → ℕ
update i v f j = if j == i then v else f j

module _ (P : Pages) where
  pub record Bins : Type 0 where
    pub heads : ℕ → ℕ
    pub next : ℕ → ℕ
    pub pages : P.State

  unfoldable pub push_node : ℕ → ℕ → Bins → Bins
  push_node idx n s = record s {
    next = update n (s.heads idx) s.next;
    heads = update idx n s.heads;
  }

  unfoldable pub pop_node : ℕ → Bins → ℕ × Bins
  pop_node idx s =
      let n = s.heads idx in
      if n == 0 then (0, s) else (n, record s { heads = update idx (s.next n) s.heads })

  -- The loop of `refill_bin` from `i`, with `count` iterations left.
  unfoldable pub push_chunks : ℕ → ℕ → ℕ → ℕ → ℕ → Bins → Bins
  push_chunks idx page bsz i zero s = s
  push_chunks idx page bsz i (suc count) s =
      push_chunks idx page bsz (i + 1) count (push_node idx (page + i * bsz) s)

  unfoldable pub refill_bin : ℕ → Bins → Bool × Bins
  refill_bin idx s =
      let bsz = size_at bin_sizes idx in
      let (page, pages') = P.page_alloc_pages s.pages 1 page_size in
      let s1 = record s { pages = pages' } in
      if page == 0 then (false, s1) else (true, push_chunks idx page bsz 0 (page_size / bsz) s1)

  unfoldable pub bin_alloc_init : Bins → Bins
  bin_alloc_init s = record s { heads = λ i. 0 }

  unfoldable pub kmalloc : ℕ → ℕ → Bins → ℕ × Bins
  kmalloc n align s = if n == 0 then (0, s) else elim (bin_index_for (max_size n align)) [
    | some idx ↦
        let (ok, s1) = if s.heads idx == 0 then refill_bin idx s else (true, s) in
        if ok then pop_node idx s1 else (0, s1)
    | none ↦
        let pages = add64 n (page_size - 1) / page_size in
        let (p, t) =
          if ltb page_size align
          then P.page_alloc_pages s.pages pages align
          else P.page_alloc_bytes s.pages n in
        (p, record s { pages = t })
  ]

  unfoldable pub kfree : ℕ → ℕ → Bins → Bins
  kfree p n s =
      if p == 0
      then s
      else (if n == 0 then s else elim (bin_index_for n) [
        | some idx ↦ push_node idx p s
        | none ↦ record s { pages = P.page_free_bytes s.pages p n }
      ])
