-- ===== src/BinAlloc/Tests.antt =====
-- Runs of bin_alloc.c over a page allocator that hands out one page.
use chypervisor.Prelude.{ℕ, ◌≡◌, refl, arith, List, [], ◌∷◌}
use chypervisor.BinAlloc.{Pages, Bins, kmalloc, kfree, index_from}
use chypervisor.BinAlloc.Chain.{Represents, with_bin}
use chypervisor.BinAlloc.Malloc.{kmalloc-Represents, kmalloc-kfree}

abbrev one_page : Pages
one_page = record {
  State = ℕ;
  page_alloc_pages = λ s n align. (s, 0);
  page_alloc_bytes = λ s n. (s, 0);
  page_free_bytes = λ s p n. p;
}

abbrev empty_bins : Bins one_page
empty_bins = record { heads = λ i. 0; next = λ a. 0; pages = 0x10000 }

abbrev no_chunks : ℕ → List ℕ
no_chunks i = []

empty-Represents : Represents one_page empty_bins no_chunks
empty-Represents i = refl

kmalloc-Represents_example :
    ((kmalloc one_page 0x700 8 empty_bins).0 ≡ 0x10800)
    × Represents one_page
        (kmalloc one_page 0x700 8 empty_bins).1
        (with_bin 6 (0x10000 ∷ []) no_chunks)
unfolding index_from
kmalloc-Represents_example =
    kmalloc-Represents one_page 0x700 8 6 empty_bins no_chunks (omega arith) refl (λ j. tt)
      empty-Represents

kmalloc-kfree_example :
    ((kmalloc one_page 0x500 0 (kfree one_page 0x10800 0x700 empty_bins)).0 ≡ 0x10800)
    × Represents one_page
        (kmalloc one_page 0x500 0 (kfree one_page 0x10800 0x700 empty_bins)).1
        no_chunks
unfolding index_from
kmalloc-kfree_example =
    kmalloc-kfree one_page 0x10800 0x700 0x500 0 6 empty_bins no_chunks (omega arith) (omega arith)
      (omega arith) refl refl (λ j. tt) empty-Represents
