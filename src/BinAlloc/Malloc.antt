-- ===== src/BinAlloc/Malloc.antt =====
-- `kmalloc` and `kfree` on requests that a bin serves, as operations on lists of addresses.
use chypervisor.Prelude.{
  ◌≤◌, ℕ, ◌+◌, ◌/◌, ◌≡◌, ◌≢◌, refl, arith, ap, ◌∙◌, true, false, Bool-cases, inl, inr,
}
use chypervisor.Prelude.{List, [], ◌∷◌, some, if◌then◌else◌, ◌==◌, ==→eq, ==→ne, ◌<◌, ◌*◌}
use mathlib.Core.Path.{subst}
use native.Mathlib.Nat.{div-mul-le_self}
use chypervisor.BinAlloc.{
  Pages, Bins, pop_node, refill_bin, kmalloc, kfree, bin_index_for, max_size, page_size,
}
use chypervisor.BinAlloc.{size_at, bin_sizes, push_chunks}
use chypervisor.BinAlloc.Class.{IsFirst, bin_index_for-IsFirst}
use chypervisor.BinAlloc.Chain.{
  Chain, Apart, with_bin, Represents, push_node-Represents, pop_node-Represents,
}
use chypervisor.BinAlloc.Chain.{
  chunks, push_chunks-Represents, narrow-Apart, with_bin-same, with_bin-twice,
}

-- The list that `kmalloc` takes from: the bin's own, or that of a new page if the bin is empty.
abbrev pub stock : ℕ → ℕ → List ℕ → List ℕ
stock page bsz (x ∷ xs) = x ∷ xs
stock page bsz [] = if page == 0 then [] else chunks page bsz 0 (page_size / bsz) []

abbrev pub first_of : List ℕ → ℕ
first_of [] = 0
first_of (x ∷ xs) = x

abbrev pub rest_of : List ℕ → List ℕ
rest_of [] = []
rest_of (x ∷ xs) = xs

with_bin_self : (idx : ℕ) (bins : ℕ → List ℕ) (j : ℕ) → with_bin idx (bins idx) bins j ≡ bins j
with_bin_self idx bins j = elim (Bool-cases (j == idx)) [
  | inl e ↦ rw (e, ==→eq j idx e) refl
  | inr e ↦ rw e refl
]

module _ (P : Pages) where
  -- The bin is empty only if its head is null.
  head_of : (next : ℕ → ℕ) (h x : ℕ) (xs : List ℕ) → Chain next h (x ∷ xs) → (h == 0) ≡ false
  head_of next h x xs (e, ne, c) = ground (arith, e, ne)

  abbrev pub new_page : Bins P → ℕ
  new_page s = (P.page_alloc_pages s.pages 1 page_size).0

  -- The steps of `kmalloc` once the bin is known.
  kmalloc-class :
      (n align idx : ℕ) (s : Bins P)
      → n ≢ 0
      → bin_index_for (max_size n align) ≡ some idx
      → kmalloc P n align s ≡ (
          let r = if s.heads idx == 0 then refill_bin P idx s else (true, s) in
          if r.0 then pop_node P idx r.1 else (0, r.1))
  unfolding kmalloc
  kmalloc-class n align idx s ne e =
      let some_bytes : (n == 0) ≡ false = ground (arith, ne) in rw (some_bytes, e) refl

  keep-Represents :
      (idx : ℕ) (l : List ℕ) (s : Bins P) (bins : ℕ → List ℕ)
      → bins idx ≡ l
      → Represents P s bins
      → Represents P s (with_bin idx l bins)
  keep-Represents idx l s bins e r j = elim (Bool-cases (j == idx)) [
    | inl same ↦ rw (same, ==→eq j idx same) (subst (λ x. Chain s.next (s.heads idx) x) e (r idx))
    | inr other ↦ rw other (r j)
  ]

  pop-first :
      (idx : ℕ) (l : List ℕ) (s : Bins P) (bins : ℕ → List ℕ)
      → bins idx ≡ l
      → Represents P s bins
      → ((pop_node P idx s).0 ≡ first_of l)
        × Represents P (pop_node P idx s).1 (with_bin idx (rest_of l) bins)
  unfolding pop_node
  pop-first idx (x ∷ xs) s bins e r = pop_node-Represents P idx x xs s bins e r
  pop-first idx [] s bins e r =
      let null : s.heads idx ≡ 0 = subst (λ l. Chain s.next (s.heads idx) l) e (r idx) in
      let test : (s.heads idx == 0) ≡ true = ground (arith, null) in
      rw test (refl, keep-Represents idx [] s bins e r)

  pushed_pop :
      (idx : ℕ) (s : Bins P) (bins : ℕ → List ℕ)
      → bins idx ≡ []
      → 0 < size_at bin_sizes idx
      → new_page s ≢ 0
      → ((j : ℕ) → Apart (new_page s) (new_page s + page_size) (bins j))
      → Represents P s bins
      → let bsz = size_at bin_sizes idx in
        let got : Bins P = record s { pages = (P.page_alloc_pages s.pages 1 page_size).1 } in
        let t = push_chunks P idx (new_page s) bsz 0 (page_size / bsz) got in
        let st = chunks (new_page s) bsz 0 (page_size / bsz) [] in
        ((pop_node P idx t).0 ≡ first_of st)
        × Represents P (pop_node P idx t).1 (with_bin idx (rest_of st) bins)
  pushed_pop idx s bins e pos ne apart r =
      let page = new_page s in
      let bsz = size_at bin_sizes idx in
      let cnt = page_size / bsz in
      let got : Bins P = record s { pages = (P.page_alloc_pages s.pages 1 page_size).1 } in
      let t = push_chunks P idx page bsz 0 cnt got in
      let l = chunks page bsz 0 cnt (bins idx) in
      let st = chunks page bsz 0 cnt [] in
      let pushed =
        push_chunks-Represents P idx page bsz 0 cnt (page + page_size) got bins ne pos
          (omega (arith, div-mul-le_self page_size bsz))
          (λ j.
            narrow-Apart page (page + page_size) (page + 0 * bsz) (page + page_size) (bins j)
              (omega arith) (omega arith) (apart j))
          r in
      let eq : with_bin idx l bins idx ≡ st =
        with_bin-same idx l bins ∙ ap (λ x. chunks page bsz 0 cnt x) e in
      let (taken, left) = pop-first idx st t (with_bin idx l bins) eq pushed in
      let u = (pop_node P idx t).1 in
      (
        taken,
        λ j.
            subst (λ x. Chain u.next (u.heads j) x) (with_bin-twice idx l (rest_of st) bins j)
              (left j),
      )

  -- An empty bin: `refill_bin`, and a `pop_node` if it got a page.
  refilled-Represents :
      (idx : ℕ) (s : Bins P) (bins : ℕ → List ℕ)
      → bins idx ≡ []
      → 0 < size_at bin_sizes idx
      → ((j : ℕ) → Apart (new_page s) (new_page s + page_size) (bins j))
      → Represents P s bins
      → let r = refill_bin P idx s in
        let taken = if r.0 then pop_node P idx r.1 else (0, r.1) in
        let st = stock (new_page s) (size_at bin_sizes idx) [] in
        (taken.0 ≡ first_of st) × Represents P taken.1 (with_bin idx (rest_of st) bins)
  unfolding refill_bin
  refilled-Represents idx s bins e pos apart r = elim (Bool-cases (new_page s == 0)) [
    | inl none_left ↦ rw none_left (refl, keep-Represents idx [] s bins e r)
    | inr got ↦ rw got (pushed_pop idx s bins e pos (==→ne (new_page s) 0 got) apart r)
  ]

  -- The steps after the bin is known, for the bin's list `l`.
  take-Represents :
      (idx : ℕ) (l : List ℕ) (s : Bins P) (bins : ℕ → List ℕ)
      → bins idx ≡ l
      → 0 < size_at bin_sizes idx
      → ((j : ℕ) → Apart (new_page s) (new_page s + page_size) (bins j))
      → Represents P s bins
      → let r = if s.heads idx == 0 then refill_bin P idx s else (true, s) in
        let taken = if r.0 then pop_node P idx r.1 else (0, r.1) in
        let st = stock (new_page s) (size_at bin_sizes idx) l in
        (taken.0 ≡ first_of st) × Represents P taken.1 (with_bin idx (rest_of st) bins)
  take-Represents idx (x ∷ xs) s bins e pos apart r =
      let chain = subst (λ l. Chain s.next (s.heads idx) l) e (r idx) in
      rw (head_of s.next (s.heads idx) x xs chain) (pop_node-Represents P idx x xs s bins e r)
  take-Represents idx [] s bins e pos apart r =
      let null : s.heads idx ≡ 0 = subst (λ l. Chain s.next (s.heads idx) l) e (r idx) in
      let test : (s.heads idx == 0) ≡ true = ground (arith, null) in
      rw test (refilled-Represents idx s bins e pos apart r)

  -- A request of at least one byte that a bin serves takes the first chunk of the bin's list, or of
  -- the chunks of a new page if the list is empty, and leaves the rest; if there is neither, it gives
  -- a null pointer and leaves the lists. The other bins keep theirs. The address that the page
  -- allocator would give must not overlap a free chunk.
  pub kmalloc-Represents :
      (n align idx : ℕ) (s : Bins P) (bins : ℕ → List ℕ)
      → n ≢ 0
      → bin_index_for (max_size n align) ≡ some idx
      → ((j : ℕ) → Apart (new_page s) (new_page s + page_size) (bins j))
      → Represents P s bins
      → let st = stock (new_page s) (size_at bin_sizes idx) (bins idx) in
        ((kmalloc P n align s).0 ≡ first_of st)
        × Represents P (kmalloc P n align s).1 (with_bin idx (rest_of st) bins)
  kmalloc-Represents n align idx s bins ne e apart r =
      let need = max_size n align in
      let first = subst (λ k. IsFirst bin_sizes need k) e (bin_index_for-IsFirst need) in
      let enough : n ≤ need = ground arith in
      let pos : 0 < size_at bin_sizes idx = omega (arith, first.1, enough, ne) in
      rw (kmalloc-class n align idx s ne e) (take-Represents idx (bins idx) s bins refl pos apart r)

  -- Freeing a chunk with a size that a bin serves puts it first on that bin's list and leaves the other
  -- bins, for a non-null address that no bin holds.
  kfree-Represents :
      (p n idx : ℕ) (s : Bins P) (bins : ℕ → List ℕ)
      → p ≢ 0
      → n ≢ 0
      → bin_index_for n ≡ some idx
      → ((j : ℕ) → Apart p (p + 1) (bins j))
      → Represents P s bins
      → Represents P (kfree P p n s) (with_bin idx (p ∷ bins idx) bins)
  unfolding kfree
  kfree-Represents p n idx s bins hp hn e apart r =
      let some_address : (p == 0) ≡ false = ground (arith, hp) in
      let some_bytes : (n == 0) ≡ false = ground (arith, hn) in
      rw (some_address, some_bytes, e) (push_node-Represents P idx p s bins hp apart r)

  -- When a non-null chunk that no bin holds is freed with a size that a bin serves, the next request
  -- that the same bin serves gets that chunk back, and leaves the bins as they were before it was
  -- freed.
  pub kmalloc-kfree :
      (p n n' align idx : ℕ) (s : Bins P) (bins : ℕ → List ℕ)
      → p ≢ 0
      → n ≢ 0
      → n' ≢ 0
      → bin_index_for n ≡ some idx
      → bin_index_for (max_size n' align) ≡ some idx
      → ((j : ℕ) → Apart p (p + 1) (bins j))
      → Represents P s bins
      → ((kmalloc P n' align (kfree P p n s)).0 ≡ p)
        × Represents P (kmalloc P n' align (kfree P p n s)).1 bins
  kmalloc-kfree p n n' align idx s bins hp hn hn' e e' apart r =
      let freed = kfree-Represents p n idx s bins hp hn e apart r in
      let t = kfree P p n s in
      let chain : Chain t.next (t.heads idx) (p ∷ bins idx) =
        subst (λ x. Chain t.next (t.heads idx) x) (with_bin-same idx (p ∷ bins idx) bins)
          (freed idx) in
      let (taken, left) =
        pop-first idx (p ∷ bins idx) t (with_bin idx (p ∷ bins idx) bins)
          (with_bin-same idx (p ∷ bins idx) bins) freed in
      let u = (pop_node P idx t).1 in
      rw (kmalloc-class n' align idx t hn' e', head_of t.next (t.heads idx) p (bins idx) chain)
        (
          taken,
          λ j.
              subst (λ x. Chain u.next (u.heads j) x)
                (with_bin-twice idx (p ∷ bins idx) (bins idx) bins j ∙ with_bin_self idx bins j)
                (left j),
        )
