-- ===== src/Paging/Clone.antt =====
-- The clone of a table of the old tables: its walks are those of the original, from new pages.
use chypervisor.Prelude.{ℕ, ◌≡◌, ◌≢◌, Bool, true, false, refl, sym, ap, ◌∙◌, arith}
use chypervisor.Prelude.{
  none, Bool-cases, inl, inr, if◌then◌else◌, ◌==◌, bit_and, ==→eq, ==→ne, ==-refl,
}
use mathlib.Core.Path.{subst}
use chypervisor.Paging.{virt2phys, phys2virt}
use chypervisor.Paging.Table.{Memory, walk_from, walk_step, refers, Tables, is_present, pt_from_pte}
use chypervisor.Paging.Table.{pte_addr_mask, index_at, page_at}
use chypervisor.Paging.Entry.{link, link-address}
use chypervisor.Paging.Walk.{walk_step-cong, walk_step-link, Agrees, Tables-agree, walk_from-agree}
use chypervisor.Paging.Reconstruct.{Pages, Machine, alloc_pt_zeroed, set_table, clone_lv1}

-- What the page allocator promises, over the pages that are in use in a state: a page that it hands out
-- was not in use and is in use from then on, the others stay in use, and the page's physical address can
-- stand in an entry and leads back to it.
pub record Laws (P : Pages) (r : Bool) (Owned : P.State → ℕ → Type 0) : Type 0 where
  pub keeps : (s : P.State) (q : ℕ) → Owned s q → Owned (P.page_alloc_4k_aligned s).1 q
  pub fresh :
      (s : P.State) → (P.page_alloc_4k_aligned s).0 ≢ 0 → ¬ Owned s (P.page_alloc_4k_aligned s).0
  pub owns :
      (s : P.State)
      → (P.page_alloc_4k_aligned s).0 ≢ 0
      → Owned (P.page_alloc_4k_aligned s).1 (P.page_alloc_4k_aligned s).0
  pub links :
      (s : P.State)
      → (P.page_alloc_4k_aligned s).0 ≢ 0
      → phys2virt r (bit_and (virt2phys r (P.page_alloc_4k_aligned s).0) pte_addr_mask)
        ≡ (P.page_alloc_4k_aligned s).0

module _ {P : Pages} {r : Bool} {Owned : P.State → ℕ → Type 0} (laws : Laws P r Owned) where
  abbrev pub In : Machine P → ℕ → Type 0
  In s q = Owned s.pages q

  -- In use in `t`, and not yet in `s`.
  abbrev pub Fresh : Machine P → Machine P → ℕ → Type 0
  Fresh s t q = In t q × ¬ In s q

  -- The pages in use stay in use and keep their entries.
  abbrev pub Extends : Machine P → Machine P → Type 0
  Extends s t =
      (t.reconstructed ≡ s.reconstructed) × (t.cr3 ≡ s.cr3) × Agrees r (In s) (In t) s.mem t.mem

  abbrev pub IsLinked : ℕ → Type 0
  IsLinked p = phys2virt r (bit_and (virt2phys r p) pte_addr_mask) ≡ p

  pub Extends-refl : (s : Machine P) → Extends s s
  Extends-refl s = (refl, refl, λ q o. (o, λ j. refl))

  pub Extends-trans : (s t u : Machine P) → Extends s t → Extends t u → Extends s u
  Extends-trans s t u (e, c, h) (e', c', h') =
      (e' ∙ e, c' ∙ c, λ q o. ((h' q (h q o).0).0, λ j. (h' q (h q o).0).1 j ∙ (h q o).1 j))

  pub other_page : (s : Machine P) (p q : ℕ) → ¬ In s p → In s q → (q == p) ≡ false
  other_page s p q new o = elim (Bool-cases (q == p)) [
    | inl e ↦ absurd (new (subst (In s) (==→eq q p e) o))
    | inr e ↦ e
  ]

  -- A write to a page that was not in use.
  pub write-Extends :
      (s t : Machine P) (p : ℕ) (mem : Memory)
      → Extends s t
      → ¬ In s p
      → ((q : ℕ) → (q == p) ≡ false → (j : ℕ) → mem q j ≡ t.mem q j)
      → Extends s (record t { mem = mem })
  write-Extends s t p mem (e, c, h) new others =
      (e, c, λ q o. ((h q o).0, λ j. others q (other_page s p q new o) j ∙ (h q o).1 j))

  pub alloc_pt_zeroed-Fresh :
      (s : Machine P)
      → let (p, t) = alloc_pt_zeroed P s in
        Extends s t × (p ≢ 0 → Fresh s t p × IsLinked p × ((j : ℕ) → t.mem p j ≡ 0))
  unfolding alloc_pt_zeroed
  alloc_pt_zeroed-Fresh s =
      let p = (P.page_alloc_4k_aligned s.pages).0 in
      elim (Bool-cases (p == 0)) [
        | inl e ↦
            rw e ((refl, refl, λ q o. (laws.keeps s.pages q o, λ j. refl)), λ ne. absurd (ne refl))
        | inr e ↦
            let given = ==→ne p 0 e in
            rw e (
              write-Extends s (record s { pages = (P.page_alloc_4k_aligned s.pages).1 }) p
                  (set_table p (λ j. 0) s.mem)
                  (refl, refl, λ q o. (laws.keeps s.pages q o, λ j. refl))
                  (laws.fresh s.pages given) (λ q other j. rw other refl),
              λ ne. (
                (laws.owns s.pages given, laws.fresh s.pages given),
                laws.links s.pages given,
                λ j. rw (==-refl p) refl,
              ),
            )
      ]

  -- Two entries of tables above `level` lead to the same, and the first one's tables are all in a set.
  abbrev pub Twin : (ℕ → Type 0) → ℕ → Memory → ℕ → Memory → ℕ → Type 0
  Twin O level mem pte mem0 pte0 =
      ((va : ℕ)
        → walk_step level pte (walk_from r mem level (pt_from_pte r pte) va) va
          ≡ walk_step level pte0 (walk_from r mem0 level (pt_from_pte r pte0) va) va)
      × (refers level pte ≡ true → Tables r O mem level (pt_from_pte r pte))

  pub Twin-agree :
      (O O' : ℕ → Type 0) (level : ℕ) (mem mem' : Memory) (pte : ℕ) (mem0 : Memory) (pte0 : ℕ)
      → Agrees r O O' mem mem'
      → Twin O level mem pte mem0 pte0
      → Twin O' level mem' pte mem0 pte0
  Twin-agree O O' level mem mem' pte mem0 pte0 h (same, tables) = (
    λ va.
        walk_step-cong level pte _ _ va
          (λ ref. walk_from-agree r O O' mem mem' level (pt_from_pte r pte) va h (tables ref))
        ∙ same va,
    λ ref. Tables-agree r O O' mem mem' level (pt_from_pte r pte) h (tables ref),
  )

  -- An entry that refers to no table leads to the same in every memory.
  pub Twin-leaf :
      (O : ℕ → Type 0) (level : ℕ) (mem mem0 : Memory) (pte : ℕ)
      → refers level pte ≡ false
      → Twin O level mem pte mem0 pte
  Twin-leaf O level mem mem0 pte no_table = (
    λ va. walk_step-cong level pte _ _ va (λ ref. absurd (ground (arith, sym no_table ∙ ref))),
    λ ref. absurd (ground (arith, sym no_table ∙ ref)),
  )

  pub Twin-absent :
      (O : ℕ → Type 0) (level : ℕ) (mem mem0 : Memory) (pte pte0 : ℕ)
      → is_present pte ≡ false
      → is_present pte0 ≡ false
      → Twin O level mem pte mem0 pte0
  Twin-absent O level mem mem0 pte pte0 a b = (
    λ va. rw (a, b) refl,
    λ ref.
        let no_table : refers level pte ≡ false = rw a refl in
        absurd (ground (arith, sym no_table ∙ ref)),
  )

  -- An entry with the flags of `pte0` that points to a table with the walks of its table.
  pub Twin-link :
      (O : ℕ → Type 0) (level : ℕ) (mem : Memory) (c : ℕ) (mem0 : Memory) (pte0 : ℕ)
      → refers level pte0 ≡ true
      → IsLinked c
      → Tables r O mem level c
      → ((va : ℕ) → walk_from r mem level c va ≡ walk_from r mem0 level (pt_from_pte r pte0) va)
      → Twin O level mem (link (virt2phys r c) pte0) mem0 pte0
  Twin-link O level mem c mem0 pte0 ref linked tables same =
      let child : pt_from_pte r (link (virt2phys r c) pte0) ≡ c =
        ap (phys2virt r) (link-address (virt2phys r c) pte0) ∙ linked in
      (
        λ va.
            ap (λ p. walk_step level (link (virt2phys r c) pte0) (walk_from r mem level p va) va)
              child
            ∙ walk_step-link level (virt2phys r c) pte0 _ va ref
            ∙ ap (λ t. walk_step level pte0 t va) (same va),
        λ ref'. subst (λ p. Tables r O mem level p) (sym child) tables,
      )

  -- A function that clones the tables of a level into new pages, or gives up with null.
  abbrev pub IsCloneOf : ℕ → ℕ → Machine P → ℕ × Machine P → Type 0
  IsCloneOf level old s (new, t) =
      Extends s t
      × (new ≢ 0
          → Tables r (Fresh s t) t.mem level new
            × IsLinked new
            × ((va : ℕ) → walk_from r t.mem level new va ≡ walk_from r s.mem level old va))

  abbrev pub IsClone : ℕ → (ℕ → Machine P → ℕ × Machine P) → Type 0
  IsClone level clone =
      (old : ℕ) (s : Machine P)
      → s.reconstructed ≡ r
      → Tables r (In s) s.mem level old
      → IsCloneOf level old s (clone old s)

  pub clone_lv1-IsClone : IsClone 0 (clone_lv1 P)
  unfolding clone_lv1
  clone_lv1-IsClone old s rec o =
      let (p, t) = alloc_pt_zeroed P s in
      let (ext, given) = alloc_pt_zeroed-Fresh s in
      elim (Bool-cases (p == 0)) [
        | inl e ↦ rw e (ext, λ ne. absurd (ne refl))
        | inr e ↦
            let (owned, linked, zeros) = given (==→ne p 0 e) in
            rw e (
              write-Extends s t p (set_table p (t.mem old) t.mem) ext owned.1
                  (λ q other j. rw other refl),
              λ ne. (
                owned,
                linked,
                λ va.
                    let same : set_table p (t.mem old) t.mem p (index_at 0 va)
                        ≡ s.mem old (index_at 0 va) =
                      rw (==-refl p) ((ext.2 old o).1 (index_at 0 va)) in
                    ap (λ pte. if is_present pte then page_at 12 pte va else none) same,
              ),
            )
      ]
