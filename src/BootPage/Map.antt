-- ===== src/BootPage/Map.antt =====
-- The whole way down of `page_map4k_to` (arch_x86_page.c).
use chypervisor.Prelude.{ℕ, suc, ◌<◌, ◌%◌, ◌^◌, ◌≡◌, ◌≢◌, refl, sym, ap, ◌∙◌, arith}
use chypervisor.Prelude.{
  true, false, Option, ◌==◌, ==-refl, ==→eq, if◌then◌else◌, if_all, inl, inr, Bool-cases,
}
use chypervisor.Prelude.{Option-cases, bit_and, not, ◌||◌, ◌&&◌}
use mathlib.Core.Path.{subst}
use chypervisor.BootPage.{
  BootServices, Loader, PageAttr, EfiStatus, efi_success, efi_error, efi_already_started,
}
use chypervisor.BootPage.{
  efi_invalid_parameter, is_success, get_table, idx, alloc_new_table, new_table, with_table,
  map_entry,
}
use chypervisor.BootPage.{page_entry, page_map4k_to, page_mask_4k, put}
use chypervisor.Prelude.Bits.{bit_and_mask}
use chypervisor.BootPage.Walk.{IsMapped, IsReached, IsReached-IsMapped}
use chypervisor.BootPage.Levels.{Laws, IsLevelled, IsStep, target, stay, after, grown, grow}

module _ (B : BootServices) where
  abbrev pub Ends : ℕ → ℕ → PageAttr → EfiStatus × Loader B → Type 0
  Ends va phys attr (status, t) = is_success status ≡ true → IsReached B va phys attr t

module _ {B : BootServices} {Used : B.State → ℕ → Type 0} (laws : Laws B Used) where
  with_table-IsStep :
      (C : EfiStatus × Loader B → Type 0) (next : ℕ → Loader B → EfiStatus × Loader B) (lvl : ℕ → ℕ)
      (p i n : ℕ) (s : Loader B)
      → IsLevelled laws lvl s
      → lvl p ≡ suc n
      → n < 3
      → ((t : Loader B) → C (efi_error, t))
      → ((lvl' : ℕ → ℕ) (t : Loader B)
          → IsStep laws lvl lvl' p i n s t
          → C (next (target (t.mem p i)) t))
      → C (with_table B p i next s)
  unfolding alloc_new_table
  with_table-IsStep C next lvl p i n s levels at low fails goes =
      if_all
        (λ (r : EfiStatus × Loader B).
          C (if is_success r.0 then next (target (r.1.mem p i)) r.1 else (r.0, r.1)))
        ((s.mem p i).present == 0) (alloc_new_table B p i s) (efi_success, s)
        (λ free.
          let D : Option ℕ → Type 0 = λ o.
            let r = new_table B o p i (record s { services = (B.allocate_page s.services).1 }) in
            C (if is_success r.0 then next (target (r.1.mem p i)) r.1 else (r.0, r.1)) in
          elim (Option-cases (B.allocate_page s.services).0) [
            | inl e ↦
                subst D (sym e) (fails (record s { services = (B.allocate_page s.services).1 }))
            | inr (q, e) ↦ subst D (sym e) (
                goes (grown laws lvl p i n s levels at low q e)
                  (after laws lvl p i n s levels at low q e)
                  (grow laws lvl p i n s levels at low q e))
          ])
        (λ here. goes lvl s (stay laws lvl p i n s levels at low here))

  differ : (lvl : ℕ → ℕ) (p q a b : ℕ) → lvl p ≡ a → lvl q ≡ b → a ≢ b → (p == q) ≡ false
  differ lvl p q a b h k ne = elim (Bool-cases (p == q)) [
    | inl e ↦ absurd (ne (sym h ∙ ap lvl (==→eq p q e) ∙ k))
    | inr e ↦ e
  ]

  module _ (virt phys : ℕ) (attr : PageAttr) (lvl : ℕ → ℕ) (s : Loader B)
      (levels : IsLevelled laws lvl s) (top : lvl (get_table s.cr3) ≡ 3) where
    -- The three levels of the way down, and the entry that is written at its end.
    module _ (lvl1 lvl2 lvl3 : ℕ → ℕ) (s1 s2 s3 : Loader B)
        (d1 : IsStep laws lvl lvl1 (get_table s.cr3) (idx 39 virt) 2 s s1)
        (d2 : IsStep laws lvl1 lvl2
          (target (s1.mem (get_table s.cr3) (idx 39 virt)))
          (idx 30 virt)
          1
          s1
          s2)
        (d3 : IsStep laws lvl2 lvl3
          (target (s2.mem (target (s1.mem (get_table s.cr3) (idx 39 virt))) (idx 30 virt)))
          (idx 21 virt)
          0
          s2
          s3) where
      abbrev p4 : ℕ
      p4 = get_table s.cr3

      abbrev p3 : ℕ
      p3 = target (s1.mem p4 (idx 39 virt))

      abbrev p2 : ℕ
      p2 = target (s2.mem p3 (idx 30 virt))

      abbrev p1 : ℕ
      p1 = target (s3.mem p2 (idx 21 virt))

      top1 : lvl1 p4 ≡ 3
      top1 = d1.older p4 (omega (arith, top)) ∙ top

      top2 : lvl2 p4 ≡ 3
      top2 = d2.older p4 (omega (arith, top1)) ∙ top1

      top3 : lvl3 p4 ≡ 3
      top3 = d3.older p4 (omega (arith, top2)) ∙ top2

      mid2 : lvl2 p3 ≡ 2
      mid2 = d2.older p3 (omega (arith, d1.lower)) ∙ d1.lower

      mid3 : lvl3 p3 ≡ 2
      mid3 = d3.older p3 (omega (arith, mid2)) ∙ mid2

      low3 : lvl3 p2 ≡ 1
      low3 = d3.older p2 (omega (arith, d2.lower)) ∙ d2.lower

      abbrev written : Loader B
      written = put B p1 (idx 12 virt) (page_entry B phys attr) s3

      elsewhere : (q j : ℕ) → (q == p1) ≡ false → written.mem q j ≡ s3.mem q j
      elsewhere q j e = rw e refl

      path_end : Ends B virt phys attr (map_entry B phys attr (idx 12 virt) p1 s3)
      path_end =
          let same_root : written.cr3 ≡ s.cr3 = d3.root ∙ d2.root ∙ d1.root in
          let at4 : written.mem p4 (idx 39 virt) ≡ s1.mem p4 (idx 39 virt) =
            elsewhere p4 (idx 39 virt) (differ lvl3 p4 p1 3 0 top3 d3.lower (omega arith))
            ∙ d3.kept p4 (idx 39 virt) (omega (arith, top2))
                (differ lvl2 p4 p2 3 1 top2 d2.lower (omega arith))
            ∙ d2.kept p4 (idx 39 virt) (omega (arith, top1))
                (differ lvl1 p4 p3 3 2 top1 d1.lower (omega arith)) in
          let at3 : written.mem p3 (idx 30 virt) ≡ s2.mem p3 (idx 30 virt) =
            elsewhere p3 (idx 30 virt) (differ lvl3 p3 p1 2 0 mid3 d3.lower (omega arith))
            ∙ d3.kept p3 (idx 30 virt) (omega (arith, mid2))
                (differ lvl2 p3 p2 2 1 mid2 d2.lower (omega arith)) in
          let at2 =
            elsewhere p2 (idx 21 virt) (differ lvl3 p2 p1 1 0 low3 d3.lower (omega arith)) in
          if_all (Ends B virt phys attr)
            (not ((s3.mem p1 (idx 12 virt)).present == 0)
              && not ((s3.mem p1 (idx 12 virt)).ps == 0))
            (efi_already_started, s3) (efi_success, written) (λ e h. absurd (ground (arith, h)))
            (λ e h. record {
              e4 = s1.mem p4 (idx 39 virt);
              e3 = s2.mem p3 (idx 30 virt);
              e2 = s3.mem p2 (idx 21 virt);
              at4 = ap (λ c. written.mem (get_table c) (idx 39 virt)) same_root ∙ at4;
              at3 = at3;
              at2 = at2;
              at1 = rw (==-refl p1, ==-refl (idx 12 virt)) refl;
              present4 = d1.present;
              table3 = (d2.present, d2.small);
              table2 = (d3.present, d3.small);
            })

    page_map4k_to-Ends : Ends B virt phys attr (page_map4k_to B virt phys attr s)
    unfolding page_map4k_to
    page_map4k_to-Ends =
        let failed : (t : Loader B) → Ends B virt phys attr (efi_error, t) =
          λ t h. absurd (ground (arith, h)) in
        let leaf = map_entry B phys attr (idx 12 virt) in
        let from2 : ℕ → Loader B → EfiStatus × Loader B =
          λ lv2. with_table B lv2 (idx 21 virt) leaf in
        let from3 : ℕ → Loader B → EfiStatus × Loader B =
          λ lv3. with_table B lv3 (idx 30 virt) from2 in
        if_all (Ends B virt phys attr)
          (not (bit_and virt page_mask_4k == 0) || not (bit_and phys page_mask_4k == 0))
          (efi_invalid_parameter, s) (with_table B (get_table s.cr3) (idx 39 virt) from3 s)
          (λ e h. absurd (ground (arith, h)))
          (λ e.
            with_table-IsStep (Ends B virt phys attr) from3 lvl (get_table s.cr3) (idx 39 virt) 2 s
              levels top (omega arith) failed
              (λ lvl1 s1 d1.
                with_table-IsStep (Ends B virt phys attr) from2 lvl1
                  (target (s1.mem (get_table s.cr3) (idx 39 virt))) (idx 30 virt) 1 s1 d1.levelled
                  d1.lower (omega arith) failed
                  (λ lvl2 s2 d2.
                    with_table-IsStep (Ends B virt phys attr) leaf lvl2
                      (target
                        (s2.mem (target (s1.mem (get_table s.cr3) (idx 39 virt))) (idx 30 virt)))
                      (idx 21 virt) 0 s2 d2.levelled d2.lower (omega arith) failed
                      (λ lvl3 s3 d3. path_end lvl1 lvl2 lvl3 s1 s2 s3 d1 d2 d3))))

    success-aligned : is_success (page_map4k_to B virt phys attr s).0 ≡ true → phys % 4096 ≡ 0
    unfolding page_map4k_to
    success-aligned ok = elim (Bool-cases (bit_and phys page_mask_4k == 0)) [
      | inl e ↦ sym (bit_and_mask 12 phys) ∙ ==→eq _ 0 e
      | inr e ↦ absurd (ground (arith, e, ok))
    ]

    -- From tables of four levels that refer only to tables of the level below, without large pages, and
    -- with boot services that hand out unused aligned pages, for a physical address below 2^63: a success
    -- of `page_map4k_to` means that the processor's walk from CR3, by nine bits of the address at each of
    -- the four levels, ends at an entry that is present, for a supervisor page, holds the physical address,
    -- and has R/W and NX as the attribute says, whichever of the tables on the way the code had to add.
    pub page_map4k_to-IsMapped :
        phys < 2 ^ 63
        → is_success (page_map4k_to B virt phys attr s).0 ≡ true
        → IsMapped B virt phys attr (page_map4k_to B virt phys attr s).1
    page_map4k_to-IsMapped small ok =
        IsReached-IsMapped B virt phys attr (page_map4k_to B virt phys attr s).1
          (success-aligned ok) small (page_map4k_to-Ends ok)
