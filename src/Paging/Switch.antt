-- ===== src/Paging/Switch.antt =====
-- `paging_reconstruct` (paging.c): the address space that the new tables give.
use chypervisor.Prelude.{ℕ, ◌%◌, ◌^◌, ◌<◌, ◌≡◌, Bool, true, false, refl, ap, ◌∙◌}
use chypervisor.Prelude.{
  arith, ◌==◌, ==-refl, ==→eq, ==→ne, if_all, if◌then◌else◌, inl, inr, Bool-cases, bit_and, some,
  none,
}
use chypervisor.Prelude.{◌∷◌, [], ltb}
use chypervisor.Paging.{virt2phys, phys2virt}
use chypervisor.Paging.Table.{
  Translation, Tables, walk_from, index_at, pt_from_pte, pte_addr_mask, is_present,
}
use chypervisor.Paging.Reconstruct.{
  Pages, Machine, alloc_pt_zeroed, each_entry, direct_entry, direct_pte, direct_link,
}
use chypervisor.Paging.Reconstruct.{fill_1g, set_entry, upper_entry}
use chypervisor.Paging.Clone.{Laws, In, Fresh, Extends, IsLinked, Extends-trans, other_page}
use chypervisor.Paging.Clone.{alloc_pt_zeroed-Fresh}
use chypervisor.Paging.Loop.{Inv, Start, Start-Inv, each_entry-Inv}
use chypervisor.Paging.Upper.{upper_entry-Inv}
use chypervisor.Paging.Trees.{clone_lv3-IsClone}
use chypervisor.Paging.Direct.{link_target, fill_1g-other, fill_1g-at, direct_walk}

module _ {P : Pages} {r : Bool} {Owned : P.State → ℕ → Type 0} (laws : Laws P r Owned) where
  -- The state after the direct map: `lv4` points to its table `lv3` by entry 273, and has no other entry.
  pub record IsMapped (s : Machine P) (lv4 : ℕ) (u : Machine P) : Type 0 where
    pub before : Extends laws s u
    pub unused : Fresh laws s u lv4
    pub lv3 : ℕ
    pub lv3_linked : IsLinked laws lv3
    pub lv3_owned : In laws u lv3
    pub lv3_apart : (lv3 == lv4) ≡ false
    pub top : u.mem lv4 273 ≡ direct_link (virt2phys r lv3)
    pub others : (j : ℕ) → (j == 273) ≡ false → u.mem lv4 j ≡ 0
    pub table : (j : ℕ) → j < 512 → u.mem lv3 j ≡ direct_pte j

  pub direct_entry-IsMapped :
      (s s1 : Machine P) (lv4 : ℕ)
      → s.reconstructed ≡ r
      → Extends laws s s1
      → Fresh laws s s1 lv4
      → ((j : ℕ) → s1.mem lv4 j ≡ 0)
      → let (ok, u) = direct_entry P lv4 273 s1 in Extends laws s u × (ok ≡ true → IsMapped s lv4 u)
  direct_entry-IsMapped s s1 lv4 rec ext fresh zeros =
      let (lv3, t) = alloc_pt_zeroed P s1 in
      let (ext', given) = alloc_pt_zeroed-Fresh laws s1 in
      let both = Extends-trans laws s s1 t ext ext' in
      let filled = fill_1g lv3 0 512 t.mem in
      let mem' = set_entry lv4 273 (direct_link (virt2phys t.reconstructed lv3)) filled in
      let u : Machine P = record t { mem = mem' } in
      if_all (λ (x : Bool × Machine P). Extends laws s x.1 × (x.0 ≡ true → IsMapped s lv4 x.1))
        (lv3 == 0) (false, t) (true, u) (λ e. (both, λ h. absurd (ground (arith, h))))
        (λ e.
          let (owned, linked, empty) = given (==→ne lv3 0 e) in
          let apart : (lv4 == lv3) ≡ false = other_page laws s1 lv3 lv4 owned.1 fresh.0 in
          let apart' : (lv3 == lv4) ≡ false = ground (arith, apart) in
          let kept : (q : ℕ)
              → (q == lv3) ≡ false
              → (q == lv4) ≡ false
              → (j : ℕ) → mem' q j ≡ t.mem q j =
            λ q e3 e4 j. rw e4 (fill_1g-other lv3 0 512 t.mem q j e3) in
          let grown : Extends laws s u = (
            both.0,
            both.1,
            λ q o.
                let old_page = (both.2 q o) in
                (
                  old_page.0,
                  λ j.
                      kept q (other_page laws s1 lv3 q owned.1 (ext.2 q o).0)
                        (other_page laws s lv4 q fresh.1 o) j
                      ∙ old_page.1 j,
                ),
          ) in
          (
            grown,
            λ h. record {
              before = grown;
              unused = ((ext'.2 lv4 fresh.0).0, fresh.1);
              lv3 = lv3;
              lv3_linked = linked;
              lv3_owned = owned.0;
              lv3_apart = apart';
              top = rw (==-refl lv4) (ap (λ b. direct_link (virt2phys b lv3)) (both.0 ∙ rec));
              others = λ j ne.
                  rw (==-refl lv4, ne)
                    (fill_1g-other lv3 0 512 t.mem lv4 j apart
                      ∙ (ext'.2 lv4 fresh.0).1 j
                      ∙ zeros j);
              table = λ j below. rw apart' (fill_1g-at lv3 0 512 t.mem j (omega arith) below);
            },
          ))

  -- The table that CR3 selects.
  abbrev pub root_table : Machine P → ℕ
  root_table s = phys2virt r (bit_and s.cr3 pte_addr_mask)

  pub upper_loop :
      (s u : Machine P) (lv4 : ℕ)
      → s.reconstructed ≡ r
      → Tables r (In laws s) s.mem 3 (root_table s)
      → IsMapped s lv4 u
      → let (ok, v) = each_entry P (upper_entry P (root_table s) lv4) 274 238 u in
        Extends laws s v × (ok ≡ true → Inv laws 2 274 (root_table s) lv4 s u 512 v)
  upper_loop s u lv4 rec tables mapped =
      let start : Start laws 2 274 (root_table s) lv4 s u = record {
        known = rec;
        before = mapped.before;
        unused = mapped.unused;
        root_owned = tables.0;
        tables = tables.1;
      } in
      each_entry-Inv (Extends laws s) (Inv laws 2 274 (root_table s) lv4 s u)
        (upper_entry P (root_table s) lv4) 274 238 u
        (λ j v lo hi inv.
          upper_entry-Inv laws 274 (root_table s) lv4 s u (clone_lv3-IsClone laws) j v start lo
            (omega arith) inv (ap is_present (mapped.others j (ground arith))))
        mapped.before (Start-Inv laws 2 274 (root_table s) lv4 s u start)

  -- What the new tables say of an address.
  abbrev pub new_space : Machine P → ℕ → Translation
  new_space s va =
      let top = index_at 3 va in
      if top == 273
      then some (va % 2 ^ 39, 0x8000000000000123 ∷ 0x1A3 ∷ [])
      else (if ltb top 273 then none else walk_from r s.mem 3 (root_table s) va)

  pub new_walk :
      (s u v : Machine P) (lv4 va : ℕ)
      → IsMapped s lv4 u
      → Inv laws 2 274 (root_table s) lv4 s u 512 v
      → walk_from r v.mem 3 lv4 va ≡ new_space s va
  new_walk s u v lv4 va mapped inv =
      let i = index_at 3 va in
      let below : i < 512 = omega arith in
      elim (Bool-cases (i == 273)) [
        | inl e ↦
            let here : i ≡ 273 = ==→eq i 273 e in
            let top : v.mem lv4 i ≡ direct_link (virt2phys r mapped.lv3) =
              inv.rest i (inl (omega (arith, here))) ∙ ap (u.mem lv4) here ∙ mapped.top in
            let child : pt_from_pte r (direct_link (virt2phys r mapped.lv3)) ≡ mapped.lv3 =
              ap (phys2virt r) (link_target (virt2phys r mapped.lv3)) ∙ mapped.lv3_linked in
            rw e (
              direct_walk r v.mem lv4 mapped.lv3 (virt2phys r mapped.lv3) va top child (λ j lo.
                (inv.others mapped.lv3 (mapped.lv3_owned, mapped.lv3_apart)).1 j
                ∙ mapped.table j lo))
        | inr e ↦ elim (Bool-cases (ltb i 273)) [
          | inl low ↦
              let empty : v.mem lv4 i ≡ 0 =
                inv.rest i (inl (ground (arith, low))) ∙ mapped.others i e in
              rw (e, low, empty) refl
          | inr high ↦ rw (e, high) ((inv.done i (ground (arith, high, e)) below).0 va)
        ]
      ]
