-- ===== src/Paging/Upper.antt =====
-- `clone_lv2`, `clone_lv3` and `clone_kernel_upper_half` (paging.c): the bodies of their loops keep the
-- invariant of the loops, so the new tables lead where the old ones do.
use chypervisor.Prelude.{ℕ, ◌+◌, ◌<◌, ◌≤◌, ◌≡◌, ◌≢◌, Bool, true, false, refl, sym, ap, ◌∙◌, arith}
use chypervisor.Prelude.{Bool-cases, inl, inr, ◌==◌, ==→ne}
use mathlib.Core.Path.{subst}
use chypervisor.Paging.{virt2phys}
use chypervisor.Paging.Table.{refers, Tables, is_present, is_large, pt_from_pte, walk_from}
use chypervisor.Paging.Entry.{link}
use chypervisor.Paging.Walk.{Tables-agree, walk_from-agree}
use chypervisor.Paging.Reconstruct.{Pages, Machine, set_entry, clone_entry, upper_entry, clone_lv3}
use chypervisor.Paging.Clone.{
  Laws, In, Fresh, Extends, Twin, Twin-leaf, Twin-absent, Twin-link, IsClone, Extends-trans,
}
use chypervisor.Paging.Loop.{Inv, Start, Inv-Extends, Inv-skip, Inv-link, Apart}

module _ {P : Pages} {r : Bool} {Owned : P.State → ℕ → Type 0} (laws : Laws P r Owned)
    (level from old new : ℕ) (s0 s1 : Machine P) where
  -- A clone of the table that an entry refers to, linked into the new table.
  module _ (clone : ℕ → Machine P → ℕ × Machine P) (cloned : IsClone laws level clone) (i pte : ℕ)
      (u : Machine P) (start : Start laws level from old new s0 s1) (below : i < 512)
      (inv : Inv laws level from old new s0 s1 i u) (e : pte ≡ s0.mem old i)
      (ref : refers level pte ≡ true) where
    pub mode : u.reconstructed ≡ r
    mode = (Inv-Extends laws level from old new s0 s1 i u start inv).0 ∙ start.known

    child_clone :
        let (c, t) = clone (pt_from_pte u.reconstructed pte) u in
        Extends laws u t
        × (c ≢ 0
            → Twin laws
                (Fresh laws u t)
                level
                t.mem
                (link (virt2phys t.reconstructed c) pte)
                s0.mem
                (s0.mem old i))
    child_clone =
        let now = Inv-Extends laws level from old new s0 s1 i u start inv in
        let ref0 = subst (λ x. refers level x ≡ true) e ref in
        let tables0 = start.tables i below ref0 in
        let p0 = pt_from_pte r (s0.mem old i) in
        let p = pt_from_pte u.reconstructed pte in
        let same_p : p ≡ p0 = ap (λ b. pt_from_pte b pte) mode ∙ ap (pt_from_pte r) e in
        let tables = Tables-agree r (In laws s0) (In laws u) s0.mem u.mem level p0 now.2 tables0 in
        let (ext, works) =
          cloned p u mode (subst (λ x. Tables r (In laws u) u.mem level x) (sym same_p) tables) in
        let (c, t) = clone p u in
        let O = Fresh laws u t in
        (
          ext,
          λ ne.
              let (fresh, linked, same) = works ne in
              let walks : (va : ℕ) → walk_from r t.mem level c va ≡ walk_from r s0.mem level p0 va =
                λ va.
                  same va
                  ∙ ap (λ x. walk_from r u.mem level x va) same_p
                  ∙ walk_from-agree r (In laws s0) (In laws u) s0.mem u.mem level p0 va now.2
                      tables0 in
              let twin =
                Twin-link laws O level t.mem c s0.mem (s0.mem old i) ref0 linked fresh walks in
              subst (λ b. Twin laws O level t.mem (link (virt2phys b c) pte) s0.mem (s0.mem old i))
                (sym (ext.0 ∙ mode))
                (subst (λ x. Twin laws O level t.mem (link (virt2phys r c) x) s0.mem (s0.mem old i))
                  (sym e) twin),
        )

    pub child_clone-Inv :
        from ≤ i
        → let (c, t) = clone (pt_from_pte u.reconstructed pte) u in
          Extends laws s0 t
          × (c ≢ 0
              → Inv laws level from old new s0 s1 (i + 1) (record t {
                mem = set_entry new i (link (virt2phys t.reconstructed c) pte) t.mem;
              }))
    child_clone-Inv after =
        let now = Inv-Extends laws level from old new s0 s1 i u start inv in
        let p = pt_from_pte u.reconstructed pte in
        let t = (clone p u).1 in
        (
          Extends-trans laws s0 u t now child_clone.0,
          λ ne.
              Inv-link laws level from old new s0 s1 i
                (link (virt2phys t.reconstructed (clone p u).0) pte) u t start after inv
                child_clone.0 (child_clone.1 ne),
        )

  module _ (clone : ℕ → Machine P → ℕ × Machine P) (cloned : IsClone laws level clone) (i : ℕ)
      (u : Machine P) (start : Start laws level from old new s0 s1) (after : from ≤ i)
      (below : i < 512) (inv : Inv laws level from old new s0 s1 i u) where
    -- The bodies of the loops of `clone_lv2` and `clone_lv3`, over a copy of the old table.
    pub clone_entry-Inv :
        (level == 2) ≡ false
        → ((j : ℕ) → s1.mem new j ≡ s0.mem old j)
        → let (ok, t) = clone_entry P clone new i u in
          Extends laws s0 t × (ok ≡ true → Inv laws level from old new s0 s1 (i + 1) t)
    clone_entry-Inv not_top copied =
        let now = Inv-Extends laws level from old new s0 s1 i u start inv in
        let pte = u.mem new i in
        let e : pte ≡ s0.mem old i = inv.rest i (inr (omega arith)) ∙ copied i in
        let skip : refers level pte ≡ false → Inv laws level from old new s0 s1 (i + 1) u =
          λ no_table. Inv-skip laws level from old new s0 s1 i u inv (
            subst (λ x. Twin laws (Apart laws level from old new s0 s1 u) level u.mem pte s0.mem x)
              e
              (Twin-leaf laws (Apart laws level from old new s0 s1 u) level u.mem s0.mem pte
                no_table)) in
        elim (Bool-cases (is_present pte)) [
          | inr no_page ↦ rw no_page (now, λ h. skip (rw no_page refl))
          | inl page ↦ elim (Bool-cases (is_large pte)) [
            | inl large ↦ rw (page, large) (now, λ h. skip (rw (page, not_top, large) refl))
            | inr small ↦
                let (kept, works) =
                  child_clone-Inv clone cloned i pte u start below inv e
                    (rw (page, not_top, small) refl) after in
                let c = (clone (pt_from_pte u.reconstructed pte) u).0 in
                elim (Bool-cases (c == 0)) [
                  | inl null ↦ rw (page, small, null) (kept, λ h. absurd (ground (arith, h)))
                  | inr given ↦
                      rw (page, small, given)
                        (
                          Inv-Extends laws level from old new s0 s1 (i + 1) _ start
                              (works (==→ne c 0 given)),
                          λ h. works (==→ne c 0 given),
                        )
                ]
          ]
        ]

module _ {P : Pages} {r : Bool} {Owned : P.State → ℕ → Type 0} (laws : Laws P r Owned)
    (from old new : ℕ) (s0 s1 : Machine P) (cloned : IsClone laws 2 (clone_lv3 P)) (i : ℕ)
    (u : Machine P) (start : Start laws 2 from old new s0 s1) (after : from ≤ i) (below : i < 512)
    (inv : Inv laws 2 from old new s0 s1 i u) where
  -- The body of the loop of `clone_kernel_upper_half`, over a table with no entries from `from` on.
  pub upper_entry-Inv :
      is_present (s1.mem new i) ≡ false
      → let (ok, t) = upper_entry P old new i u in
        Extends laws s0 t × (ok ≡ true → Inv laws 2 from old new s0 s1 (i + 1) t)
  upper_entry-Inv empty =
      let now = Inv-Extends laws 2 from old new s0 s1 i u start inv in
      let pte = u.mem old i in
      let e : pte ≡ s0.mem old i = (now.2 old start.root_owned).1 i in
      elim (Bool-cases (is_present pte)) [
        | inr no_page ↦
            let still : is_present (u.mem new i) ≡ false =
              ap is_present (inv.rest i (inr (omega arith))) ∙ empty in
            let twin =
              Twin-absent laws (Apart laws 2 from old new s0 s1 u) 2 u.mem s0.mem (u.mem new i)
                (s0.mem old i) still (ap is_present (sym e) ∙ no_page) in
            rw no_page (now, λ h. Inv-skip laws 2 from old new s0 s1 i u inv twin)
        | inl page ↦
            let (kept, works) =
              child_clone-Inv laws 2 from old new s0 s1 (clone_lv3 P) cloned i pte u start below inv
                e (rw page refl) after in
            let c = (clone_lv3 P (pt_from_pte u.reconstructed pte) u).0 in
            elim (Bool-cases (c == 0)) [
              | inl null ↦ rw (page, null) (kept, λ h. absurd (ground (arith, h)))
              | inr given ↦
                  rw (page, given)
                    (
                      Inv-Extends laws 2 from old new s0 s1 (i + 1) _ start
                          (works (==→ne c 0 given)),
                      λ h. works (==→ne c 0 given),
                    )
            ]
      ]
