-- ===== src/Paging/Trees.antt =====
-- `clone_lv2` and `clone_lv3` (paging.c): whole tables, by the invariant of their loops.
use chypervisor.Prelude.{ℕ, suc, ◌≡◌, Bool, true, false, refl, arith}
use chypervisor.Prelude.{if_all, if◌then◌else◌, ◌==◌, ==→ne, ==-refl}
use chypervisor.Paging.Table.{Tables, walk_from, index_at}
use chypervisor.Paging.Walk.{Tables-agree}
use chypervisor.Paging.Reconstruct.{
  Pages, Machine, set_table, clone_entry, each_entry, clone_table, alloc_pt_zeroed,
}
use chypervisor.Paging.Reconstruct.{clone_lv1, clone_lv2, clone_lv3}
use chypervisor.Paging.Clone.{
  Laws, Fresh, Extends, IsClone, IsCloneOf, write-Extends, alloc_pt_zeroed-Fresh,
}
use chypervisor.Paging.Clone.{clone_lv1-IsClone}
use chypervisor.Paging.Loop.{Inv, Start, Start-Inv, Apart, each_entry-Inv}
use chypervisor.Paging.Upper.{clone_entry-Inv}

module _ {P : Pages} {r : Bool} {Owned : P.State → ℕ → Type 0} (laws : Laws P r Owned) where
  module _ (level : ℕ) (clone : ℕ → Machine P → ℕ × Machine P) (cloned : IsClone laws level clone)
      (not_top : (level == 2) ≡ false) where
    -- The loop over a copy of the old table.
    module _ (old new : ℕ) (s t : Machine P) (start : Start laws level 0 old new s t)
        (copied : (j : ℕ) → t.mem new j ≡ s.mem old j) where
      loop_end :
          let (ok, u) = each_entry P (clone_entry P clone new) 0 512 t in
          Extends laws s u × (ok ≡ true → Inv laws level 0 old new s t 512 u)
      loop_end =
          each_entry-Inv (Extends laws s) (Inv laws level 0 old new s t) (clone_entry P clone new) 0
            512 t
            (λ j u lo hi inv.
              clone_entry-Inv laws level 0 old new s t clone cloned j u start lo hi inv not_top
                copied)
            start.before (Start-Inv laws level 0 old new s t start)

    cloned_tree :
        (old new : ℕ) (s t u : Machine P)
        → Start laws level 0 old new s t
        → Inv laws level 0 old new s t 512 u
        → Tables r (Fresh laws s u) u.mem (suc level) new
          × ((va : ℕ) → walk_from r u.mem (suc level) new va ≡ walk_from r s.mem (suc level) old va)
    cloned_tree old new s t u start inv = (
      (
        (inv.kept, start.unused.1),
        λ i below ref.
            Tables-agree r (Apart laws level 0 old new s t u) (Fresh laws s u) u.mem u.mem level _
              (λ q o. (o.0, λ j. refl)) ((inv.done i (omega arith) below).1 ref),
      ),
      λ va. (inv.done (index_at (suc level) va) (omega arith) (omega arith)).0 va,
    )

    pub clone_table-IsClone : IsClone laws (suc level) (clone_table P clone)
    unfolding clone_table
    clone_table-IsClone old s rec tables =
        let (new, t) = alloc_pt_zeroed P s in
        let (ext, given) = alloc_pt_zeroed-Fresh laws s in
        let copy : Machine P = record t { mem = set_table new (t.mem old) t.mem } in
        let (ok, u) = each_entry P (clone_entry P clone new) 0 512 copy in
        let C = IsCloneOf laws (suc level) old s in
        if_all C (new == 0) (0, t) (if ok then (new, u) else (0, u))
          (λ e. (ext, λ ne. absurd (ne refl)))
          (λ e.
            let (owned, linked, zeros) = given (==→ne new 0 e) in
            let start : Start laws level 0 old new s copy = record {
              known = rec;
              before =
                  write-Extends laws s t new (set_table new (t.mem old) t.mem) ext owned.1
                    (λ q other j. rw other refl);
              unused = owned;
              root_owned = tables.0;
              tables = tables.1;
            } in
            let copied : (j : ℕ) → copy.mem new j ≡ s.mem old j =
              λ j. rw (==-refl new) ((ext.2 old tables.0).1 j) in
            let (good, inv) = loop_end old new s copy start copied in
            if_all C ok (new, u) (0, u)
              (λ done.
                let (tree, same) = cloned_tree old new s copy u start (inv done) in
                (good, λ ne. (tree, linked, same)))
              (λ failed. (good, λ ne. absurd (ne refl))))

  pub clone_lv3-IsClone : IsClone laws 2 (clone_lv3 P)
  clone_lv3-IsClone =
      clone_table-IsClone 1 (clone_lv2 P)
        (clone_table-IsClone 0 (clone_lv1 P) (clone_lv1-IsClone laws) refl) refl
