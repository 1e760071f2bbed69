-- ===== src/Paging/Walk.antt =====
-- What a walk depends on.
use chypervisor.Prelude.{ℕ, zero, suc, ◌≡◌, Bool, true, false, refl, sym, ap, ◌∙◌, arith}
use chypervisor.Prelude.{none, some, Bool-cases, inl, inr, if◌then◌else◌, ◌==◌}
use mathlib.Core.Path.{subst}
use chypervisor.Paging.Table.{
  Memory, Translation, walk_from, walk_step, under, refers, Tables, is_present, is_large,
}
use chypervisor.Paging.Table.{pt_from_pte, index_at, flags_of, page_at}
use chypervisor.Paging.Entry.{link, link-flags_of, link-is_present, link-is_large}

-- An entry's step depends on the table below only if the entry points to one.
pub walk_step-cong :
    (level pte : ℕ) (a b : Translation) (va : ℕ)
    → (refers level pte ≡ true → a ≡ b)
    → walk_step level pte a va ≡ walk_step level pte b va
walk_step-cong level pte a b va h = elim (Bool-cases (is_present pte)) [
  | inr e ↦ rw e refl
  | inl e ↦ elim (Bool-cases (level == 2)) [
    | inl e' ↦ rw (e, e') (ap (under pte) (h (rw (e, e') refl)))
    | inr e' ↦ elim (Bool-cases (is_large pte)) [
      | inl l ↦ rw (e, e', l) refl
      | inr l ↦ rw (e, e', l) (ap (under pte) (h (rw (e, e', l) refl)))
    ]
  ]
]

under_cong : (a b : ℕ) (t : Translation) → flags_of a ≡ flags_of b → under a t ≡ under b t
under_cong a b none e = refl
under_cong a b (some (pa, flags)) e = rw e refl

-- A link with the flags of an entry that points to a table leads on as that entry does.
pub walk_step-link :
    (level pa pte : ℕ) (t : Translation) (va : ℕ)
    → refers level pte ≡ true
    → walk_step level (link pa pte) t va ≡ walk_step level pte t va
walk_step-link level pa pte t va h =
    rw (link-is_present pa pte, link-is_large pa pte)
      (elim (Bool-cases (is_present pte)) [
        | inr e ↦ rw e refl
        | inl e ↦ elim (Bool-cases (level == 2)) [
          | inl e' ↦ rw (e, e') (under_cong (link pa pte) pte t (link-flags_of pa pte))
          | inr e' ↦ elim (Bool-cases (is_large pte)) [
            | inl l ↦
                let none_below : refers level pte ≡ false = rw (e, e', l) refl in
                absurd (ground (arith, sym none_below ∙ h))
            | inr l ↦ rw (e, e', l) (under_cong (link pa pte) pte t (link-flags_of pa pte))
          ]
        ]
      ])

module _ (r : Bool) (O O' : ℕ → Type 0) (mem mem' : Memory) where
  -- The second memory and set have every page of the first set, with the same entries.
  abbrev pub Agrees : Type 0
  Agrees = (q : ℕ) → O q → O' q × ((j : ℕ) → mem' q j ≡ mem q j)

  pub Tables-agree : (level p : ℕ) → Agrees → Tables r O mem level p → Tables r O' mem' level p
  Tables-agree zero p h t = (h p t).0
  Tables-agree (suc level) p h (o, children) =
      let same = (h p o).1 in
      (
        (h p o).0,
        λ i below ref.
            let ref' : refers level (mem p i) ≡ true =
              subst (λ x. refers level x ≡ true) (same i) ref in
            rw (same i) (Tables-agree level (pt_from_pte r (mem p i)) h (children i below ref')),
      )

  -- So walks from a tree in that set are the same.
  pub walk_from-agree :
      (level p va : ℕ)
      → Agrees
      → Tables r O mem level p
      → walk_from r mem' level p va ≡ walk_from r mem level p va
  walk_from-agree zero p va h o =
      ap (λ pte. if is_present pte then page_at 12 pte va else none) ((h p o).1 (index_at 0 va))
  walk_from-agree (suc level) p va h (o, children) =
      let i = index_at (suc level) va in
      let same = (h p o).1 i in
      ap (λ pte. walk_step level pte (walk_from r mem' level (pt_from_pte r pte) va) va) same
      ∙ walk_step-cong level (mem p i) _ _ va (λ ref.
        walk_from-agree level (pt_from_pte r (mem p i)) va h (children i (omega arith) ref))
