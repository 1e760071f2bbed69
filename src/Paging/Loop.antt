-- ===== src/Paging/Loop.antt =====
-- The loops of paging.c that link clones of lower tables into a new table.
use chypervisor.Prelude.{ℕ, zero, suc, ◌+◌, ◌<◌, ◌≤◌, ◌≡◌, Bool, true, false, refl, sym, ◌∙◌, arith}
use chypervisor.Prelude.{Bool-cases, inl, inr, ◌==◌, ==→eq, ==→ne, ==-refl, ◌⊎◌}
use mathlib.Core.Path.{subst}
use chypervisor.Paging.Table.{refers, Tables, pt_from_pte}
use chypervisor.Paging.Walk.{Agrees}
use chypervisor.Paging.Reconstruct.{Pages, Machine, set_entry, each_entry}
use chypervisor.Paging.Clone.{Laws, In, Fresh, Extends, Twin, Twin-agree}
use chypervisor.Paging.Clone.{other_page}

module _ {P : Pages} (Good : Machine P → Type 0) (Inv : ℕ → Machine P → Type 0) where
  pub each_entry-Inv :
      (body : ℕ → Machine P → Bool × Machine P) (i left : ℕ) (s : Machine P)
      → ((j : ℕ) (t : Machine P)
          → i ≤ j
          → j < i + left
          → Inv j t
          → Good (body j t).1 × ((body j t).0 ≡ true → Inv (j + 1) (body j t).1))
      → Good s
      → Inv i s
      → let (ok, t) = each_entry P body i left s in Good t × (ok ≡ true → Inv (i + left) t)
  unfolding each_entry
  each_entry-Inv body i zero s step good inv =
      let e : i + 0 ≡ i = omega arith in rw e (good, λ h. inv)
  each_entry-Inv body i (suc left) s step good inv =
      let now = step i s (omega arith) (omega arith) inv in
      let t = (body i s).1 in
      elim (Bool-cases (body i s).0) [
        | inr e ↦ rw e (now.0, λ h. absurd (ground (arith, h)))
        | inl e ↦
            let rest =
              each_entry-Inv body (i + 1) left t
                (λ j u lo hi v. step j u (omega arith) (omega arith) v) now.0 (now.1 e) in
            let n : i + suc left ≡ i + 1 + left = omega arith in rw (e, n) rest
      ]

-- A loop starts in `s1` at entry `from` of the table `new`, which is not in use in `s0`, and follows the
-- table `old` of `s0`.
module _ {P : Pages} {r : Bool} {Owned : P.State → ℕ → Type 0} (laws : Laws P r Owned)
    (level from old new : ℕ) (s0 s1 : Machine P) where
  abbrev pub Beside : Machine P → ℕ → Type 0
  Beside s q = In laws s q × ((q == new) ≡ false)

  abbrev pub Apart : Machine P → ℕ → Type 0
  Apart s q = Fresh laws s0 s q × ((q == new) ≡ false)

  -- What the loop has done before entry `i`.
  pub record Inv (i : ℕ) (u : Machine P) : Type 0 where
    pub mode : u.reconstructed ≡ s1.reconstructed
    pub root : u.cr3 ≡ s1.cr3
    pub kept : In laws u new
    pub others : Agrees r (Beside s1) (In laws u) s1.mem u.mem
    pub rest : (j : ℕ) → (j < from) ⊎ (i ≤ j) → u.mem new j ≡ s1.mem new j
    pub done :
        (j : ℕ)
        → from ≤ j
        → j < i
        → Twin laws (Apart u) level u.mem (u.mem new j) s0.mem (s0.mem old j)

  -- What the loops start from.
  pub record Start : Type 0 where
    pub known : s0.reconstructed ≡ r
    pub before : Extends laws s0 s1
    pub unused : Fresh laws s0 s1 new
    pub root_owned : In laws s0 old
    pub tables :
        (i : ℕ)
        → i < 512
        → refers level (s0.mem old i) ≡ true
        → Tables r (In laws s0) s0.mem level (pt_from_pte r (s0.mem old i))

  pub Start-Inv : Start → Inv from s1
  Start-Inv start = record {
    mode = refl;
    root = refl;
    kept = start.unused.0;
    others = λ q o. (o.0, λ j. refl);
    rest = λ j h. refl;
    done = λ j lo hi. absurd (omega arith);
  }

  pub Inv-Extends : (i : ℕ) (u : Machine P) → Start → Inv i u → Extends laws s0 u
  Inv-Extends i u start inv = (
    inv.mode ∙ start.before.0,
    inv.root ∙ start.before.1,
    λ q o.
        let there = start.before.2 q o in
        let now = inv.others q (there.0, other_page laws s0 new q start.unused.1 o) in
        (now.0, λ j. now.1 j ∙ there.1 j),
  )

  abbrev TwinAt : Machine P → ℕ → Type 0
  TwinAt u j = Twin laws (Apart u) level u.mem (u.mem new j) s0.mem (s0.mem old j)

  -- An entry that stays as it is and already leads to the same.
  pub Inv-skip :
      (i : ℕ) (u : Machine P)
      → Inv i u
      → Twin laws (Apart u) level u.mem (u.mem new i) s0.mem (s0.mem old i)
      → Inv (i + 1) u
  Inv-skip i u inv twin = record {
    mode = inv.mode;
    root = inv.root;
    kept = inv.kept;
    others = inv.others;
    rest = λ j h. inv.rest j (elim h [ inl a ↦ inl a | inr a ↦ inr (omega arith) ]);
    done = λ j lo hi. elim (Bool-cases (j == i)) [
      | inl e ↦ subst (λ x. TwinAt u x) (sym (==→eq j i e)) twin
      | inr e ↦ inv.done j lo (ground (arith, ==→ne j i e))
    ];
  }

  abbrev linked : ℕ → ℕ → Machine P → Machine P
  linked i pte t = record t { mem = set_entry new i pte t.mem }

  -- A write to entry `i` after work on other pages.
  module _ (i pte : ℕ) (u t : Machine P) (start : Start) (after : from ≤ i) (inv : Inv i u)
      (ext : Extends laws u t) where
    same_elsewhere : (q : ℕ) → (q == new) ≡ false → (j : ℕ) → (linked i pte t).mem q j ≡ t.mem q j
    same_elsewhere q e j = rw e refl

    same_entry : (j : ℕ) → (j == i) ≡ false → (linked i pte t).mem new j ≡ u.mem new j
    same_entry j e = rw (==-refl new, e) ((ext.2 new inv.kept).1 j)

    at_entry : (linked i pte t).mem new i ≡ pte
    at_entry = rw (==-refl new, ==-refl i) refl

    not_new : (q : ℕ) → ¬ In laws u q → (q == new) ≡ false
    not_new q out = elim (Bool-cases (q == new)) [
      | inl e ↦ absurd (out (subst (In laws u) (sym (==→eq q new e)) inv.kept))
      | inr e ↦ e
    ]

    older : Agrees r (Apart u) (Apart (linked i pte t)) u.mem (linked i pte t).mem
    older q (fresh, e) =
        let now = ext.2 q fresh.0 in (((now.0, fresh.1), e), λ j. same_elsewhere q e j ∙ now.1 j)

    newer : Agrees r (Fresh laws u t) (Apart (linked i pte t)) t.mem (linked i pte t).mem
    newer q (there, out) =
        let e = not_new q out in
        (((there, λ o. out ((Inv-Extends i u start inv).2 q o).0), e), same_elsewhere q e)

    pub Inv-link :
        Twin laws (Fresh laws u t) level t.mem pte s0.mem (s0.mem old i)
        → Inv (i + 1) (record t { mem = set_entry new i pte t.mem })
    Inv-link twin = record {
      mode = ext.0 ∙ inv.mode;
      root = ext.1 ∙ inv.root;
      kept = (ext.2 new inv.kept).0;
      others = λ q o.
          let before = inv.others q o in
          let now = ext.2 q before.0 in (now.0, λ j. same_elsewhere q o.1 j ∙ now.1 j ∙ before.1 j);
      rest = λ j h.
          let e : (j == i) ≡ false = elim h [ inl a ↦ ground arith | inr a ↦ ground arith ] in
          same_entry j e ∙ inv.rest j (elim h [ inl a ↦ inl a | inr a ↦ inr (omega arith) ]);
      done = λ j lo hi. elim (Bool-cases (j == i)) [
        | inl e ↦
            let v = linked i pte t in
            let here : TwinAt v i =
              subst (λ x. Twin laws (Apart v) level v.mem x s0.mem (s0.mem old i)) (sym at_entry)
                (Twin-agree laws (Fresh laws u t) (Apart v) level t.mem v.mem pte s0.mem
                  (s0.mem old i) newer twin) in
            subst (λ x. TwinAt v x) (sym (==→eq j i e)) here
        | inr e ↦
            let v = linked i pte t in
            let before = inv.done j lo (ground (arith, ==→ne j i e)) in
            subst (λ x. Twin laws (Apart v) level v.mem x s0.mem (s0.mem old j))
              (sym (same_entry j e))
              (Twin-agree laws (Apart u) (Apart v) level u.mem v.mem (u.mem new j) s0.mem
                (s0.mem old j) older before)
      ];
    }
