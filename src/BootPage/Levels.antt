-- ===== src/BootPage/Levels.antt =====
-- One level of the way down of `page_map4k_to` (arch_x86_page.c).
use chypervisor.Prelude.{ℕ, suc, ◌-◌, ◌*◌, ◌/◌, ◌%◌, ◌^◌, ◌<◌, ◌≡◌, refl, sym, ap, ◌∙◌, arith}
use chypervisor.Prelude.{
  true, false, some, ◌==◌, ==-refl, ==→eq, ==→ne, if◌then◌else◌, ◌⊎◌, inl, inr, Bool-cases,
}
use chypervisor.Prelude.{◌&&◌, bit_and}
use chypervisor.Prelude.Bits.{bit_and_high, bit_and_mask}
use mathlib.Core.Path.{subst}
use chypervisor.BootPage.{BootServices, Loader, PtEntry, get_table}
use chypervisor.BootPage.{entry_addr, table_entry, put, clear_page}

abbrev pub target : PtEntry → ℕ
target e = get_table (entry_addr e)

-- What the firmware promises of its pages, over those that are in use: a new page was not in use, is from
-- then on, starts at a multiple of 4 KiB and is below 2^63; the others stay in use.
pub record Laws (B : BootServices) (Used : B.State → ℕ → Type 0) : Type 0 where
  pub keeps : (s : B.State) (p : ℕ) → Used s p → Used (B.allocate_page s).1 p
  pub new_page :
      (s : B.State) (q : ℕ)
      → (B.allocate_page s).0 ≡ some q
      → (¬ Used s q) × Used (B.allocate_page s).1 q × (q % 4096 ≡ 0) × (q < 2 ^ 63)

target-table_entry :
    (B : BootServices) (q : ℕ) → q % 4096 ≡ 0 → q < 2 ^ 63 → target (table_entry B q) ≡ q
target-table_entry B q aligned small =
    let number : bit_and (q / 2 ^ 12) (2 ^ 51 - 1) ≡ q / 2 ^ 12 =
      bit_and_mask 51 (q / 2 ^ 12) ∙ omega (arith, small) in
    rw number
      (bit_and_high 52 12 (q / 2 ^ 12 * 2 ^ 12) (omega (arith, small)) ∙ omega (arith, aligned))

module _ {B : BootServices} {Used : B.State → ℕ → Type 0} (laws : Laws B Used) where
  -- The tables by their level, 3 for the top one; other pages have a number from 4 on. Every table is in
  -- use, and every entry of a table above level 0 is free or refers to a table one level below.
  pub record IsLevelled (lvl : ℕ → ℕ) (s : Loader B) : Type 0 where
    pub used : (p : ℕ) → lvl p < 4 → Used s.services p
    pub down :
        (p i n : ℕ)
        → lvl p ≡ suc n
        → n < 3
        → (((s.mem p i).present == 0) ≡ true)
          ⊎ ((lvl (target (s.mem p i)) ≡ n) × (((s.mem p i).ps == 0) ≡ true))

  -- The state after one level: its entry refers to a table, and the other entries are as they were.
  pub record IsStep (lvl lvl' : ℕ → ℕ) (p i n : ℕ) (s t : Loader B) : Type 0 where
    pub levelled : IsLevelled lvl' t
    pub older : (q : ℕ) → lvl q < 4 → lvl' q ≡ lvl q
    pub kept : (q j : ℕ) → lvl q < 4 → (q == p) ≡ false → t.mem q j ≡ s.mem q j
    pub present : ((t.mem p i).present == 0) ≡ false
    pub small : ((t.mem p i).ps == 0) ≡ true
    pub lower : lvl' (target (t.mem p i)) ≡ n
    pub root : t.cr3 ≡ s.cr3

  module _ (lvl : ℕ → ℕ) (p i n : ℕ) (s : Loader B) (levels : IsLevelled lvl s) (at : lvl p ≡ suc n)
      (low : n < 3) where
    pub stay : ((s.mem p i).present == 0) ≡ false → IsStep lvl lvl p i n s s
    stay here =
        let found : (lvl (target (s.mem p i)) ≡ n) × (((s.mem p i).ps == 0) ≡ true) =
          elim (levels.down p i n at low) [
            | inl free ↦ absurd (ground (arith, sym here ∙ free))
            | inr x ↦ x
          ] in
        record {
          levelled = levels;
          older = λ q h. refl;
          kept = λ q j h e. refl;
          present = here;
          small = found.1;
          lower = found.0;
          root = refl;
        }

    module _ (q : ℕ) (given : (B.allocate_page s.services).0 ≡ some q) where
      abbrev pub grown : ℕ → ℕ
      grown x = if x == q then n else lvl x

      abbrev pub after : Loader B
      after =
          put B p i (table_entry B q)
            (clear_page B q (record s { services = (B.allocate_page s.services).1 }))

      not_table : (x : ℕ) → lvl x < 4 → (x == q) ≡ false
      not_table x h = elim (Bool-cases (x == q)) [
        | inl e ↦ absurd (
            (laws.new_page s.services q given).0
              (subst (λ y. Used s.services y) (==→eq x q e) (levels.used x h)))
        | inr e ↦ e
      ]

      table_there : (x j : ℕ) → (x == p && j == i) ≡ true → after.mem x j ≡ table_entry B q
      table_there x j e = rw e refl

      others : (x j : ℕ) → (x == p && j == i) ≡ false → (x == q) ≡ false → after.mem x j ≡ s.mem x j
      others x j e e' = rw (e, e') refl

      leads : target (table_entry B q) ≡ q
      leads = let (a, b, c, d) = laws.new_page s.services q given in target-table_entry B q c d

      at_entry : after.mem p i ≡ table_entry B q
      at_entry = rw (==-refl p, ==-refl i) refl

      grown_down :
          (x j m : ℕ)
          → grown x ≡ suc m
          → m < 3
          → (((after.mem x j).present == 0) ≡ true)
            ⊎ ((grown (target (after.mem x j)) ≡ m) × (((after.mem x j).ps == 0) ≡ true))
      grown_down x j m h below = elim (Bool-cases (x == q)) [
        | inl e ↦
            let not_p : (x == p) ≡ false =
              ground (arith, ==→eq x q e, ==→ne p q (not_table p (omega (arith, at, low)))) in
            inl (rw (not_p, e) refl)
        | inr e ↦
            let same : lvl x ≡ suc m = rw e at h in
            elim (Bool-cases (x == p && j == i)) [
              | inl e' ↦
                  let is_p : x ≡ p = ground (arith, e') in
                  let level : n ≡ m = omega (arith, sym at ∙ ap lvl (sym is_p) ∙ same) in
                  let to : grown (target (table_entry B q)) ≡ m =
                    ap grown leads ∙ rw (==-refl q) level in
                  rw (table_there x j e') (inr (to, refl))
              | inr e' ↦ rw (others x j e' e) (elim (levels.down x j m same below) [
                | inl free ↦ inl free
                | inr (to, small) ↦
                    inr (rw (not_table (target (s.mem x j)) (omega (arith, to, below))) to, small)
              ])
            ]
      ]

      pub grow : IsStep lvl grown p i n s after
      grow = record {
        levelled = record {
          used = λ x h. elim (Bool-cases (x == q)) [
            | inl e ↦
                let (a, owned, c, d) = laws.new_page s.services q given in
                subst (λ y. Used (B.allocate_page s.services).1 y) (sym (==→eq x q e)) owned
            | inr e ↦ laws.keeps s.services x (levels.used x (rw e at h))
          ];
          down = grown_down;
        };
        older = λ x h. rw (not_table x h) refl;
        kept = λ x j h e. rw (e, not_table x h) refl;
        present = ap (λ e. e.present == 0) at_entry;
        small = ap (λ e. e.ps == 0) at_entry;
        lower = ap (λ e. grown (target e)) at_entry ∙ ap grown leads ∙ rw (==-refl q) refl;
        root = refl;
      }
