-- ===== src/BinAlloc/Chain.antt =====
-- The free lists as lists of addresses: what the heads and the links of the chunks stand for, and
-- `push_node`, `pop_node` and the loop of `refill_bin` on them.
use chypervisor.Prelude.{
  ℕ, zero, suc, ◌+◌, ◌*◌, ◌≡◌, ◌≢◌, ◌≤◌, ◌<◌, ◌⊎◌, inl, inr, refl, arith, ap, ◌∙◌, true, false,
}
use chypervisor.Prelude.{List, [], ◌∷◌, if◌then◌else◌, ◌==◌, Bool-cases, ==→eq}
use mathlib.Core.Path.{subst}
use chypervisor.BinAlloc.{Pages, Bins, push_node, pop_node, push_chunks, update}

-- The list of addresses that starts at `h` and follows the links to a null.
abbrev pub Chain : (ℕ → ℕ) → ℕ → List ℕ → Type 0
Chain next h [] = h ≡ 0
Chain next h (x ∷ xs) = (h ≡ x) × (x ≢ 0) × Chain next (next x) xs

-- No address of the list lies in `[lo, hi)`.
abbrev pub Apart : ℕ → ℕ → List ℕ → Type 0
Apart lo hi [] = Unit
Apart lo hi (x ∷ xs) = ((x < lo) ⊎ (hi ≤ x)) × Apart lo hi xs

abbrev pub with_bin : ℕ → List ℕ → (ℕ → List ℕ) → ℕ → List ℕ
with_bin idx xs bins j = if j == idx then xs else bins j

update-Chain :
    (n v : ℕ) (next : ℕ → ℕ) (h : ℕ) (xs : List ℕ)
    → Apart n (n + 1) xs
    → Chain next h xs
    → Chain (update n v next) h xs
update-Chain n v next h [] apart c = c
update-Chain n v next h (x ∷ xs) (far, apart) (e, ne, c) =
    let other : (x == n) ≡ false = ground (arith, far) in
    (e, ne, rw other (update-Chain n v next (next x) xs apart c))

pub narrow-Apart :
    (lo hi lo' hi' : ℕ) (xs : List ℕ) → lo ≤ lo' → hi' ≤ hi → Apart lo hi xs → Apart lo' hi' xs
narrow-Apart lo hi lo' hi' [] p q a = tt
narrow-Apart lo hi lo' hi' (x ∷ xs) p q (far, a) =
    (ground (arith, far), narrow-Apart lo hi lo' hi' xs p q a)

-- The loop of `refill_bin` on lists.
abbrev pub chunks : ℕ → ℕ → ℕ → ℕ → List ℕ → List ℕ
chunks page bsz i zero xs = xs
chunks page bsz i (suc count) xs = chunks page bsz (i + 1) count ((page + i * bsz) ∷ xs)

pub with_bin-twice :
    (idx : ℕ) (xs ys : List ℕ) (bins : ℕ → List ℕ) (i : ℕ)
    → with_bin idx ys (with_bin idx xs bins) i ≡ with_bin idx ys bins i
with_bin-twice idx xs ys bins i = elim (Bool-cases (i == idx)) [
  | inl e ↦ rw e refl
  | inr e ↦ rw e refl
]

pub with_bin-same : (idx : ℕ) (xs : List ℕ) (bins : ℕ → List ℕ) → with_bin idx xs bins idx ≡ xs
with_bin-same idx xs bins = let same : (idx == idx) ≡ true = ground arith in rw same refl

module _ (P : Pages) where
  -- The bins hold exactly the free chunks of `bins`, in the order in which they will be handed out.
  abbrev pub Represents : Bins P → (ℕ → List ℕ) → Type 0
  Represents s bins = (i : ℕ) → Chain s.next (s.heads i) (bins i)

  pub push_node-Represents :
      (idx n : ℕ) (s : Bins P) (bins : ℕ → List ℕ)
      → n ≢ 0
      → ((i : ℕ) → Apart n (n + 1) (bins i))
      → Represents s bins
      → Represents (push_node P idx n s) (with_bin idx (n ∷ bins idx) bins)
  unfolding push_node
  push_node-Represents idx n s bins ne apart r i =
      let same : (n == n) ≡ true = ground arith in
      elim (Bool-cases (i == idx)) [
        | inl e ↦
            rw (e, same)
              (
                refl,
                ne,
                update-Chain n (s.heads idx) s.next (s.heads idx) (bins idx) (apart idx) (r idx),
              )
        | inr e ↦ rw e (update-Chain n (s.heads idx) s.next (s.heads i) (bins i) (apart i) (r i))
      ]

  pub pop_node-Represents :
      (idx x : ℕ) (xs : List ℕ) (s : Bins P) (bins : ℕ → List ℕ)
      → bins idx ≡ x ∷ xs
      → Represents s bins
      → ((pop_node P idx s).0 ≡ x) × Represents (pop_node P idx s).1 (with_bin idx xs bins)
  unfolding pop_node
  pop_node-Represents idx x xs s bins e r =
      let c : Chain s.next (s.heads idx) (x ∷ xs) =
        subst (λ l. Chain s.next (s.heads idx) l) e (r idx) in
      let (head, ne, tail) = c in
      let some_left : (s.heads idx == 0) ≡ false = ground (arith, head, ne) in
      (
        rw some_left head,
        λ i. elim (Bool-cases (i == idx)) [
          | inl same ↦ rw (some_left, same, head) tail
          | inr other ↦ rw (some_left, other) (r i)
        ],
      )

  -- A loop that stays inside a page none of whose addresses is in a bin puts every chunk on the list.
  pub push_chunks-Represents :
      (idx page bsz i count hi : ℕ) (s : Bins P) (bins : ℕ → List ℕ)
      → page ≢ 0
      → 0 < bsz
      → page + (i + count) * bsz ≤ hi
      → ((j : ℕ) → Apart (page + i * bsz) hi (bins j))
      → Represents s bins
      → Represents
          (push_chunks P idx page bsz i count s)
          (with_bin idx (chunks page bsz i count (bins idx)) bins)
  unfolding push_chunks
  push_chunks-Represents idx page bsz i zero hi s bins ne pos fits apart r j =
      elim (Bool-cases (j == idx)) [ inl e ↦ rw (e, ==→eq j idx e) (r idx) | inr e ↦ rw e (r j) ]
  push_chunks-Represents idx page bsz i (suc count) hi s bins ne pos fits apart r j =
      let a = page + i * bsz in
      let next_a : page + (i + 1) * bsz ≡ a + bsz = omega arith in
      let left : page + (i + suc count) * bsz ≡ a + bsz + count * bsz = omega arith in
      let rest : page + (i + 1 + count) * bsz ≡ a + bsz + count * bsz = omega arith in
      let bins' = with_bin idx (a ∷ bins idx) bins in
      let pushed =
        push_node-Represents idx a s bins (ground (arith, ne))
          (λ k.
            narrow-Apart a hi a (a + 1) (bins k) (omega arith) (omega (arith, fits, left, pos))
              (apart k))
          r in
      let apart' : (k : ℕ) → Apart (page + (i + 1) * bsz) hi (bins' k) = λ k.
        elim (Bool-cases (k == idx)) [
          | inl e ↦ rw e (
            inl (omega (arith, next_a, pos)),
            narrow-Apart a hi _ hi (bins idx) (omega (arith, next_a)) (omega arith) (apart idx),
          )
          | inr e ↦
              rw e (narrow-Apart a hi _ hi (bins k) (omega (arith, next_a)) (omega arith) (apart k))
        ] in
      let t = push_node P idx a s in
      let done = push_chunks P idx page bsz (i + 1) count t in
      let path : with_bin idx (chunks page bsz (i + 1) count (bins' idx)) bins' j
          ≡ with_bin idx (chunks page bsz (i + 1) count (a ∷ bins idx)) bins j =
        ap (λ l. with_bin idx (chunks page bsz (i + 1) count l) bins' j)
          (with_bin-same idx (a ∷ bins idx) bins)
        ∙ with_bin-twice idx (a ∷ bins idx) (chunks page bsz (i + 1) count (a ∷ bins idx)) bins j in
      subst (λ l. Chain done.next (done.heads j) l) path
        (push_chunks-Represents idx page bsz (i + 1) count hi t bins' ne pos
          (omega (arith, fits, left, rest)) apart' pushed j)
