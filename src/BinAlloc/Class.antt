-- ===== src/BinAlloc/Class.antt =====
-- The bin that a request gets (`bin_index_for`).
use chypervisor.Prelude.{
  ℕ, zero, suc, ◌≡◌, ◌≤◌, ◌<◌, refl, arith, Option, none, some, List, [], ◌∷◌, leb,
}
use chypervisor.Prelude.{Bool-cases, inl, inr, leb→le, leb→lt}
use chypervisor.BinAlloc.{index_from, bin_index_for, bin_sizes, size_at}

abbrev pub count : List ℕ → ℕ
count [] = 0
count (b ∷ bs) = suc (count bs)

-- The first size that is large enough, if there is one.
abbrev pub IsFirst : List ℕ → ℕ → Option ℕ → Type 0
IsFirst bs need none = (i : ℕ) → i < count bs → size_at bs i < need
IsFirst bs need (some k) =
    (k < count bs) × (need ≤ size_at bs k) × ((i : ℕ) → i < k → size_at bs i < need)

abbrev bump : Option ℕ → Option ℕ
bump none = none
bump (some k) = some (suc k)

index_from-suc :
    (i : ℕ) (bs : List ℕ) (need : ℕ) → index_from (suc i) bs need ≡ bump (index_from i bs need)
unfolding index_from
index_from-suc i [] need = refl
index_from-suc i (b ∷ bs) need = elim (Bool-cases (leb need b)) [
  | inl e ↦ rw e refl
  | inr e ↦ rw e (index_from-suc (suc i) bs need)
]

all_below :
    (b : ℕ) (bs : List ℕ) (need n : ℕ)
    → b < need
    → ((i : ℕ) → i < n → size_at bs i < need)
    → (i : ℕ) → i < suc n
    → size_at (b ∷ bs) i < need
all_below b bs need n h k zero l = h
all_below b bs need n h k (suc i) l = k i (omega arith)

bump-IsFirst :
    (b : ℕ) (bs : List ℕ) (need : ℕ) (r : Option ℕ)
    → b < need
    → IsFirst bs need r
    → IsFirst (b ∷ bs) need (bump r)
bump-IsFirst b bs need none h k = λ i. all_below b bs need (count bs) h k i
bump-IsFirst b bs need (some j) h (l, enough, below) =
    (omega arith, enough, λ i. all_below b bs need j h below i)

index_from-IsFirst : (bs : List ℕ) (need : ℕ) → IsFirst bs need (index_from 0 bs need)
unfolding index_from
index_from-IsFirst [] need = λ i l. absurd (omega (arith, l))
index_from-IsFirst (b ∷ bs) need = elim (Bool-cases (leb need b)) [
  | inl e ↦ rw e (omega arith, leb→le need b e, λ i l. absurd (omega (arith, l)))
  | inr e ↦
      rw (e, index_from-suc 0 bs need)
        (bump-IsFirst b bs need (index_from 0 bs need) (leb→lt need b e)
          (index_from-IsFirst bs need))
]

-- `bin_index_for` gives the first bin whose size is at least the need, and -1 only if every bin is too
-- small.
pub bin_index_for-IsFirst : (need : ℕ) → IsFirst bin_sizes need (bin_index_for need)
bin_index_for-IsFirst need = index_from-IsFirst bin_sizes need
