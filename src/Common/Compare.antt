-- ===== src/Common/Compare.antt =====
-- What the result of `memcmp` (kernel/common.c) says.
use chypervisor.Prelude.{
  ℕ, zero, suc, ◌+◌, ◌-◌, ◌^◌, ◌≤◌, ◌<◌, ◌≡◌, ◌≢◌, arith, ◌⊎◌, inl, inr, ◌==◌, Bool-cases, ==→eq,
  ==→ne, u32,
}
use chypervisor.Common.{memcmp}

-- The sign of the byte difference, as that of a 32-bit word in two's complement.
pub data Orders (m : ℕ → ℕ) (a b n : ℕ) : ℕ → Type 0 where
  same : ((i : ℕ) → i < n → m (a + i) ≡ m (b + i)) → Orders m a b n 0
  less :
      (k r : ℕ)
      → k < n
      → ((i : ℕ) → i < k → m (a + i) ≡ m (b + i))
      → m (a + k) < m (b + k)
      → 2 ^ 31 ≤ r
      → r < 2 ^ 32
      → Orders m a b n r
  greater :
      (k r : ℕ)
      → k < n
      → ((i : ℕ) → i < k → m (a + i) ≡ m (b + i))
      → m (b + k) < m (a + k)
      → 0 < r
      → r < 2 ^ 31
      → Orders m a b n r

Below-suc :
    (m : ℕ → ℕ) (a b k : ℕ)
    → m a ≡ m b
    → ((i : ℕ) → i < k → m (a + 1 + i) ≡ m (b + 1 + i))
    → (i : ℕ) → i < suc k
    → m (a + i) ≡ m (b + i)
Below-suc m a b k e rest = elim [
  | zero ↦ λ h.
      let here : a + 0 ≡ a = omega arith in
      let there : b + 0 ≡ b = omega arith in rw (here, there) e
  | suc i ↦ λ h.
      let here : a + suc i ≡ a + 1 + i = omega arith in
      let there : b + suc i ≡ b + 1 + i = omega arith in
      rw (here, there) (rest i (omega (arith, h)))
]

Orders-suc :
    (m : ℕ → ℕ) (a b n r : ℕ) → m a ≡ m b → Orders m (a + 1) (b + 1) n r → Orders m a b (suc n) r
Orders-suc m a b n _ e (same all) = same (Below-suc m a b n e all)
Orders-suc m a b n _ e (less k r inside before l high small) =
    let here : a + suc k ≡ a + 1 + k = omega arith in
    let there : b + suc k ≡ b + 1 + k = omega arith in
    less (suc k) r (omega (arith, inside)) (Below-suc m a b k e before) (rw (here, there) l) high
      small
Orders-suc m a b n _ e (greater k r inside before l high small) =
    let here : a + suc k ≡ a + 1 + k = omega arith in
    let there : b + suc k ≡ b + 1 + k = omega arith in
    greater (suc k) r (omega (arith, inside)) (Below-suc m a b k e before) (rw (here, there) l) high
      small

-- The difference of two bytes as a word.
abbrev difference : ℕ → ℕ → ℕ
difference x y = u32 (2 ^ 32 + x - y)

difference_cases :
    (x y : ℕ)
    → x < 256
    → y < 256
    → x ≢ y
    → ((x < y) × (2 ^ 31 ≤ difference x y) × (difference x y < 2 ^ 32))
      ⊎ ((y < x) × (0 < difference x y) × (difference x y < 2 ^ 31))
difference_cases x y hx hy ne = ground (arith, hx, hy, ne)

-- On memory of bytes: `memcmp` is 0 exactly if the two regions hold the same bytes; else it is negative or
-- positive as the first byte that differs is less or greater in the first region.
pub memcmp-Orders :
    (m : ℕ → ℕ) (a b n : ℕ) → ((q : ℕ) → m q < 256) → Orders m a b n (memcmp m a b n)
unfolding memcmp
memcmp-Orders m a b zero bytes = same (λ i h. absurd (omega (arith, h)))
memcmp-Orders m a b (suc n) bytes = elim (Bool-cases (m a == m b)) [
  | inl e ↦
      rw e (Orders-suc m a b n _ (==→eq (m a) (m b) e) (memcmp-Orders m (a + 1) (b + 1) n bytes))
  | inr e ↦
      let ne = ==→ne (m a) (m b) e in
      let here : a + 0 ≡ a = omega arith in
      let there : b + 0 ≡ b = omega arith in
      rw e (elim (difference_cases (m a) (m b) (bytes a) (bytes b) ne) [
        | inl (l, high, small) ↦
            less 0 _ (omega arith) (λ i h. absurd (omega (arith, h))) (rw (here, there) l) high
              small
        | inr (l, high, small) ↦
            greater 0 _ (omega arith) (λ i h. absurd (omega (arith, h))) (rw (here, there) l) high
              small
      ])
]
