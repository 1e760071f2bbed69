-- ===== src/Common/Copy.antt =====
-- What `memcpy` (kernel/common.c) leaves in memory.
use chypervisor.Prelude.{
  ℕ, zero, suc, ◌+◌, ◌≤◌, ◌<◌, ◌≡◌, ◌≢◌, refl, ◌∙◌, arith, true, false, ◌⊎◌, inl, inr, ◌==◌,
}
use chypervisor.Interrupt.Stubs.{write}
use chypervisor.Common.{copy_bytes, memcpy}

pub record IsCopied (m m' : ℕ → ℕ) (dst src n : ℕ) : Type 0 where
  pub copied : (i : ℕ) → i < n → m' (dst + i) ≡ m (src + i)
  pub kept : (q : ℕ) → (q < dst) ⊎ (dst + n ≤ q) → m' q ≡ m q

write_same : (m : ℕ → ℕ) (p v : ℕ) → write m p v p ≡ v
write_same m p v = let e : (p == p) ≡ true = ground arith in rw e refl

write_other : (m : ℕ → ℕ) (p v q : ℕ) → q ≢ p → write m p v q ≡ m q
write_other m p v q ne = let e : (q == p) ≡ false = ground (arith, ne) in rw e refl

copy_bytes-IsCopied :
    (dst src n : ℕ) (m : ℕ → ℕ)
    → (dst ≤ src) ⊎ (src + n ≤ dst)
    → IsCopied m (copy_bytes dst src n m) dst src n
unfolding copy_bytes
copy_bytes-IsCopied dst src zero m apart = record {
  copied = λ i h. absurd (omega (arith, h));
  kept = λ q h. refl;
}
copy_bytes-IsCopied dst src (suc n) m apart =
    let m1 = write m dst (m src) in
    let apart' : (dst + 1 ≤ src + 1) ⊎ (src + 1 + n ≤ dst + 1) = elim apart [
      | inl h ↦ inl (omega (arith, h))
      | inr h ↦ inr (omega (arith, h))
    ] in
    let ih = copy_bytes-IsCopied (dst + 1) (src + 1) n m1 apart' in
    let read : (i : ℕ) → i < n → m1 (src + 1 + i) ≡ m (src + 1 + i) = λ i h.
      write_other m dst (m src) (src + 1 + i)
        (elim apart [ inl l ↦ omega (arith, l) | inr l ↦ omega (arith, l, h) ]) in
    record {
      copied = elim [
        | zero ↦ λ h.
            let here : dst + 0 ≡ dst = omega arith in
            let there : src + 0 ≡ src = omega arith in
            rw (here, there) (ih.kept dst (inl (omega arith)) ∙ write_same m dst (m src))
        | suc i ↦ λ h.
            let l : i < n = omega (arith, h) in
            let here : dst + suc i ≡ dst + 1 + i = omega arith in
            let there : src + suc i ≡ src + 1 + i = omega arith in
            rw (here, there) (ih.copied i l ∙ read i l)
      ];
      kept = λ q h.
          ih.kept q (elim h [ inl l ↦ inl (omega (arith, l)) | inr l ↦ inr (omega (arith, l)) ])
          ∙ write_other m dst (m src) q
              (elim h [ inl l ↦ omega (arith, l) | inr l ↦ omega (arith, l) ]);
    }

-- When the target starts no later than the source, overlapping it or not, or no earlier than its end:
-- `memcpy` returns the target, to which it has copied what the source held before, and changes no other
-- byte.
memcpy-IsCopied :
    (dst src n : ℕ) (m : ℕ → ℕ)
    → (dst ≤ src) ⊎ (src + n ≤ dst)
    → ((memcpy dst src n m).0 ≡ dst) × IsCopied m (memcpy dst src n m).1 dst src n
unfolding memcpy
memcpy-IsCopied dst src n m apart = (refl, copy_bytes-IsCopied dst src n m apart)
