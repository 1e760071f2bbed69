-- ===== src/Common.antt =====
-- kernel/common.c: the two memory routines, over memory as bytes by address. Words is kernel/bits.h.
pub mod Copy
pub mod Compare
pub mod Words
mod Tests
use chypervisor.Prelude.{ℕ, zero, suc, ◌+◌, ◌-◌, ◌^◌, ◌==◌, if◌then◌else◌, u32}
use chypervisor.Interrupt.Stubs.{write}

-- The loop of `memcpy`.
unfoldable pub copy_bytes : ℕ → ℕ → ℕ → (ℕ → ℕ) → ℕ → ℕ
copy_bytes dst src zero m = m
copy_bytes dst src (suc n) m = copy_bytes (dst + 1) (src + 1) n (write m dst (m src))

-- What it returns, and memory after it.
unfoldable pub memcpy : ℕ → ℕ → ℕ → (ℕ → ℕ) → ℕ × (ℕ → ℕ)
memcpy dst src n m = (dst, copy_bytes dst src n m)

-- The `int` that is returned is a 32-bit word in two's complement.
unfoldable pub memcmp : (ℕ → ℕ) → ℕ → ℕ → ℕ → ℕ
memcmp m a b zero = 0
memcmp m a b (suc n) =
    let rest = memcmp m (a + 1) (b + 1) n in if m a == m b then rest else u32 (2 ^ 32 + m a - m b)
