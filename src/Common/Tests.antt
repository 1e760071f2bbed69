-- ===== src/Common/Tests.antt =====
-- Runs of common.c.
use chypervisor.Prelude.{ℕ, ◌+◌, ◌%◌, ◌≡◌, refl, arith}
use chypervisor.Common.{memcpy, memcmp, copy_bytes}
use chypervisor.Common.Compare.{Orders, memcmp-Orders}

abbrev bytes : ℕ → ℕ
bytes q = (q + 250) % 256

-- Up by one, the first byte of the source is repeated.
memcpy_repeats : (memcpy 0x101 0x100 4 bytes).1 0x104 ≡ 250
unfolding memcpy copy_bytes
memcpy_repeats = refl

memcmp_negative : memcmp bytes 0 1 3 ≡ 0xFFFFFFFF
unfolding memcmp
memcmp_negative = refl

memcmp-Orders_example : Orders bytes 0 1 3 (memcmp bytes 0 1 3)
memcmp-Orders_example = memcmp-Orders bytes 0 1 3 (λ q. omega arith)
