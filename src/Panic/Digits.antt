-- ===== src/Panic/Digits.antt =====
-- The numbers of panic.c, against those of log.c.
use chypervisor.Prelude.{
  ℕ, zero, suc, ◌+◌, ◌-◌, ◌/◌, ◌%◌, ◌^◌, ◌<◌, ◌≡◌, ◌≢◌, refl, arith, inl, inr,
}
use chypervisor.Prelude.{
  Bool, true, false, none, some, [], ◌∷◌, ◌++◌, ◌==◌, ltb, ◌>>=◌, if◌then◌else◌, Bool-cases, ==→eq,
  ==→ne,
}
use chypervisor.Prelude.Texts.{Bytes, length, replicate}
use native.Mathlib.Nat.{pow-suc, pow-zero, div-lt_iff_lt-mul}
use chypervisor.Log.{digit, store_digits, write_uint_padded}
use chypervisor.Log.Digits.{IsPrinted, write_uint_padded-IsPrinted}
use chypervisor.Panic.{fill_digits, u64_to_hex, u_to_dec}

quotient_below : (base v room : ℕ) → 0 < base → v < base ^ suc room → v / base < base ^ room
quotient_below base v room h0 h = (div-lt_iff_lt-mul h0).1 (omega (arith, pow-suc base room, h))

fill_digits_zero :
    (room base : ℕ) (up : Bool) (buf : Bytes) → fill_digits room 0 base up buf ≡ some buf
unfolding fill_digits
fill_digits_zero zero base up buf = refl
fill_digits_zero (suc room) base up buf = refl

-- The loop of panic.c and that of log.c leave the same digits, where the room is enough.
fill_digits-store_digits :
    (room k v base : ℕ) (up : Bool) (buf : Bytes)
    → 0 < base
    → v < base ^ room
    → v ≢ 0
    → fill_digits room v base up buf ≡ store_digits (room + k) v base up buf
unfolding fill_digits store_digits
fill_digits-store_digits zero k v base up buf pos small ne =
    absurd (ne (omega (arith, small, pow-zero base)))
fill_digits-store_digits (suc room) k v base up buf pos small ne =
    let stored = digit up (v % base) ∷ buf in
    let shift : suc room + k ≡ suc (room + k) = omega arith in
    let more : (v == 0) ≡ false = ground (arith, ne) in
    let below : v / base < base ^ room = quotient_below base v room pos small in
    elim (Bool-cases (v / base == 0)) [
      | inl e ↦
          rw (shift, store_digits, more, e, ==→eq (v / base) 0 e)
            (fill_digits_zero room base up stored)
      | inr e ↦
          rw (shift, store_digits, more, e)
            (fill_digits-store_digits room k (v / base) base up stored pos below
              (==→ne (v / base) 0 e))
    ]

u_to_dec-store_digits : (v : ℕ) → v < 2 ^ 64 → u_to_dec v ≡ store_digits 32 v 10 false []
unfolding u_to_dec store_digits
u_to_dec-store_digits v small = elim (Bool-cases (v == 0)) [
  | inl e ↦ rw (==→eq v 0 e) refl
  | inr e ↦ rw e (
      fill_digits-store_digits 20 12 v 10 false [] (omega arith) (omega (arith, small))
        (==→ne v 0 e))
]

pub u64_to_hex-store_digits :
    (v : ℕ) (up : Bool) → v < 2 ^ 64 → u64_to_hex v up ≡ store_digits 32 v 16 up []
unfolding u64_to_hex store_digits
u64_to_hex-store_digits v up small = elim (Bool-cases (v == 0)) [
  | inl e ↦
      rw (==→eq v 0 e)
        (elim up as (λ b. some (b'0' ∷ []) ≡ some (digit b 0 ∷ [])) [ true ↦ refl | false ↦ refl ])
  | inr e ↦
      rw e (
        fill_digits-store_digits 16 16 v 16 up [] (omega arith) (omega (arith, small))
          (==→ne v 0 e))
]

-- Without a width, log.c pads nothing.
write_uint_padded_none :
    (v base : ℕ) (up : Bool) → write_uint_padded v base 0 false up ≡ store_digits 32 v base up []
unfolding write_uint_padded
write_uint_padded_none v base up =
    elim (store_digits 32 v base up [])
      as (λ o.
        (o >>= λ tmp.
        some (replicate (if ltb (length tmp) 0 then 0 - length tmp else 0) b' ' ++ tmp))
        ≡ o) [
          | none ↦ refl
          | some tmp ↦ let e : ltb (length tmp) 0 ≡ false = ground arith in rw e refl
        ]

-- The buffers of 20 and 16 bytes suffice for every 64-bit number, and the decimal and the hexadecimal output
-- of panic.c are its numerals, with no padding.
pub u_to_dec-IsPrinted :
    (v : ℕ) (up : Bool)
    → v < 2 ^ 64
    → IsPrinted 10 v 0 false (u_to_dec v) × IsPrinted 16 v 0 false (u64_to_hex v up)
u_to_dec-IsPrinted v up small = (
  rw (u_to_dec-store_digits v small) (
      rw (write_uint_padded_none v 10 false) at
        (write_uint_padded-IsPrinted 10 v 0 false false (inl refl) small)),
  rw (u64_to_hex-store_digits v up small) (
      rw (write_uint_padded_none v 16 up) at
        (write_uint_padded-IsPrinted 16 v 0 false up (inr refl) small)),
)
