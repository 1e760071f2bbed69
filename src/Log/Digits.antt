-- ===== src/Log/Digits.antt =====
-- The numbers that log.c prints, read back.
use chypervisor.Prelude.{
  ℕ, zero, suc, ◌+◌, ◌-◌, ◌*◌, ◌/◌, ◌%◌, ◌^◌, ◌<◌, ◌≤◌, ◌≡◌, ◌≢◌, refl, sym, ap, ◌∙◌, arith,
}
use chypervisor.Prelude.{
  Bool, true, false, Option, none, some, [], ◌∷◌, ◌++◌, ltb, ◌==◌, if◌then◌else◌, ◌>>=◌,
}
use chypervisor.Prelude.{◌⊎◌, inl, inr, Bool-cases, if_all, ==→eq, ==→ne}
use chypervisor.Prelude.Texts.{Bytes, length, replicate}
use native.Mathlib.Nat.{div-add-mod', pow-suc}
use chypervisor.Log.{digit, store_digits, write_uint_padded}

-- The value of a digit in either case.
abbrev pub digit_value : ℕ → ℕ
digit_value c =
    if ltb c (b'9' + 1)
    then c - b'0'
    else (if ltb c (b'F' + 1) then c - b'A' + 10 else c - b'a' + 10)

-- What digits add to a number whose digits come before them.
abbrev pub value_onto : ℕ → ℕ → Bytes → ℕ
value_onto base acc [] = acc
value_onto base acc (c ∷ s) = value_onto base (acc * base + digit_value c) s

-- A text is the number `v`: its digits say so, and the first is 0 only for the number 0, by itself.
pub record IsNumeral (base v : ℕ) (out : Bytes) : Type 0 where
  pub value : value_onto base 0 out ≡ v
  pub first : (out ≡ b'0' ∷ []) ⊎ ((c : ℕ) × (s : Bytes) × (out ≡ c ∷ s) × (c ≢ b'0'))

digit_value-digit : (up : Bool) (d : ℕ) → d < 16 → digit_value (digit up d) ≡ d
digit_value-digit true d h = ground arith
digit_value-digit false d h = ground arith

digit-ne_zero : (up : Bool) (d : ℕ) → d < 16 → d ≢ 0 → digit up d ≢ b'0'
digit-ne_zero true d h ne e = ground (arith, ne, e)
digit-ne_zero false d h ne e = ground (arith, ne, e)

abbrev pub IsBase : ℕ → Type 0
IsBase base = (base ≡ 10) ⊎ (base ≡ 16)

quotient_small : (base v room : ℕ) → IsBase base → v < 8 ^ suc room → v / base < 8 ^ room
quotient_small base v room (inl e) h = rw e (omega (arith, pow-suc 8 room))
quotient_small base v room (inr e) h = rw e (omega (arith, pow-suc 8 room))

remainder_small : (base v : ℕ) → IsBase base → v % base < 16
remainder_small base v (inl e) = rw e (omega arith)
remainder_small base v (inr e) = rw e (omega arith)

module _ (base : ℕ) (up : Bool) (is_base : IsBase base) where
  -- What the loop leaves in `tmp`, before what was there.
  abbrev Stored : ℕ → Bytes → Option Bytes → Type 0
  Stored v tmp none = ⊥
  Stored v tmp (some out) =
      (value_onto base 0 out ≡ value_onto base v tmp)
      × ((v ≡ 0) × (out ≡ b'0' ∷ tmp) ⊎ ((c : ℕ) × (s : Bytes) × (out ≡ c ∷ s) × (c ≢ b'0')))

  next_digit :
      (v : ℕ) (tmp : Bytes)
      → value_onto base (v / base) (digit up (v % base) ∷ tmp) ≡ value_onto base v tmp
  next_digit v tmp =
      let d = digit_value-digit up (v % base) (remainder_small base v is_base) in
      let whole : v / base * base + digit_value (digit up (v % base)) ≡ v =
        omega (arith, d, div-add-mod' v base) in
      ap (λ n. value_onto base n tmp) whole

  Stored-next :
      (v : ℕ) (tmp : Bytes) (o : Option Bytes)
      → v / base ≢ 0
      → Stored (v / base) (digit up (v % base) ∷ tmp) o
      → Stored v tmp o
  Stored-next v tmp none more h = h
  Stored-next v tmp (some out) more (value, inl (zero_left, e)) = absurd (more zero_left)
  Stored-next v tmp (some out) more (value, inr first) = (value ∙ next_digit v tmp, inr first)

  store_digits-Stored :
      (room v : ℕ) (tmp : Bytes)
      → v < 8 ^ room
      → (v ≢ 0) ⊎ (0 < room)
      → Stored v tmp (store_digits room v base up tmp)
  unfolding store_digits
  store_digits-Stored zero v tmp h (inl ne) = ne (omega arith)
  store_digits-Stored zero v tmp h (inr some_room) = omega (arith, some_room)
  store_digits-Stored (suc room) v tmp h some_room =
      let stored = digit up (v % base) ∷ tmp in
      let below = quotient_small base v room is_base h in
      let small = remainder_small base v is_base in
      if_all (Stored v tmp) (v / base == 0) (some stored)
        (store_digits room (v / base) base up stored)
        (λ last.
          let none_left = ==→eq (v / base) 0 last in
          let same : v % base ≡ v =
            omega (arith, div-add-mod' v base, ap (λ q. q * base) none_left) in
          (
            ap (λ q. value_onto base q stored) (sym none_left) ∙ next_digit v tmp,
            elim (Bool-cases (v == 0)) [
              | inl e ↦
                  let zero_digit : v % base ≡ 0 = same ∙ ==→eq v 0 e in
                  inl (==→eq v 0 e, rw zero_digit refl)
              | inr e ↦ inr (
                digit up (v % base),
                tmp,
                refl,
                digit-ne_zero up (v % base) small (λ z. ==→ne v 0 e (sym same ∙ z)),
              )
            ],
          ))
        (λ more.
          let ne = ==→ne (v / base) 0 more in
          Stored-next v tmp (store_digits room (v / base) base up stored) ne
            (store_digits-Stored room (v / base) stored below (inl ne)))

abbrev pub padding : ℕ → Bool → Bytes → Bytes
padding width zero_pad digits = replicate (width - length digits) (if zero_pad then b'0' else b' ')

-- What a numeric conversion must print: the numeral of `v`, behind as much padding as the width asks for.
pub record IsPrinted (base v width : ℕ) (zero_pad : Bool) (o : Option Bytes) : Type 0 where
  pub digits : Bytes
  pub numeral : IsNumeral base v digits
  pub whole : o ≡ some (padding width zero_pad digits ++ digits)

-- For a 64-bit number in base 10 or 16, the buffer of 32 bytes suffices, and the output is the numeral
-- of the number behind zeros or spaces as the flag says, as many as the width exceeds its digits.
pub write_uint_padded-IsPrinted :
    (base v width : ℕ) (zero_pad up : Bool)
    → (base ≡ 10) ⊎ (base ≡ 16)
    → v < 2 ^ 64
    → IsPrinted base v width zero_pad (write_uint_padded v base width zero_pad up)
unfolding write_uint_padded
write_uint_padded-IsPrinted base v width zero_pad up is_base small =
    let stored = store_digits-Stored base up is_base 32 v [] (omega arith) (inr (omega arith)) in
    elim (store_digits 32 v base up [])
        as (λ o.
          Stored base up is_base v [] o
          → IsPrinted base v width zero_pad (
              o >>= λ tmp. some (
                replicate (if ltb (length tmp) width then width - length tmp else 0)
                  (if zero_pad then b'0' else b' ')
                ++ tmp))) [
                  | none ↦ λ h. absurd h
                  | some out ↦ λ h.
                      let pad : (if ltb (length out) width then width - length out else 0)
                          ≡ width - length out =
                        ground arith in
                      record {
                        digits = out;
                        numeral = record {
                          value = h.0;
                          first = elim h.1 [ inl (z, e) ↦ inl e | inr x ↦ inr x ];
                        };
                        whole = rw pad refl;
                      }
                ]
      stored

-- What a signed conversion prints of a 64-bit word: a number below 2^63 as it is, and otherwise a minus
-- sign, then the numeral of the negated number within one place less.
abbrev pub IsSignedPrinted : ℕ → ℕ → Bool → Option Bytes → Type 0
IsSignedPrinted x width zero_pad o =
    (x < 2 ^ 63 → IsPrinted 10 x width zero_pad o)
    × (2 ^ 63 ≤ x
        → (out : Bytes) × (o ≡ some (b'-' ∷ out))
          × IsPrinted 10 (2 ^ 64 - x) (width - 1) zero_pad (some out))
