-- ===== src/Log/Shown.antt =====
-- What a format of log.c must print, stated apart from the code.
use chypervisor.Prelude.{ℕ, ◌-◌, ◌+◌, ◌%◌, ◌^◌, ◌≤◌, ◌<◌, ◌≡◌}
use chypervisor.Prelude.{
  Bool, true, false, ltb, ◌||◌, none, some, List, [], ◌∷◌, ◌++◌, ◌==◌, if◌then◌else◌, ◌⊎◌,
}
use chypervisor.Prelude.Texts.{Bytes, codes}
use chypervisor.Log.Digits.{IsPrinted, IsSignedPrinted}
use chypervisor.Log.Format.{Arg, word, text, Len, len_def, len_z, len_l, len_ll}
use chypervisor.Log.Render.{
  Item, literal, spec, Conv, char_conv, str_conv, dec_conv, int_conv, uns_conv, hex_conv, cap_conv,
  ptr_conv, percent_conv, decimal,
}

-- A text with a carriage return before each line feed.
abbrev pub with_returns : Bytes → Bytes
with_returns [] = []
with_returns (c ∷ s) = (if c == 10 then 13 ∷ 10 ∷ [] else c ∷ []) ++ with_returns s

-- The bits of an integer argument.
abbrev pub bits_of : Len → ℕ
bits_of len_def = 32
bits_of len_z = 64
bits_of len_l = 64
bits_of len_ll = 64

-- The word `x` is the sign extension of the low `bits` of `v`.
pub record IsExtended (bits v x : ℕ) : Type 0 where
  pub positive : v % 2 ^ bits < 2 ^ (bits - 1) → x ≡ v % 2 ^ bits
  pub negative : 2 ^ (bits - 1) ≤ v % 2 ^ bits → x ≡ (2 ^ 64 - 2 ^ bits) + v % 2 ^ bits

-- The argument a conversion asks for.
pub data Want : Type 0 where
  nothing a_word a_text : Want

abbrev pub want : Conv → Want
want char_conv = a_word
want str_conv = a_text
want dec_conv = a_word
want int_conv = a_word
want uns_conv = a_word
want hex_conv = a_word
want cap_conv = a_word
want ptr_conv = a_word
want percent_conv = nothing

abbrev pub Suits : Want → List Arg → Type 0
Suits nothing args = Unit
Suits a_word [] = ⊥
Suits a_word (word v ∷ args) = Unit
Suits a_word (text s ∷ args) = ⊥
Suits a_text [] = ⊥
Suits a_text (word v ∷ args) = ⊥
Suits a_text (text s ∷ args) = Unit

abbrev pub after : Want → List Arg → List Arg
after nothing args = args
after a_word [] = []
after a_word (a ∷ args) = args
after a_text [] = []
after a_text (a ∷ args) = args

-- Each conversion finds an argument of its kind.
abbrev pub Suit : List Item → List Arg → Type 0
Suit [] args = Unit
Suit (literal c ∷ items) args = Suit items args
Suit (spec zero_pad width len k ∷ items) args =
    Suits (want k) args × Suit items (after (want k) args)

abbrev pub IsSigned : Bool → ℕ → Len → List Arg → Bytes → Type 0
IsSigned zero_pad width len args out =
    (v : ℕ) × (left : List Arg) × (x : ℕ) × (args ≡ word v ∷ left)
    × IsExtended (bits_of len) v x
    × IsSignedPrinted x width zero_pad (some out)

abbrev pub IsUnsigned : ℕ → Bool → ℕ → Len → List Arg → Bytes → Type 0
IsUnsigned base zero_pad width len args out =
    (v : ℕ) × (left : List Arg) × (args ≡ word v ∷ left)
    × IsPrinted base (v % 2 ^ bits_of len) width zero_pad (some out)

-- No byte is a letter of the other case.
abbrev pub is_case : Bool → ℕ → Bool
is_case true c = ltb c 97
is_case false c = ltb c 65 || ltb 90 c

abbrev pub IsCase : Bool → Bytes → Type 0
IsCase up [] = Unit
IsCase up (c ∷ s) = (is_case up c ≡ true) × IsCase up s

abbrev pub IsHex : Bool → Bool → ℕ → Len → List Arg → Bytes → Type 0
IsHex up zero_pad width len args out = IsUnsigned 16 zero_pad width len args out × IsCase up out

-- What a conversion prints of its argument.
abbrev pub Shows : Conv → Bool → ℕ → Len → List Arg → Bytes → Type 0
Shows char_conv zero_pad width len args out =
    (v : ℕ) × (left : List Arg) × (args ≡ word v ∷ left) × (out ≡ v % 256 ∷ [])
Shows str_conv zero_pad width len args out =
    ((left : List Arg) × (args ≡ text none ∷ left) × (out ≡ codes "(null)"))
    ⊎ ((s : Bytes) × (left : List Arg) × (args ≡ text (some s) ∷ left) × (out ≡ with_returns s))
Shows dec_conv zero_pad width len args out = IsSigned zero_pad width len args out
Shows int_conv zero_pad width len args out = IsSigned zero_pad width len args out
Shows uns_conv zero_pad width len args out = IsUnsigned 10 zero_pad width len args out
Shows hex_conv zero_pad width len args out = IsHex false zero_pad width len args out
Shows cap_conv zero_pad width len args out = IsHex true zero_pad width len args out
Shows ptr_conv zero_pad width len args out =
    (v : ℕ) × (left : List Arg) × (digits : Bytes) × (args ≡ word v ∷ left)
    × (out ≡ codes "0x" ++ digits)
    × IsPrinted 16 (v % 2 ^ 64) 16 true (some digits)
Shows percent_conv zero_pad width len args out = out ≡ codes "%"

-- What the items of a format print one after another, each with the arguments that those before it left.
abbrev pub Prints : List Item → List Arg → Bytes → Type 0
Prints [] args out = out ≡ []
Prints (literal c ∷ items) args out =
    (t : Bytes) × (out ≡ with_returns (c ∷ []) ++ t) × Prints items args t
Prints (spec zero_pad width len k ∷ items) args out =
    (s : Bytes) × (t : Bytes) × (out ≡ s ++ t)
    × Shows k zero_pad (decimal 0 width) len args s
    × Prints items (after (want k) args) t
