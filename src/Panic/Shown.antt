-- ===== src/Panic/Shown.antt =====
-- What a format of panic.c must print, stated apart from the code.
use chypervisor.Prelude.{ℕ, zero, suc, ◌-◌, ◌%◌, ◌^◌, ◌≤◌, ◌≡◌, ◌≢◌, ◌⊎◌}
use chypervisor.Prelude.{none, some, false, true, List, [], ◌∷◌, ◌++◌, ◌==◌, if◌then◌else◌}
use chypervisor.Prelude.Texts.{Bytes, codes, replicate}
use chypervisor.Log.Digits.{IsPrinted, IsSignedPrinted}
use chypervisor.Log.Format.{Arg, word, text}
use chypervisor.Log.Render.{
  Conv, char_conv, str_conv, dec_conv, int_conv, uns_conv, hex_conv, cap_conv, ptr_conv,
  percent_conv, letter,
}
use chypervisor.Log.Shown.{IsExtended, IsCase, Want, nothing, a_word, a_text, Suits, after}
use chypervisor.Panic.Format.{take}

-- A byte, or a conversion with the number of 'l' before its letter.
pub data Item : Type 0 where
  byte : ℕ → Item
  conv : ℕ → Conv → Item

abbrev pub show_item : Item → Bytes
show_item (byte c) = c ∷ []
show_item (conv longcnt k) = b'%' ∷ (replicate longcnt b'l' ++ (letter k ∷ []))

abbrev pub show : List Item → Bytes
show [] = []
show (i ∷ items) = show_item i ++ show items

abbrev pub AllItems : List Item → Type 0
AllItems [] = Unit
AllItems (byte c ∷ items) = (c ≢ b'%') × AllItems items
AllItems (conv longcnt k ∷ items) = (longcnt ≤ 2) × AllItems items

-- The argument a conversion asks for; `%i` is no conversion here.
abbrev pub want : Conv → Want
want char_conv = a_word
want str_conv = a_text
want dec_conv = a_word
want int_conv = nothing
want uns_conv = a_word
want hex_conv = a_word
want cap_conv = a_word
want ptr_conv = a_word
want percent_conv = nothing

abbrev pub Suit : List Item → List Arg → Type 0
Suit [] args = Unit
Suit (byte c ∷ items) args = Suit items args
Suit (conv longcnt k ∷ items) args = Suits (want k) args × Suit items (after (want k) args)

-- The bits of an integer argument.
abbrev pub bits_of : ℕ → ℕ
bits_of zero = 32
bits_of (suc longcnt) = 64

abbrev pub IsUnsigned : ℕ → ℕ → List Arg → Bytes → Type 0
IsUnsigned base longcnt args out =
    (v : ℕ) × (left : List Arg) × (args ≡ word v ∷ left)
    × IsPrinted base (v % 2 ^ bits_of longcnt) 0 false (some out)

-- What a conversion prints of its argument.
abbrev pub Shows : Conv → ℕ → List Arg → Bytes → Type 0
Shows char_conv longcnt args out =
    (v : ℕ) × (left : List Arg) × (args ≡ word v ∷ left) × (out ≡ v % 256 ∷ [])
Shows str_conv longcnt args out =
    ((left : List Arg) × (args ≡ text none ∷ left) × (out ≡ codes "(null)"))
    ⊎ ((left : List Arg) × (args ≡ text (some out) ∷ left))
Shows dec_conv longcnt args out =
    (v : ℕ) × (left : List Arg) × (x : ℕ) × (args ≡ word v ∷ left)
    × IsExtended (bits_of longcnt) v x
    × IsSignedPrinted x 0 false (some out)
Shows int_conv longcnt args out = out ≡ codes "%i"
Shows uns_conv longcnt args out = IsUnsigned 10 longcnt args out
Shows hex_conv longcnt args out = IsUnsigned 16 longcnt args out × IsCase false out
Shows cap_conv longcnt args out = IsUnsigned 16 longcnt args out × IsCase true out
Shows ptr_conv longcnt args out =
    (v : ℕ) × (left : List Arg) × (digits : Bytes) × (args ≡ word v ∷ left)
    × (out ≡ codes "0x" ++ digits)
    × IsPrinted 16 (v % 2 ^ 64) 0 false (some digits)
Shows percent_conv longcnt args out = out ≡ codes "%"

-- What the items of a format print one after another, each with the arguments that those before it left.
abbrev pub Prints : List Item → List Arg → Bytes → Type 0
Prints [] args out = out ≡ []
Prints (byte c ∷ items) args out = (t : Bytes) × (out ≡ c ∷ t) × Prints items args t
Prints (conv longcnt k ∷ items) args out =
    (s : Bytes) × (t : Bytes) × (out ≡ s ++ t)
    × Shows k longcnt args s
    × Prints items (after (want k) args) t

-- What a buffer of `cap` bytes holds of a text: as much as fits before the terminator, and that.
abbrev pub held : ℕ → Bytes → Bytes
held cap s = if cap == 0 then [] else take (cap - 1) s ++ 0 ∷ []
