-- ===== src/Log/Render.antt =====
-- Formats of `kvprintf` as texts with conversions, and what they print item by item.
use chypervisor.Prelude.{ℕ, zero, suc, ◌+◌, ◌-◌, ◌*◌, ◌≤◌, ◌<◌, ◌^◌, ◌≡◌, ◌≢◌, refl, ap, ◌∙◌, arith}
use chypervisor.Prelude.{
  Bool, true, false, Option, none, some, List, [], ◌∷◌, ◌++◌, leb, ltb, ◌==◌, ◌&&◌,
}
use chypervisor.Prelude.Texts.{Bytes, length, length-append}
use mathlib.Core.List.{append_assoc}
use chypervisor.Log.Format.{
  Arg, Len, len_def, len_z, len_l, len_ll, take_flags, take_width, take_length, take_second_l,
}
use chypervisor.Log.Format.{convert, directive, then_run, plain, kvprintf_from, kvprintf}

-- The conversions that have a case in the code, by what they print.
pub data Conv : Type 0 where
  char_conv str_conv dec_conv int_conv uns_conv hex_conv cap_conv ptr_conv percent_conv : Conv

abbrev pub letter : Conv → ℕ
letter char_conv = b'c'
letter str_conv = b's'
letter dec_conv = b'd'
letter int_conv = b'i'
letter uns_conv = b'u'
letter hex_conv = b'x'
letter cap_conv = b'X'
letter ptr_conv = b'p'
letter percent_conv = b'%'

pub data Item : Type 0 where
  literal : ℕ → Item
  spec : Bool → Bytes → Len → Conv → Item

abbrev pub show_len : Len → Bytes
show_len len_def = []
show_len len_z = b'z' ∷ []
show_len len_l = b'l' ∷ []
show_len len_ll = b'l' ∷ b'l' ∷ []

abbrev pub show_flag : Bool → Bytes
show_flag true = b'0' ∷ []
show_flag false = []

-- A conversion is written with its flag, its width, its length modifier and its letter.
abbrev pub show_item : Item → Bytes
show_item (literal c) = c ∷ []
show_item (spec zero_pad width len k) =
    b'%' ∷ (show_flag zero_pad ++ (width ++ (show_len len ++ (letter k ∷ []))))

abbrev pub show : List Item → Bytes
show [] = []
show (i ∷ items) = show_item i ++ show items

abbrev pub is_digit : ℕ → Bool
is_digit c = leb b'0' c && leb c b'9'

abbrev pub AllDigits : Bytes → Type 0
AllDigits [] = Unit
AllDigits (c ∷ s) = (is_digit c ≡ true) × AllDigits s

abbrev pub IsWidth : Bytes → Type 0
IsWidth [] = Unit
IsWidth (c ∷ s) = (c ≢ b'0') × AllDigits (c ∷ s)

abbrev pub IsLetter : ℕ → Type 0
IsLetter c = (is_digit c ≡ false) × (c ≢ b'z') × (c ≢ b'l')

pub letter-IsLetter : (k : Conv) → IsLetter (letter k)
letter-IsLetter char_conv = (refl, omega arith, omega arith)
letter-IsLetter str_conv = (refl, omega arith, omega arith)
letter-IsLetter dec_conv = (refl, omega arith, omega arith)
letter-IsLetter int_conv = (refl, omega arith, omega arith)
letter-IsLetter uns_conv = (refl, omega arith, omega arith)
letter-IsLetter hex_conv = (refl, omega arith, omega arith)
letter-IsLetter cap_conv = (refl, omega arith, omega arith)
letter-IsLetter ptr_conv = (refl, omega arith, omega arith)
letter-IsLetter percent_conv = (refl, omega arith, omega arith)

-- The number that decimal digits add to one before them.
abbrev pub decimal : ℕ → Bytes → ℕ
decimal acc [] = acc
decimal acc (c ∷ s) = decimal (acc * 10 + (c - b'0')) s

abbrev pub IsItem : Item → Type 0
IsItem (literal c) = c ≢ b'%'
IsItem (spec zero_pad width len k) = IsWidth width × (decimal 0 width < 2 ^ 31)

abbrev pub AllItems : List Item → Type 0
AllItems [] = Unit
AllItems (i ∷ items) = IsItem i × AllItems items

abbrev pub print_item : Item → List Arg → Option (Bytes × List Arg)
print_item (literal c) args = some (plain c, args)
print_item (spec zero_pad width len k) args = convert (letter k) zero_pad (decimal 0 width) len args

-- The items print one after another, each with the arguments that those before it have left.
abbrev pub print_items : List Item → List Arg → Option Bytes
print_items [] args = some []
print_items (i ∷ items) args = then_run (print_items items) (print_item i args)

take_length-show_len :
    (len : Len) (c : ℕ) (p : Bytes)
    → IsLetter c
    → take_length (show_len len ++ (c ∷ p)) ≡ (len, c ∷ p)
unfolding take_length take_second_l
take_length-show_len len_def c p (d, nz, nl) =
    let z : (c == b'z') ≡ false = ground (arith, nz) in
    let l : (c == b'l') ≡ false = ground (arith, nl) in rw (z, l) refl
take_length-show_len len_z c p h = refl
take_length-show_len len_l c p (d, nz, nl) =
    let l : (c == b'l') ≡ false = ground (arith, nl) in rw l refl
take_length-show_len len_ll c p h = refl

decimal-bound : (acc : ℕ) (width : Bytes) → acc ≤ decimal acc width
decimal-bound acc [] = omega arith
decimal-bound acc (x ∷ width) = omega (arith, decimal-bound (acc * 10 + (x - b'0')) width)

take_width-digits :
    (acc : ℕ) (width : Bytes) (len : Len) (c : ℕ) (p : Bytes)
    → AllDigits width
    → decimal acc width < 2 ^ 31
    → IsLetter c
    → take_width acc (width ++ (show_len len ++ (c ∷ p)))
      ≡ some (decimal acc width, show_len len ++ (c ∷ p))
unfolding take_width
take_width-digits acc [] len_def c p u small (d, nz, nl) = rw d refl
take_width-digits acc [] len_z c p u small h = refl
take_width-digits acc [] len_l c p u small h = refl
take_width-digits acc [] len_ll c p u small h = refl
take_width-digits acc (x ∷ width) len c p (d, ds) small h =
    let next = acc * 10 + (x - b'0') in
    let fits : ltb next (2 ^ 31) ≡ true = ground (arith, decimal-bound next width, small) in
    rw (d, fits) (take_width-digits next width len c p ds small h)

take_flags-width :
    (zero_pad : Bool) (width : Bytes) (len : Len) (c : ℕ) (p : Bytes)
    → IsWidth width
    → IsLetter c
    → let rest = width ++ (show_len len ++ (c ∷ p)) in take_flags zero_pad rest ≡ (zero_pad, rest)
unfolding take_flags
take_flags-width zero_pad (x ∷ width) len c p (ne, ds) h =
    let other : (x == b'0') ≡ false = ground (arith, ne) in rw other refl
take_flags-width zero_pad [] len_def c p u (d, nz, nl) =
    let other : (c == b'0') ≡ false = ground (arith, d) in rw other refl
take_flags-width zero_pad [] len_z c p u h = refl
take_flags-width zero_pad [] len_l c p u h = refl
take_flags-width zero_pad [] len_ll c p u h = refl

take_flags-show_flag :
    (zero_pad : Bool) (width : Bytes) (len : Len) (c : ℕ) (p : Bytes)
    → IsWidth width
    → IsLetter c
    → let rest = width ++ (show_len len ++ (c ∷ p)) in
      take_flags false (show_flag zero_pad ++ rest) ≡ (zero_pad, rest)
unfolding take_flags
take_flags-show_flag true width len c p w h = take_flags-width true width len c p w h
take_flags-show_flag false width len c p w h = take_flags-width false width len c p w h

width_digits : (width : Bytes) → IsWidth width → AllDigits width
width_digits [] u = u
width_digits (c ∷ s) (ne, ds) = ds

-- The parser of a conversion finds what was written.
directive-show_item :
    (run : Bytes → List Arg → Option Bytes) (zero_pad : Bool) (width : Bytes) (len : Len) (c : ℕ)
    (p : Bytes) (args : List Arg)
    → IsWidth width
    → decimal 0 width < 2 ^ 31
    → IsLetter c
    → directive run (show_flag zero_pad ++ (width ++ (show_len len ++ (c ∷ p)))) args
      ≡ then_run (run p) (convert c zero_pad (decimal 0 width) len args)
directive-show_item run zero_pad width len c p args w small h =
    rw
      (
        take_flags-show_flag zero_pad width len c p w h,
        take_width-digits 0 width len c p (width_digits width w) small h,
        take_length-show_len len c p h,
      )
      refl

then_run-cong :
    (run run' : List Arg → Option Bytes) (o : Option (Bytes × List Arg))
    → ((left : List Arg) → run left ≡ run' left)
    → then_run run o ≡ then_run run' o
then_run-cong run run' none h = refl
then_run-cong run run' (some (out, left)) h = rw (h left) refl

show_spec-append :
    (zero_pad : Bool) (width : Bytes) (len : Len) (k : Conv) (p : Bytes)
    → show_item (spec zero_pad width len k) ++ p
      ≡ b'%' ∷ (show_flag zero_pad ++ (width ++ (show_len len ++ (letter k ∷ p))))
show_spec-append zero_pad width len k p =
    ap (λ t. b'%' ∷ t)
      (append_assoc (show_flag zero_pad) (width ++ (show_len len ++ (letter k ∷ []))) p
        ∙ ap (λ t. show_flag zero_pad ++ t)
            (append_assoc width (show_len len ++ (letter k ∷ [])) p
              ∙ ap (λ t. width ++ t) (append_assoc (show_len len) (letter k ∷ []) p)))

kvprintf_from-show :
    (fuel : ℕ) (items : List Item) (args : List Arg)
    → AllItems items
    → length (show items) ≤ fuel
    → kvprintf_from fuel (show items) args ≡ print_items items args
unfolding kvprintf_from
kvprintf_from-show fuel [] args u h = refl
kvprintf_from-show zero (literal c ∷ items) args (ok, all) h = absurd (omega arith)
kvprintf_from-show (suc fuel) (literal c ∷ items) args (ok, all) h =
    let other : (c == b'%') ≡ false = ground (arith, ok) in
    rw other (
      then_run-cong (kvprintf_from fuel (show items)) (print_items items) (some (plain c, args))
        (λ left. kvprintf_from-show fuel items left all (omega arith)))
kvprintf_from-show zero (spec zero_pad width len k ∷ items) args (w, all) h = absurd (omega arith)
kvprintf_from-show (suc fuel) (spec zero_pad width len k ∷ items) args ((w, small), all) h =
    let p = show items in
    let c = letter k in
    let shorter : length p ≤ fuel =
      omega
        (arith, length-append (show_flag zero_pad ++ (width ++ (show_len len ++ (c ∷ [])))) p, h) in
    ap (λ t. kvprintf_from (suc fuel) t args) (show_spec-append zero_pad width len k p)
    ∙ directive-show_item (kvprintf_from fuel) zero_pad width len c p args w small
        (letter-IsLetter k)
    ∙ then_run-cong (kvprintf_from fuel p) (print_items items)
        (convert c zero_pad (decimal 0 width) len args)
        (λ left. kvprintf_from-show fuel items left all shorter)

-- The loop prints the items of a format in order.
pub kvprintf-items :
    (items : List Item) (args : List Arg)
    → AllItems items
    → kvprintf (show items) args ≡ print_items items args
unfolding kvprintf
kvprintf-items items args all =
    kvprintf_from-show (length (show items)) items args all (omega arith)
