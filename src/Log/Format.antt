-- ===== src/Log/Format.antt =====
-- `kvprintf` and the functions around it (log.c), and `serial_write` (serial.c).
use chypervisor.Prelude.{
  ℕ, zero, suc, ◌+◌, ◌-◌, ◌*◌, ◌%◌, ◌^◌, Bool, true, false, Option, none, some,
}
use chypervisor.Prelude.{List, [], ◌∷◌, ◌++◌, ltb, leb, ◌==◌, if◌then◌else◌, ◌>>=◌, ◌&&◌, ◌||◌}
use chypervisor.Prelude.Texts.{Bytes, codes, length}
use chypervisor.Log.{write_uint_padded, write_int_padded}

-- A text with a carriage return before each line feed: the loop of `serial_write`, and of `%s`.
unfoldable pub serial_write : Bytes → Bytes
serial_write [] = []
serial_write (c ∷ s) =
    let rest = serial_write s in if c == b'\n' then b'\r' ∷ c ∷ rest else c ∷ rest

unfoldable pub serial_writeln : Bytes → Bytes
serial_writeln s = serial_write s ++ serial_write (b'\r' ∷ b'\n' ∷ [])

-- The loop that measures `scope`, up to 7 bytes, and the byte that it stops at, 0 at the terminator.
abbrev pub measure : ℕ → Bytes → ℕ × ℕ
measure left [] = (0, 0)
measure zero (c ∷ s) = (0, c)
measure (suc left) (c ∷ s) = let (len, stop) = measure left s in (suc len, stop)

-- The loop that fills `buf[0 .. 7)`.
abbrev pub fill_scope : ℕ → Bytes → Bytes
fill_scope zero s = []
fill_scope (suc left) [] = b' ' ∷ fill_scope left []
fill_scope (suc left) (c ∷ s) = c ∷ fill_scope left s

-- `buf` without its terminator; a null `scope` is `none`.
unfoldable pub scope_buffer : Option Bytes → Bytes
scope_buffer none = fill_scope 7 (codes "global") ++ codes " | "
scope_buffer (some scope) =
    let (len, stop) = measure 7 scope in
    fill_scope 7 scope ++ (if stop == 0 then codes " | " else codes "-| ")

unfoldable pub write_scope_field : Option Bytes → Bytes
write_scope_field scope = serial_write (scope_buffer scope)

-- The arguments that `va_arg` takes in turn: a word of 64 bits, or a text that may be null.
pub data Arg : Type 0 where
  word : ℕ → Arg
  text : Option Bytes → Arg

pub data Len : Type 0 where
  len_def len_z len_l len_ll : Len

-- The loop over the flags: whether there was a '0', and the rest of the format.
unfoldable pub take_flags : Bool → Bytes → Bool × Bytes
take_flags zero_pad [] = (zero_pad, [])
take_flags zero_pad (c ∷ p) =
    let rest = take_flags true p in if c == b'0' then rest else (zero_pad, c ∷ p)

-- The loop over the digits of the width, an `int` that overflows at 2^31.
unfoldable pub take_width : ℕ → Bytes → Option (ℕ × Bytes)
take_width width [] = some (width, [])
take_width width (c ∷ p) =
    let next = width * 10 + (c - b'0') in
    let rest = take_width next p in
    if leb b'0' c && leb c b'9'
    then (if ltb next (2 ^ 31) then rest else none)
    else some (width, c ∷ p)

unfoldable pub take_second_l : Bytes → Len × Bytes
take_second_l [] = (len_l, [])
take_second_l (c ∷ p) = if c == b'l' then (len_ll, p) else (len_l, c ∷ p)

unfoldable pub take_length : Bytes → Len × Bytes
take_length [] = (len_def, [])
take_length (c ∷ p) =
    if c == b'z' then (len_z, p) else (if c == b'l' then take_second_l p else (len_def, c ∷ p))

-- An `int` is the low half of its word, with its sign; the other types are whole words.
abbrev pub signed_arg : Len → ℕ → ℕ
signed_arg len_def w =
    let low = w % 2 ^ 32 in if ltb low (2 ^ 31) then low else low + (2 ^ 64 - 2 ^ 32)
signed_arg len_z w = w % 2 ^ 64
signed_arg len_l w = w % 2 ^ 64
signed_arg len_ll w = w % 2 ^ 64

abbrev pub unsigned_arg : Len → ℕ → ℕ
unsigned_arg len_def w = w % 2 ^ 32
unsigned_arg len_z w = w % 2 ^ 64
unsigned_arg len_l w = w % 2 ^ 64
unsigned_arg len_ll w = w % 2 ^ 64

abbrev pub take_word : List Arg → Option (ℕ × List Arg)
take_word [] = none
take_word (word w ∷ rest) = some (w, rest)
take_word (text s ∷ rest) = none

abbrev pub take_text : List Arg → Option (Option Bytes × List Arg)
take_text [] = none
take_text (word w ∷ rest) = none
take_text (text s ∷ rest) = some (s, rest)

abbrev pub shown_text : Option Bytes → Bytes
shown_text none = codes "(null)"
shown_text (some s) = serial_write s

-- A conversion that prints the word it takes.
abbrev pub with_word : (ℕ → Option Bytes) → List Arg → Option (Bytes × List Arg)
with_word print args = do (w, rest) ← take_word args; out ← print w; some (out, rest)

-- The `switch` on the conversion `c`.
unfoldable pub convert : ℕ → Bool → ℕ → Len → List Arg → Option (Bytes × List Arg)
convert c zero_pad width len args =
    if c == b'c'
    then with_word (λ w. some (w % 2 ^ 8 ∷ [])) args
    else (if c == b's'
        then (do (s, rest) ← take_text args; some (shown_text s, rest))
        else (if c == b'd' || c == b'i'
            then with_word (λ w. write_int_padded (signed_arg len w) width zero_pad) args
            else (if c == b'u'
                then with_word (λ w. write_uint_padded (unsigned_arg len w) 10 width zero_pad false)
                    args
                else (if c == b'x' || c == b'X'
                    then with_word
                        (λ w. write_uint_padded (unsigned_arg len w) 16 width zero_pad (c == b'X'))
                        args
                    else (if c == b'p'
                        then with_word
                            (λ w. do
                              out ← write_uint_padded (w % 2 ^ 64) 16 16 true false
                              some (codes "0x" ++ out))
                            args
                        else (if c == b'%'
                            then some (b'%' ∷ [], args)
                            else some (b'%' ∷ c ∷ [], args)))))))

-- What a piece of output and the run after it send.
abbrev pub then_run : (List Arg → Option Bytes) → Option (Bytes × List Arg) → Option Bytes
then_run run first = do (out, rest) ← first; more ← run rest; some (out ++ more)

-- The conversion at `p`. At the terminator the code prints it and then runs past it.
abbrev pub convert_at :
    (Bytes → List Arg → Option Bytes) → Bool → ℕ → Len × Bytes → List Arg → Option Bytes
convert_at run zero_pad width (len, []) args = none
convert_at run zero_pad width (len, c ∷ p) args =
    then_run (run p) (convert c zero_pad width len args)

abbrev pub directive : (Bytes → List Arg → Option Bytes) → Bytes → List Arg → Option Bytes
directive run p args =
    let (zero_pad, after_flags) = take_flags false p in
    take_width 0 after_flags
    >>= (λ (width, after_width). convert_at run zero_pad width (take_length after_width) args)

-- One byte of the format outside of a conversion.
abbrev pub plain : ℕ → Bytes
plain c = if c == b'\n' then b'\r' ∷ c ∷ [] else c ∷ []

-- The loop of `kvprintf`, with at most `fuel` rounds.
unfoldable pub kvprintf_from : ℕ → Bytes → List Arg → Option Bytes
kvprintf_from fuel [] args = some []
kvprintf_from zero (c ∷ p) args = none
kvprintf_from (suc fuel) (c ∷ p) args =
    let run = λ (q : Bytes) (left : List Arg). kvprintf_from fuel q left in
    if c == b'%' then directive run p args else then_run (run p) (some (plain c, args))

-- Each round consumes a byte of the format.
unfoldable pub kvprintf : Bytes → List Arg → Option Bytes
kvprintf fmt args = kvprintf_from (length fmt) fmt args
