-- ===== src/Log.antt =====
-- kernel/log.c and the text output of kernel/serial.c. A text is the list of its bytes before the
-- terminator, and what a function sends to the serial port is a list of bytes. `none` is a run that
-- the C standard leaves undefined: a store past the end of `tmp`, a read past the end of a format, or
-- an argument that is missing or of another kind than the format says.
mod Tests
pub mod Digits
pub mod Format
pub mod Render
pub mod Shown
pub mod Case
pub mod Print
pub mod Message
use chypervisor.Prelude.{
  ℕ, zero, suc, ◌+◌, ◌-◌, ◌*◌, ◌/◌, ◌%◌, ◌^◌, Bool, true, false, Option, none, some,
}
use chypervisor.Prelude.{List, [], ◌∷◌, ◌++◌, ltb, ◌==◌, if◌then◌else◌, ◌>>=◌, ◌&&◌, leb}
use chypervisor.Prelude.Texts.{Bytes, codes, length, replicate}

-- `digits[d]` for the digits in lower and upper case
abbrev pub digit : Bool → ℕ → ℕ
digit uppercase d =
    if ltb d 10 then b'0' + d else (if uppercase then b'A' + (d - 10) else b'a' + (d - 10))

-- The `do` loop of `write_uint_padded` with `room` bytes of `tmp` left. `tmp` is the list of the bytes
-- stored so far, the last one first, which is the order that the last loop sends them in.
unfoldable pub store_digits : ℕ → ℕ → ℕ → Bool → Bytes → Option Bytes
store_digits zero v base uppercase tmp = none
store_digits (suc room) v base uppercase tmp =
    let stored = digit uppercase (v % base) ∷ tmp in
    let rest = store_digits room (v / base) base uppercase stored in
    if v / base == 0 then some stored else rest

unfoldable pub write_uint_padded : ℕ → ℕ → ℕ → Bool → Bool → Option Bytes
write_uint_padded v base width zero_pad uppercase = do
  tmp ← store_digits 32 v base uppercase []
  let pad = if ltb (length tmp) width then width - length tmp else 0
  some (replicate pad (if zero_pad then b'0' else b' ') ++ tmp)

-- `x` is an `int64_t` in two's complement, and `-x` wraps around as the processor computes it.
unfoldable pub write_int_padded : ℕ → ℕ → Bool → Option Bytes
write_int_padded x width zero_pad =
    let inner_width = if ltb 0 width then width - 1 else 0 in
    let ux = (2 ^ 64 - x) % 2 ^ 64 in
    if leb (2 ^ 63) x
    then (do out ← write_uint_padded ux 10 inner_width zero_pad false; some (b'-' ∷ out))
    else write_uint_padded x 10 width zero_pad false

-- The formatter that the file keeps without a width.
unfoldable pub utoa_rev : ℕ → ℕ → Option Bytes
utoa_rev v base = store_digits 32 v base false []

unfoldable pub write_uint : ℕ → ℕ → Option Bytes
write_uint v base = utoa_rev v base

unfoldable pub write_int : ℕ → Option Bytes
write_int x =
    let ux = (2 ^ 64 - x) % 2 ^ 64 in
    if leb (2 ^ 63) x then (do out ← write_uint ux 10; some (b'-' ∷ out)) else write_uint x 10
