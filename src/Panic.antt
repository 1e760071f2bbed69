-- ===== src/Panic.antt =====
-- kernel/panic.c: the formatter of panic messages, the walk over the stack frames, and the report. A text
-- is its bytes before the terminator. `none` is a run that the C standard leaves undefined: a store past
-- a buffer, a read past the end of a format, or an argument that is missing or of another kind.
pub mod Format
pub mod Shown
pub mod Print
pub mod Digits
pub mod Frames
mod Tests
use chypervisor.Prelude.{
  ℕ, zero, suc, ◌+◌, ◌-◌, ◌*◌, ◌/◌, ◌%◌, ◌^◌, Bool, true, false, Option, none, some, List, [], ◌∷◌,
  ◌++◌,
}
use chypervisor.Prelude.{ltb, leb, ◌==◌, ◌||◌, not, if◌then◌else◌, ◌>>=◌, bit_and}
use chypervisor.Prelude.Texts.{Bytes, codes}
use chypervisor.Log.{digit}
use chypervisor.Log.Format.{Arg, take_word, take_text}

unfoldable pub is_canonical : ℕ → Bool
is_canonical vaddr = let top = vaddr / 2 ^ 47 in top == 0 || top == 0x1FFFF

-- The loops that fill `buf`, with `room` bytes of it left; the last byte stored comes first, which is the
-- order of the copy to `dst`.
unfoldable pub fill_digits : ℕ → ℕ → ℕ → Bool → Bytes → Option Bytes
fill_digits zero v base upper buf = if v == 0 then some buf else none
fill_digits (suc room) v base upper buf =
    let rest = fill_digits room (v / base) base upper (digit upper (v % base) ∷ buf) in
    if v == 0 then some buf else rest

unfoldable pub u64_to_hex : ℕ → Bool → Option Bytes
u64_to_hex v upper = if v == 0 then some (b'0' ∷ []) else fill_digits 16 v 16 upper []

unfoldable pub u_to_dec : ℕ → Option Bytes
u_to_dec v = if v == 0 then some (b'0' ∷ []) else fill_digits 20 v 10 false []

-- A `long long` in two's complement; `-v` wraps around as the processor computes it.
unfoldable pub i_to_dec : ℕ → Option Bytes
i_to_dec v =
    if leb (2 ^ 63) v
    then u_to_dec ((2 ^ 64 - v) % 2 ^ 64) >>= (λ s. some (b'-' ∷ s))
    else u_to_dec v

-- The state of `mini_vsnprintf`: `w`, and the bytes in the buffer from its start on.
pub record Out : Type 0 where
  pub w : ℕ
  pub kept : Bytes

-- `PUT`, for a buffer of `cap` bytes.
abbrev pub put : ℕ → ℕ → Out → Out
put cap ch o =
    let next = o.w + 1 in
    record { w = next; kept = if ltb next cap then o.kept ++ (ch ∷ []) else o.kept }

unfoldable pub put_all : ℕ → Bytes → Out → Out
put_all cap [] o = o
put_all cap (ch ∷ s) o = put_all cap s (put cap ch o)

-- The arguments of an integer conversion, with the number of 'l' before it: an `int` is half a word.
abbrev pub unsigned_of : ℕ → ℕ → ℕ
unsigned_of longcnt v = if longcnt == 0 then v % 2 ^ 32 else v % 2 ^ 64

abbrev pub signed_of : ℕ → ℕ → ℕ
signed_of longcnt v =
    let low = v % 2 ^ 32 in
    if longcnt == 0 then (if ltb low (2 ^ 31) then low else low + (2 ^ 64 - 2 ^ 32)) else v % 2 ^ 64

abbrev pub numeric : (ℕ → Option Bytes) → List Arg → Option (Bytes × List Arg)
numeric print args = take_word args >>= (λ (v, rest). print v >>= (λ s. some (s, rest)))

abbrev pub or_null : Option Bytes → Bytes
or_null none = codes "(null)"
or_null (some s) = s

-- The `switch`: what the conversion `c` puts, and the arguments that are left.
unfoldable pub conversion : ℕ → ℕ → List Arg → Option (Bytes × List Arg)
conversion longcnt c args =
    if c == b's'
    then take_text args >>= (λ (s, rest). some (or_null s, rest))
    else if c == b'c'
    then numeric (λ v. some (v % 2 ^ 8 ∷ [])) args
    else if c == b'p'
    then numeric (λ v. u64_to_hex (v % 2 ^ 64) false >>= (λ s. some (b'0' ∷ b'x' ∷ s))) args
    else if c == b'x' || c == b'X'
    then numeric (λ v. u64_to_hex (unsigned_of longcnt v) (c == b'X')) args
    else if c == b'u'
    then numeric (λ v. u_to_dec (unsigned_of longcnt v)) args
    else if c == b'd'
    then numeric (λ v. i_to_dec (signed_of longcnt v)) args
    else if c == b'%'
    then some (b'%' ∷ [], args)
    else some (b'%' ∷ c ∷ [], args)

-- Where the loop stands in the format: outside of a conversion, or in one after some 'l'.
pub data Mode : Type 0 where
  literal : Mode
  spec : ℕ → Mode

-- The loop of `mini_vsnprintf`. A format that ends inside a conversion is read past its end.
unfoldable pub print_from : ℕ → Mode → Bytes → List Arg → Out → Option Out
print_from cap literal [] args o = some o
print_from cap (spec n) [] args o = none
print_from cap literal (c ∷ fmt) args o =
    let mode = if c == b'%' then spec 0 else literal in
    print_from cap mode fmt args (if c == b'%' then o else put cap c o)
print_from cap (spec n) (c ∷ fmt) args o = elim (c == b'l') [
  | true ↦ print_from cap (spec (n + 1)) fmt args o
  | false ↦ conversion n c args >>= (λ (s, rest). print_from cap literal fmt rest (put_all cap s o))
]

-- The result, an `int` as its word of 32 bits, and the bytes that are in the buffer then, the terminator
-- included.
unfoldable pub mini_vsnprintf : ℕ → Bytes → List Arg → Option (ℕ × Bytes)
mini_vsnprintf cap fmt args =
    print_from cap literal fmt args (record { w = 0; kept = [] })
    >>= (λ o. some (o.w % 2 ^ 32, (if cap == 0 then o.kept else o.kept ++ (0 ∷ []))))

-- The loop over the stack frames, with `left` rounds left: the frames that are read and logged.
unfoldable pub walk_frames : (ℕ → ℕ) → ℕ → ℕ → List (ℕ × ℕ)
walk_frames mem zero rbp = []
walk_frames mem (suc left) rbp =
    let next = mem rbp in
    let rip = mem (rbp + 8) in
    let rest = walk_frames mem left next in
    if rbp == 0 || not (bit_and rbp 7 == 0) || not (is_canonical rbp)
    then []
    else if not (is_canonical rip)
    then []
    else (rbp, rip) ∷ (if leb next rbp then [] else rest)

-- What `panic` logs before it halts.
pub data Line : Type 0 where
  double_panic no_message : Line
  message : Bytes → Line
  cr2_line : ℕ → Line
  header : Line
  frame_line : ℕ → ℕ → Line

abbrev pub frame_lines : ℕ → List (ℕ × ℕ) → List Line
frame_lines i [] = []
frame_lines i ((rbp, rip) ∷ fs) = frame_line i rip ∷ frame_lines (i + 1) fs

-- The null message and the empty one.
abbrev pub message_line : Option Bytes → Line
message_line none = no_message
message_line (some []) = no_message
message_line (some (c ∷ s)) = message (c ∷ s)

-- `g_panicked` after the call, and the lines; from memory, CR2 and RBP.
unfoldable pub panic : (ℕ → ℕ) → ℕ → ℕ → Bool → Option Bytes → Bool × List Line
panic mem cr2 rbp g_panicked msg =
    if g_panicked
    then (true, double_panic ∷ [])
    else (true, message_line msg ∷ cr2_line cr2 ∷ header ∷ frame_lines 0 (walk_frames mem 64 rbp))

-- The bytes of a buffer up to its terminator.
abbrev pub up_to_nul : Bytes → Bytes
up_to_nul [] = []
up_to_nul (c ∷ s) = if c == 0 then [] else c ∷ up_to_nul s

unfoldable pub panicf : (ℕ → ℕ) → ℕ → ℕ → Bool → Bytes → List Arg → Option (Bool × List Line)
panicf mem cr2 rbp g_panicked fmt args =
    mini_vsnprintf 512 fmt args
    >>= (λ (w, buf). some (panic mem cr2 rbp g_panicked (some (up_to_nul buf))))
