-- ===== src/Panic/Tests.antt =====
-- Runs of panic.c.
use chypervisor.Prelude.{
  ℕ, ◌-◌, ◌^◌, ◌≡◌, refl, arith, true, false, some, List, [], ◌∷◌, ◌++◌, ◌==◌, if◌then◌else◌, inl,
}
use chypervisor.Prelude.Texts.{codes}
use chypervisor.Log.Format.{Arg, word, text}
use chypervisor.Panic.{
  mini_vsnprintf, conversion, print_from, put_all, u64_to_hex, u_to_dec, i_to_dec, fill_digits,
  walk_frames, panicf, panic, is_canonical, message, cr2_line, header, frame_line,
}
use chypervisor.Log.Render.{dec_conv, percent_conv}
use chypervisor.Panic.Shown.{Item, byte, conv}
use chypervisor.Panic.Frames.{walk_frames-IsStack}

-- A text that is longer than the buffer.
mini_vsnprintf_cut :
    mini_vsnprintf 8 (codes "at %lx: %s") (word 0xBEEF ∷ text (some (codes "dead")) ∷ [])
    ≡ some (13, codes "at beef" ++ 0 ∷ [])
unfolding mini_vsnprintf print_from conversion put_all u64_to_hex fill_digits
mini_vsnprintf_cut = refl

-- "rc=%d%%"
abbrev items : List Item
items = byte b'r' ∷ byte b'c' ∷ byte b'=' ∷ conv 0 dec_conv ∷ conv 0 percent_conv ∷ []

abbrev args : List Arg
args = word 5 ∷ []

-- Two frames, the second of which ends the list.
abbrev stack : ℕ → ℕ
stack q =
    if q == 0x8000
    then 0x8040
    else if q == 0x8008
    then 0x401000
    else if q == 0x8048
    then 0x402000
    else 0

walk_frames-IsStack_example :
    walk_frames stack 64 0x8000 ≡ (0x8000, 0x401000) ∷ (0x8040, 0x402000) ∷ []
walk_frames-IsStack_example =
    walk_frames-IsStack stack 64 0x8000 ((0x8000, 0x401000) ∷ (0x8040, 0x402000) ∷ []) (
      refl,
      record {
        present = omega arith;
        aligned = refl;
        frame_canonical = inl (omega arith);
        return_address = refl;
        return_canonical = inl (omega arith);
      },
      omega arith,
      (
        refl,
        record {
          present = omega arith;
          aligned = refl;
          frame_canonical = inl (omega arith);
          return_address = refl;
          return_canonical = inl (omega arith);
        },
        omega arith,
      ),
    )

-- A whole report.
panicf_report :
    panicf stack 0xDEAD 0x8000 false (codes "rc=%d") (word (2 ^ 64 - 1) ∷ [])
    ≡ some (
      true,
      message (codes "rc=-1")
          ∷ cr2_line 0xDEAD
          ∷ header
          ∷ frame_line 0 0x401000
          ∷ frame_line 1 0x402000
          ∷ [],
    )
unfolding panicf panic mini_vsnprintf print_from conversion put_all i_to_dec u_to_dec fill_digits
    walk_frames is_canonical
panicf_report = refl
