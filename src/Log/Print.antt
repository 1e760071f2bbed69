-- ===== src/Log/Print.antt =====
-- `kvprintf` (log.c) prints what its format must print.
use chypervisor.Prelude.{ℕ, ◌%◌, ◌^◌, ◌≡◌, refl, ap, arith, inl, inr}
use chypervisor.Prelude.{
  Bool, Option, some, List, [], ◌∷◌, ◌++◌, leb, ◌==◌, ◌>>=◌, Bool-cases, ==→eq,
}
use chypervisor.Prelude.Texts.{Bytes}
use chypervisor.Log.Digits.{padding, IsSignedPrinted}
use chypervisor.Log.Format.{Arg, word, text, Len, serial_write, convert}
use chypervisor.Log.Render.{Conv, letter}
use chypervisor.Log.Shown.{with_returns, IsExtended, a_word, a_text, want, Suits, after, Shows}

pub with_returns-serial_write : (s : Bytes) → serial_write s ≡ with_returns s
unfolding serial_write
with_returns-serial_write [] = refl
with_returns-serial_write (c ∷ s) = elim (Bool-cases (c == 10)) [
  | inl e ↦
      let line_feed = ==→eq c 10 e in
      rw (e, line_feed) (ap (λ t. 13 ∷ 10 ∷ t) (with_returns-serial_write s))
  | inr e ↦ rw e (ap (λ t. c ∷ t) (with_returns-serial_write s))
]

pub whole_word : (v : ℕ) → IsExtended 64 v (v % 2 ^ 64)
whole_word v = record { positive = λ h. refl; negative = λ h. omega arith }

-- A printed number is some text.
pub signed_text :
    (x width : ℕ) (zero_pad : Bool) (o : Option Bytes)
    → IsSignedPrinted x width zero_pad o
    → (out : Bytes) × (o ≡ some out)
signed_text x width zero_pad o (positive, negative) = elim (Bool-cases (leb (2 ^ 63) x)) [
  | inl e ↦ let (out, whole, printed) = negative (ground (arith, e)) in (b'-' ∷ out, whole)
  | inr e ↦
      let printed = positive (ground (arith, e)) in
      (padding width zero_pad printed.digits ++ printed.digits, printed.whole)
]

-- What a run prints, and what it leaves of the arguments.
abbrev pub Gives : Option (Bytes × List Arg) → List Arg → (Bytes → Type 0) → Type 0
Gives run left IsRight = (out : Bytes) × (run ≡ some (out, left)) × IsRight out

pub word_gives :
    (o : Option Bytes) (left : List Arg) (IsRight : Bytes → Type 0)
    → ((out : Bytes) × (o ≡ some out) × IsRight out)
    → Gives (o >>= (λ out. some (out, left))) left IsRight
word_gives o left IsRight (out, e, right) = (out, rw e refl, right)

-- A list of arguments that starts with a word, or with a text.
pub word_case :
    (P : List Arg → Type 0)
    → ((v : ℕ) (left : List Arg) → P (word v ∷ left))
    → (args : List Arg) → Suits a_word args
    → P args
word_case P h [] u = elim u [ ]
word_case P h (word v ∷ left) u = h v left
word_case P h (text s ∷ left) u = elim u [ ]

pub text_case :
    (P : List Arg → Type 0)
    → ((s : Option Bytes) (left : List Arg) → P (text s ∷ left))
    → (args : List Arg) → Suits a_text args
    → P args
text_case P h [] u = elim u [ ]
text_case P h (word v ∷ left) u = elim u [ ]
text_case P h (text s ∷ left) u = h s left

abbrev Right : Conv → Bool → ℕ → Len → List Arg → Type 0
Right k zero_pad width len args =
    Gives (convert (letter k) zero_pad width len args) (after (want k) args)
      (Shows k zero_pad width len args)
