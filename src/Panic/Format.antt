-- ===== src/Panic/Format.antt =====
-- `mini_vsnprintf` (panic.c): what it puts into a buffer.
use chypervisor.Prelude.{ℕ, zero, suc, ◌+◌, ◌-◌, ◌≡◌, refl, sym, ap, ◌∙◌, arith, ◌%◌, ◌^◌, inl, inr}
use chypervisor.Prelude.{
  true, false, Option, none, some, List, [], ◌∷◌, ◌++◌, ltb, ◌==◌, ◌>>=◌, if◌then◌else◌, Bool-cases,
}
use chypervisor.Prelude.Texts.{Bytes, length, length-append}
use mathlib.Core.Path.{subst}
use mathlib.Core.List.{append-nil, append_assoc}
use chypervisor.Log.Format.{Arg}
use chypervisor.Panic.{
  Out, Mode, literal, spec, put, put_all, conversion, print_from, mini_vsnprintf,
}

abbrev pub take : ℕ → Bytes → Bytes
take zero s = []
take (suc n) [] = []
take (suc n) (c ∷ s) = c ∷ take n s

-- The whole text of a format, of any length.
unfoldable pub text_of : Mode → Bytes → List Arg → Option Bytes
text_of literal [] args = some []
text_of (spec n) [] args = none
text_of literal (c ∷ fmt) args =
    let rest = text_of (if c == b'%' then spec 0 else literal) fmt args in
    rest >>= (λ s. some (if c == b'%' then s else c ∷ s))
text_of (spec n) (c ∷ fmt) args = elim (c == b'l') [
  | true ↦ text_of (spec (n + 1)) fmt args
  | false ↦ conversion n c args >>= (λ (s, rest). text_of literal fmt rest >>= (λ t. some (s ++ t)))
]

put_all-append :
    (cap : ℕ) (s t : Bytes) (o : Out) → put_all cap (s ++ t) o ≡ put_all cap t (put_all cap s o)
unfolding put_all
put_all-append cap [] t o = refl
put_all-append cap (c ∷ s) t o = put_all-append cap s t (put cap c o)

-- The state after a text that may be missing.
abbrev put_text : ℕ → Out → Option Bytes → Option Out
put_text cap o r = r >>= (λ s. some (put_all cap s o))

put_text-prefix :
    (cap : ℕ) (s : Bytes) (o : Out) (r : Option Bytes)
    → put_text cap (put_all cap s o) r ≡ put_text cap o (r >>= (λ t. some (s ++ t)))
put_text-prefix cap s o none = refl
put_text-prefix cap s o (some t) = ap some (sym (put_all-append cap s t o))

put_text-literal :
    (cap c : ℕ) (o : Out) (r : Option Bytes)
    → put_text cap (if c == b'%' then o else put cap c o) r
      ≡ put_text cap o (r >>= (λ s. some (if c == b'%' then s else c ∷ s)))
unfolding put_all
put_text-literal cap c o none = refl
put_text-literal cap c o (some s) = elim (Bool-cases (c == b'%')) [
  | inl e ↦ rw e refl
  | inr e ↦ rw e refl
]

-- The loop puts that text.
print_from-text_of :
    (cap : ℕ) (mode : Mode) (fmt : Bytes) (args : List Arg) (o : Out)
    → print_from cap mode fmt args o ≡ put_text cap o (text_of mode fmt args)
unfolding print_from text_of put_all
print_from-text_of cap literal [] args o = refl
print_from-text_of cap (spec n) [] args o = refl
print_from-text_of cap literal (c ∷ fmt) args o =
    let mode = if c == b'%' then spec 0 else literal in
    print_from-text_of cap mode fmt args (if c == b'%' then o else put cap c o)
    ∙ put_text-literal cap c o (text_of mode fmt args)
print_from-text_of cap (spec n) (c ∷ fmt) args o = elim (Bool-cases (c == b'l')) [
  | inl e ↦ rw (e, print_from, text_of) (print_from-text_of cap (spec (n + 1)) fmt args o)
  | inr e ↦
      let after : (r : Option (Bytes × List Arg))
          → (r >>= (λ (s, rest). print_from cap literal fmt rest (put_all cap s o)))
            ≡ put_text cap o
                (r >>= (λ (s, rest). text_of literal fmt rest >>= (λ t. some (s ++ t)))) =
        elim [
          | none ↦ refl
          | some (s, rest) ↦
              print_from-text_of cap literal fmt rest (put_all cap s o)
              ∙ put_text-prefix cap s o (text_of literal fmt rest)
        ] in
      rw (e, print_from, text_of) (after (conversion n c args))
]

take-nil : (n : ℕ) → take n [] ≡ []
take-nil zero = refl
take-nil (suc n) = refl

take-append :
    (n c : ℕ) (t : Bytes)
    → take n (t ++ c ∷ []) ≡ (if ltb (length t) n then take n t ++ c ∷ [] else take n t)
take-append zero c t = ground arith
take-append (suc n) c [] =
    let room : ltb 0 (suc n) ≡ true = ground arith in rw room (ap (λ s. c ∷ s) (take-nil n))
take-append (suc n) c (d ∷ t) = elim (Bool-cases (ltb (length t) n)) [
  | inl e ↦
      let more : ltb (suc (length t)) (suc n) ≡ true = ground arith in
      rw more (ap (λ s. d ∷ s) (take-append n c t ∙ rw e refl))
  | inr e ↦
      let full : ltb (suc (length t)) (suc n) ≡ false = ground arith in
      rw full (ap (λ s. d ∷ s) (take-append n c t ∙ rw e refl))
]

-- The buffer holds what fits of the text so far.
record IsFilled (cap : ℕ) (t : Bytes) (o : Out) : Type 0 where
  count : o.w ≡ length t
  bytes : o.kept ≡ take (cap - 1) t

put-IsFilled :
    (cap c : ℕ) (t : Bytes) (o : Out) → IsFilled cap t o → IsFilled cap (t ++ c ∷ []) (put cap c o)
put-IsFilled cap c t o h =
    let total = length-append t (c ∷ []) in
    record {
      count = omega (arith, h.count, total);
      bytes = elim (Bool-cases (ltb (o.w + 1) cap)) [
        | inl e ↦
            let room : ltb (length t) (cap - 1) ≡ true = ground (arith, h.count) in
            rw e (ap (λ s. s ++ (c ∷ [])) h.bytes ∙ sym (take-append (cap - 1) c t ∙ rw room refl))
        | inr e ↦
            let full : ltb (length t) (cap - 1) ≡ false = ground (arith, h.count) in
            rw e (h.bytes ∙ sym (take-append (cap - 1) c t ∙ rw full refl))
      ];
    }

put_all-IsFilled :
    (cap : ℕ) (s t : Bytes) (o : Out) → IsFilled cap t o → IsFilled cap (t ++ s) (put_all cap s o)
unfolding put_all
put_all-IsFilled cap [] t o h = rw (append-nil t) h
put_all-IsFilled cap (c ∷ s) t o h =
    subst (λ x. IsFilled cap x (put_all cap s (put cap c o))) (append_assoc t (c ∷ []) s)
      (put_all-IsFilled cap s (t ++ c ∷ []) (put cap c o) (put-IsFilled cap c t o h))

-- The end of `mini_vsnprintf`.
abbrev finish : ℕ → Out → Option (ℕ × Bytes)
finish cap o = some (o.w % 2 ^ 32, (if cap == 0 then o.kept else o.kept ++ 0 ∷ []))

-- A format's text may be missing, as where the format ends inside a conversion.
abbrev result : ℕ → Option Bytes → Option (ℕ × Bytes)
result cap r = r >>= (λ s.
    some (length s % 2 ^ 32, (if cap == 0 then take (cap - 1) s else take (cap - 1) s ++ 0 ∷ [])))

-- The result and the buffer, from the whole text.
pub mini_vsnprintf-text_of :
    (cap : ℕ) (fmt : Bytes) (args : List Arg)
    → mini_vsnprintf cap fmt args ≡ (
        text_of literal fmt args >>= (λ s.
          some (
            length s % 2 ^ 32,
            (if cap == 0 then take (cap - 1) s else take (cap - 1) s ++ 0 ∷ []),
          )))
unfolding mini_vsnprintf
mini_vsnprintf-text_of cap fmt args =
    let start : Out = record { w = 0; kept = [] } in
    let after : (r : Option Bytes) → (put_text cap start r >>= finish cap) ≡ result cap r = elim [
      | none ↦ refl
      | some s ↦
          let h =
            put_all-IsFilled cap s [] start
              (record { count = refl; bytes = sym (take-nil (cap - 1)) }) in
          ap (λ n. finish cap (record { w = n; kept = (put_all cap s start).kept })) h.count
          ∙ ap (λ k. finish cap (record { w = length s; kept = k })) h.bytes
    ] in
    ap (λ r. r >>= finish cap) (print_from-text_of cap literal fmt args start)
    ∙ after (text_of literal fmt args)
