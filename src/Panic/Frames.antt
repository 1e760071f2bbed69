-- ===== src/Panic/Frames.antt =====
-- The walk over the stack frames in `panic` (panic.c).
use chypervisor.Prelude.{
  ℕ, zero, suc, ◌+◌, ◌-◌, ◌%◌, ◌^◌, ◌≤◌, ◌<◌, ◌≡◌, ◌≢◌, refl, sym, ap, ◌∙◌, arith, ◌⊎◌, inl, inr,
}
use chypervisor.Prelude.{
  Bool, true, false, List, [], ◌∷◌, leb, ◌==◌, ◌||◌, not, if◌then◌else◌, bit_and, Bool-cases,
  leb→lt,
}
use chypervisor.Prelude.Bits.{bit_and_mask}
use chypervisor.Panic.{is_canonical, walk_frames}

abbrev pub Frame : Type 0
Frame = ℕ × ℕ

abbrev pub frame_count : List Frame → ℕ
frame_count [] = 0
frame_count (f ∷ fs) = suc (frame_count fs)

-- An address of 48 bits, sign-extended.
abbrev pub Canonical : ℕ → Type 0
Canonical a = (a < 2 ^ 47) ⊎ ((2 ^ 64 - 2 ^ 47 ≤ a) × (a < 2 ^ 64))

-- A frame that may be read, with its return address.
pub record IsFrame (mem : ℕ → ℕ) (f : Frame) : Type 0 where
  pub present : f.0 ≢ 0
  pub aligned : f.0 % 8 ≡ 0
  pub frame_canonical : Canonical f.0
  pub return_address : f.1 ≡ mem (f.0 + 8)
  pub return_canonical : Canonical f.1

-- Each frame is one that may be read, and refers to the next one, further up the stack.
abbrev pub IsChain : (ℕ → ℕ) → List Frame → Type 0
IsChain mem [] = Unit
IsChain mem (f ∷ []) = IsFrame mem f
IsChain mem (f ∷ g ∷ fs) = IsFrame mem f × (mem f.0 ≡ g.0) × (f.0 < g.0) × IsChain mem (g ∷ fs)

is_canonical-Canonical : (a : ℕ) → is_canonical a ≡ true → Canonical a
unfolding is_canonical
is_canonical-Canonical a e = ground (arith, e)

Canonical-is_canonical : (a : ℕ) → Canonical a → is_canonical a ≡ true
unfolding is_canonical
Canonical-is_canonical a h = ground (arith, h)

-- The test of the loop.
abbrev refused : ℕ → Bool
refused rbp = rbp == 0 || not (bit_and rbp 7 == 0) || not (is_canonical rbp)

refused-false :
    (rbp : ℕ) → refused rbp ≡ false → (rbp ≢ 0) × (rbp % 8 ≡ 0) × (is_canonical rbp ≡ true)
refused-false rbp e = ground (arith, e, bit_and_mask 3 rbp)

not_refused : (rbp : ℕ) → rbp ≢ 0 → rbp % 8 ≡ 0 → is_canonical rbp ≡ true → refused rbp ≡ false
not_refused rbp ne even canonical = ground (arith, ne, even, canonical, bit_and_mask 3 rbp)

-- A walk from an address: nothing, or a chain whose first frame is there.
abbrev pub IsWalk : (ℕ → ℕ) → ℕ → List Frame → Type 0
IsWalk mem rbp [] = Unit
IsWalk mem rbp (f ∷ fs) = (f.0 ≡ rbp) × IsChain mem (f ∷ fs)

IsWalk-cons :
    (mem : ℕ → ℕ) (f : Frame) (fs : List Frame)
    → IsFrame mem f
    → f.0 < mem f.0
    → IsWalk mem (mem f.0) fs
    → IsWalk mem f.0 (f ∷ fs)
IsWalk-cons mem f [] now up later = (refl, now)
IsWalk-cons mem f (g ∷ fs) now up (at, chain) = (refl, (now, sym at, omega (arith, at, up), chain))

frames-IsWalk :
    (mem : ℕ → ℕ) (left rbp : ℕ)
    → IsWalk mem rbp (walk_frames mem left rbp) × (frame_count (walk_frames mem left rbp) ≤ left)
unfolding walk_frames
frames-IsWalk mem zero rbp = (tt, omega arith)
frames-IsWalk mem (suc left) rbp =
    let next = mem rbp in
    let rip = mem (rbp + 8) in
    elim (Bool-cases (refused rbp)) [
      | inl e ↦ rw e (tt, omega arith)
      | inr e ↦ elim (Bool-cases (is_canonical rip)) [
        | inr bad ↦ rw (e, bad) (tt, omega arith)
        | inl good ↦
            let (ne, even, canonical) = refused-false rbp e in
            let now : IsFrame mem (rbp, rip) = record {
              present = ne;
              aligned = even;
              frame_canonical = is_canonical-Canonical rbp canonical;
              return_address = refl;
              return_canonical = is_canonical-Canonical rip good;
            } in
            let (walk, few) = frames-IsWalk mem left next in
            elim (Bool-cases (leb next rbp)) [
              | inl stop ↦ rw (e, good, stop) ((refl, now), omega arith)
              | inr more ↦
                  rw (e, good, more)
                    (
                      IsWalk-cons mem (rbp, rip) (walk_frames mem left next) now
                          (leb→lt next rbp more) walk,
                      omega (arith, few),
                    )
            ]
      ]
    ]

-- Whatever memory holds, the walk logs at most 64 frames. It starts at RBP, and every frame that it logs is
-- at an aligned, canonical address other than 0, with the canonical return address behind it, and refers
-- to the next, which lies further up the stack.
walk_frames-IsWalk :
    (mem : ℕ → ℕ) (rbp : ℕ)
    → IsWalk mem rbp (walk_frames mem 64 rbp) × (frame_count (walk_frames mem 64 rbp) ≤ 64)
walk_frames-IsWalk mem rbp = frames-IsWalk mem 64 rbp

abbrev pub first_frames : ℕ → List Frame → List Frame
first_frames zero fs = []
first_frames (suc n) [] = []
first_frames (suc n) (f ∷ fs) = f ∷ first_frames n fs

first_frames-nil : (n : ℕ) → first_frames n [] ≡ []
first_frames-nil zero = refl
first_frames-nil (suc n) = refl

-- A chain from an address, whose last frame refers to none further up.
abbrev pub IsStack : (ℕ → ℕ) → ℕ → List Frame → Type 0
IsStack mem rbp [] = ⊥
IsStack mem rbp (f ∷ []) = (f.0 ≡ rbp) × IsFrame mem f × (mem f.0 ≤ f.0)
IsStack mem rbp (f ∷ g ∷ fs) =
    (f.0 ≡ rbp) × IsFrame mem f × (f.0 < mem f.0) × IsStack mem (mem f.0) (g ∷ fs)

step_of :
    (mem : ℕ → ℕ) (left : ℕ) (f : Frame)
    → IsFrame mem f
    → walk_frames mem (suc left) f.0
      ≡ f ∷ (if leb (mem f.0) f.0 then [] else walk_frames mem left (mem f.0))
unfolding walk_frames
step_of mem left (b, rip) h =
    let go = not_refused b h.present h.aligned (Canonical-is_canonical b h.frame_canonical) in
    let good = Canonical-is_canonical rip h.return_canonical in
    rw (go, ← h.return_address, good) refl

-- Where the frames of a stack are well formed and each lies above the one before, until one that does not
-- refer further up, the walk logs exactly the first of them, as many as it has rounds.
pub walk_frames-IsStack :
    (mem : ℕ → ℕ) (left rbp : ℕ) (fs : List Frame)
    → IsStack mem rbp fs
    → walk_frames mem left rbp ≡ first_frames left fs
unfolding walk_frames
walk_frames-IsStack mem zero rbp fs h = refl
walk_frames-IsStack mem (suc left) rbp [] h = absurd h
walk_frames-IsStack mem (suc left) rbp (f ∷ []) (at, now, last) =
    let stop : leb (mem f.0) f.0 ≡ true = ground (arith, last) in
    let none_left : first_frames left [] ≡ [] = first_frames-nil left in
    ap (λ b. walk_frames mem (suc left) b) (sym at)
    ∙ step_of mem left f now
    ∙ rw (stop, none_left) refl
walk_frames-IsStack mem (suc left) rbp (f ∷ g ∷ fs) (at, now, up, rest) =
    let more : leb (mem f.0) f.0 ≡ false = ground (arith, up) in
    ap (λ b. walk_frames mem (suc left) b) (sym at)
    ∙ step_of mem left f now
    ∙ rw more (ap (λ r. f ∷ r) (walk_frames-IsStack mem left (mem f.0) (g ∷ fs) rest))
