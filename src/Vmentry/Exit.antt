-- ===== src/Vmentry/Exit.antt =====
-- `asm_vmexit` (vmentry_exit.c): where it saves the guest's registers, and where it returns.
use chypervisor.Prelude.{
  ℕ, ◌+◌, ◌-◌, ◌*◌, ◌%◌, ◌≤◌, ◌<◌, ◌≡◌, ◌≢◌, refl, sym, ap, ◌∙◌, arith, ◌==◌, ◌⊎◌, inl,
}
use chypervisor.Prelude.{true, false, List, [], ◌∷◌, ==-refl}
use mathlib.Core.Path.{subst}
use chypervisor.Interrupt.Stubs.{rax, rcx, rdx, rbx, rsp, rbp, rsi, rdi, write}
use chypervisor.Interrupt.Saved.{Holds, count, up}
use chypervisor.Vmentry.{Core, returned, run, save_words, leave}
use chypervisor.Vmentry.{store_xmm_below, asm_vmexit, aligned}
use chypervisor.Vmentry.Entry.{IsBack, callee_saved}

-- The words of an area at `b` from an offset up.
abbrev pub HoldsAt : (ℕ → ℕ) → ℕ → ℕ → List ℕ → Type 0
HoldsAt m b o [] = Unit
HoldsAt m b o (x ∷ xs) = (m (b + o) ≡ x) × HoldsAt m b (o + 8) xs

-- Memory after words have been stored there, in this order.
abbrev pub lay : List ℕ → ℕ → ℕ → (ℕ → ℕ) → ℕ → ℕ
lay [] o b m = m
lay (x ∷ xs) o b m = lay xs (o + 8) b (write m (b + o) x)

write_other : (m : ℕ → ℕ) (p v q : ℕ) → q ≢ p → write m p v q ≡ m q
write_other m p v q ne = let other : (q == p) ≡ false = ground arith in rw other refl

lay-outside :
    (xs : List ℕ) (o b : ℕ) (m : ℕ → ℕ) (q : ℕ)
    → (q < b + o) ⊎ (b + o + 8 * count xs ≤ q)
    → lay xs o b m q ≡ m q
lay-outside [] o b m q out = refl
lay-outside (x ∷ xs) o b m q out =
    lay-outside xs (o + 8) b (write m (b + o) x) q (omega (arith, out))
    ∙ write_other m (b + o) x q (omega (arith, out))

lay-HoldsAt : (xs : List ℕ) (o b : ℕ) (m : ℕ → ℕ) → HoldsAt (lay xs o b m) b o xs
lay-HoldsAt [] o b m = tt
lay-HoldsAt (x ∷ xs) o b m = (
  lay-outside xs (o + 8) b (write m (b + o) x) (b + o) (inl (omega arith))
      ∙ rw (==-refl (b + o)) refl,
  lay-HoldsAt xs (o + 8) b (write m (b + o) x),
)

-- Memory that agrees with another on the words of an area, or of a stack, holds the same there.
HoldsAt-same :
    (m m' : ℕ → ℕ) (b o : ℕ) (xs : List ℕ)
    → ((q : ℕ) → b + o ≤ q → q < b + o + 8 * count xs → m' q ≡ m q)
    → HoldsAt m b o xs
    → HoldsAt m' b o xs
HoldsAt-same m m' b o [] same h = h
HoldsAt-same m m' b o (x ∷ xs) same (e, rest) = (
  same (b + o) (omega arith) (omega arith) ∙ e,
  HoldsAt-same m m' b (o + 8) xs (λ q l h. same q (omega (arith, l)) (omega (arith, h))) rest,
)

pub Holds-same :
    (m m' : ℕ → ℕ) (a : ℕ) (xs : List ℕ)
    → ((q : ℕ) → a ≤ q → q < a + 8 * count xs → m' q ≡ m q)
    → Holds m a xs
    → Holds m' a xs
Holds-same m m' a [] same h = h
Holds-same m m' a (x ∷ xs) same (e, rest) = (
  same a (omega arith) (omega arith) ∙ e,
  Holds-same m m' (a + 8) xs (λ q l h. same q (omega (arith, l)) (omega (arith, h))) rest,
)

-- The words of `GuestRegisters` behind RAX, and the words of the XMM registers.
abbrev pub words_of : (ℕ → ℕ) → List ℕ
words_of f =
    f rcx
    ∷ f rdx
    ∷ f rbx
    ∷ f rbp
    ∷ f rsi
    ∷ f rdi
    ∷ f 8
    ∷ f 9
    ∷ f 10
    ∷ f 11
    ∷ f 12
    ∷ f 13
    ∷ f 14
    ∷ f 15
    ∷ []

abbrev pub xmm_words : (ℕ → ℕ × ℕ) → List ℕ
xmm_words x =
    (x 0).0
    ∷ (x 0).1
    ∷ (x 1).0
    ∷ (x 1).1
    ∷ (x 2).0
    ∷ (x 2).1
    ∷ (x 3).0
    ∷ (x 3).1
    ∷ (x 4).0
    ∷ (x 4).1
    ∷ (x 5).0
    ∷ (x 5).1
    ∷ (x 6).0
    ∷ (x 6).1
    ∷ (x 7).0
    ∷ (x 7).1
    ∷ []

-- The area at `b` holds the registers, the XMM registers from byte 128 on.
pub record IsSaved (f : ℕ → ℕ) (x : ℕ → ℕ × ℕ) (b : ℕ) (m : ℕ → ℕ) : Type 0 where
  pub rax_word : m b ≡ f rax
  pub words : HoldsAt m b 8 (words_of f)
  pub xmm : HoldsAt m b 128 (xmm_words x)

-- Memory after the stores of the stub.
abbrev filled : (ℕ → ℕ) → (ℕ → ℕ × ℕ) → (ℕ → ℕ) → ℕ → ℕ → ℕ → ℕ
filled f x m b v = lay (xmm_words x) 128 b (lay (words_of f) 8 b (write m b v))

filled-IsSaved :
    (f : ℕ → ℕ) (x : ℕ → ℕ × ℕ) (m : ℕ → ℕ) (b : ℕ) → IsSaved f x b (filled f x m b (f rax))
filled-IsSaved f x m b =
    let m1 = write m b (f rax) in
    let m2 = lay (words_of f) 8 b m1 in
    record {
      rax_word =
          lay-outside (xmm_words x) 128 b m2 b (inl (omega arith))
          ∙ lay-outside (words_of f) 8 b m1 b (inl (omega arith))
          ∙ rw (==-refl b) refl;
      words =
          HoldsAt-same m2 (lay (xmm_words x) 128 b m2) b 8 (words_of f)
            (λ q l h. lay-outside (xmm_words x) 128 b m2 q (inl (omega (arith, h))))
            (lay-HoldsAt (words_of f) 8 b m1);
      xmm = lay-HoldsAt (xmm_words x) 128 b m2;
    }

filled-outside :
    (f : ℕ → ℕ) (x : ℕ → ℕ × ℕ) (m : ℕ → ℕ) (b v q : ℕ)
    → (q < b) ⊎ (b + 256 ≤ q)
    → filled f x m b v q ≡ m q
filled-outside f x m b v q out =
    let m1 = write m b v in
    let m2 = lay (words_of f) 8 b m1 in
    lay-outside (xmm_words x) 128 b m2 q (omega (arith, out))
    ∙ lay-outside (words_of f) 8 b m1 q (omega (arith, out))
    ∙ write_other m b v q (omega (arith, out))

module _ {W : Type 0} (s : Core W) where
  pushed : ℕ → ℕ
  pushed = write s.cpu.mem (s.cpu.reg rsp - 8) (s.cpu.reg rax)

  -- The state before the stub leaves, if it does not fault.
  stored : Core W
  stored = store_xmm_below 128 8 (run save_words s)

  stored-reg : (r : ℕ) → (r == rax) ≡ false → (r == rsp) ≡ false → stored.cpu.reg r ≡ s.cpu.reg r
  unfolding stored run
  stored-reg r e e' = rw (e, e') refl

  stored-mem :
      stored.cpu.mem
      ≡ filled s.cpu.reg s.xmm pushed (pushed (s.cpu.reg rsp - 8 + 8)) (pushed (s.cpu.reg rsp - 8))
  unfolding stored run pushed
  stored-mem = refl

  stored-rsp : stored.cpu.reg rsp ≡ s.cpu.reg rsp - 8 + 8 + 8
  unfolding stored run
  stored-rsp = refl

  saved-rax : (run save_words s).cpu.reg rax ≡ pushed (s.cpu.reg rsp - 8 + 8)
  unfolding run pushed
  saved-rax = refl

  module _ (area : ℕ) (room : 8 ≤ s.cpu.reg rsp) (on_top : s.cpu.mem (s.cpu.reg rsp) ≡ area) where
    base : pushed (s.cpu.reg rsp - 8 + 8) ≡ area
    unfolding pushed
    base =
        let here : s.cpu.reg rsp - 8 + 8 ≡ s.cpu.reg rsp = omega (arith, room) in
        write_other s.cpu.mem (s.cpu.reg rsp - 8) (s.cpu.reg rax) (s.cpu.reg rsp - 8 + 8)
          (omega arith)
        ∙ ap s.cpu.mem here
        ∙ on_top

    stored-filled : stored.cpu.mem ≡ filled s.cpu.reg s.xmm pushed area (s.cpu.reg rax)
    unfolding pushed
    stored-filled =
        let v : pushed (s.cpu.reg rsp - 8) ≡ s.cpu.reg rax =
          rw (==-refl (s.cpu.reg rsp - 8)) refl in
        stored-mem
        ∙ ap (λ b. filled s.cpu.reg s.xmm pushed b (pushed (s.cpu.reg rsp - 8))) base
        ∙ ap (λ w. filled s.cpu.reg s.xmm pushed area w) v

    stored-elsewhere :
        (q : ℕ)
        → (q < area) ⊎ (area + 256 ≤ q)
        → q ≢ s.cpu.reg rsp - 8
        → stored.cpu.mem q ≡ s.cpu.mem q
    unfolding pushed
    stored-elsewhere q out ne =
        ap (λ (m : ℕ → ℕ). m q) stored-filled
        ∙ filled-outside s.cpu.reg s.xmm pushed area (s.cpu.reg rax) q out
        ∙ write_other s.cpu.mem (s.cpu.reg rsp - 8) (s.cpu.reg rax) q ne

  leave-IsBack :
      (u : Core W) (f : ℕ → ℕ) (a ret : ℕ)
      → u.cpu.reg rsp ≡ a
      → Holds u.cpu.mem a (callee_saved f (ret ∷ []))
      → IsBack f (up 6 a) ret [] (run leave u) × ((run leave u).cpu.reg rax ≡ 0)
  unfolding run
  leave-IsBack u f a ret at h =
      let m = u.cpu.mem in
      (
        record {
          rip = ap (λ t. m (up 6 t)) at ∙ h.1.1.1.1.1.1.0;
          top = ap (λ t. up 7 t) at;
          kept_rbx = ap m at ∙ h.0;
          kept_12 = ap (λ t. m (up 1 t)) at ∙ h.1.0;
          kept_13 = ap (λ t. m (up 2 t)) at ∙ h.1.1.0;
          kept_14 = ap (λ t. m (up 3 t)) at ∙ h.1.1.1.0;
          kept_15 = ap (λ t. m (up 4 t)) at ∙ h.1.1.1.1.0;
          kept_rbp = ap (λ t. m (up 5 t)) at ∙ h.1.1.1.1.1.0;
          stack = tt;
        },
        refl,
      )

  leave-mem : (u : Core W) → (run leave u).cpu.mem ≡ u.cpu.mem
  unfolding run
  leave-mem u = refl

  asm_vmexit-leave :
      aligned ((run save_words s).cpu.reg rax + 128) ≡ true
      → asm_vmexit s ≡ returned (run leave stored)
  unfolding asm_vmexit stored
  asm_vmexit-leave e = rw e refl

-- When the stack holds the pointer to an aligned area, the registers that a function has to keep and a
-- return address, and the area does not overlap those words: `asm_vmexit` saves the guest's registers in
-- the area, gives back those registers and returns to that address with EAX = 0. No memory outside the
-- area and the word below the stack changes.
pub asm_vmexit-IsSaved :
    {W : Type 0} (s : Core W) (f : ℕ → ℕ) (area ret : ℕ)
    → 8 ≤ s.cpu.reg rsp
    → Holds s.cpu.mem (s.cpu.reg rsp) (area ∷ callee_saved f (ret ∷ []))
    → area % 16 ≡ 0
    → (area + 256 ≤ s.cpu.reg rsp + 8) ⊎ (s.cpu.reg rsp + 64 ≤ area)
    → (u : Core W) × (asm_vmexit s ≡ returned u)
      × IsSaved s.cpu.reg s.xmm area u.cpu.mem
      × IsBack f (s.cpu.reg rsp + 56) ret [] u
      × (u.cpu.reg rax ≡ 0)
      × ((q : ℕ)
          → (q < area) ⊎ (area + 256 ≤ q)
          → q ≢ s.cpu.reg rsp - 8
          → u.cpu.mem q ≡ s.cpu.mem q)
asm_vmexit-IsSaved s f area ret room h even apart =
    let a = s.cpu.reg rsp in
    let t = stored s in
    let u = run leave t in
    let elsewhere = stored-elsewhere s area room h.0 in
    let kept : Holds t.cpu.mem (a + 8) (callee_saved f (ret ∷ [])) =
      Holds-same s.cpu.mem t.cpu.mem (a + 8) (callee_saved f (ret ∷ []))
        (λ q l k. elsewhere q (omega (arith, apart, l, k)) (omega (arith, l))) h.1 in
    let top : t.cpu.reg rsp ≡ a + 8 = stored-rsp s ∙ omega (arith, room) in
    let (back, zero_al) = leave-IsBack s t f (a + 8) ret top kept in
    let fits : aligned ((run save_words s).cpu.reg rax + 128) ≡ true =
      let e = saved-rax s ∙ base s area room h.0 in rw e (ground (arith, even)) in
    let here : up 6 (a + 8) ≡ a + 56 = omega arith in
    (
      u,
      asm_vmexit-leave s fits,
      subst (λ m. IsSaved s.cpu.reg s.xmm area m)
          (sym (leave-mem s t ∙ stored-filled s area room h.0))
          (filled-IsSaved s.cpu.reg s.xmm (pushed s) area),
      subst (λ q. IsBack f q ret [] u) here back,
      zero_al,
      λ q out ne. ap (λ (m : ℕ → ℕ). m q) (leave-mem s t) ∙ elsewhere q out ne,
    )
