-- ===== src/Interrupt/Saved.antt =====
-- The stubs of isr_stubs.c give back the registers and the frame of the interrupted code.
use chypervisor.Prelude.{
  ℕ, zero, suc, ◌+◌, ◌-◌, ◌*◌, ◌/◌, ◌%◌, ◌^◌, ◌<◌, ◌≤◌, ◌≡◌, refl, sym, ap, ◌∙◌, arith,
}
use chypervisor.Prelude.{Bool, true, false, List, [], ◌∷◌, ◌++◌, ◌==◌, ==-refl, ==→eq, ==→ne, ◌||◌}
use chypervisor.Prelude.{Bool-cases, inl, inr, bit_and, not64}
use chypervisor.Prelude.Bits.{bit_and_high}
use mathlib.Core.Path.{subst}
use chypervisor.Interrupt.Stubs.{
  Cpu, Instr, rsp, rdi, write, push, exec, run, pushes, pops, popq, call_aligned,
}

-- The words of a stack from an address up.
abbrev pub Holds : (ℕ → ℕ) → ℕ → List ℕ → Type 0
Holds m a [] = Unit
Holds m a (x ∷ xs) = (m a ≡ x) × Holds m (a + 8) xs

-- Memory that agrees from an address up holds the same stack.
pub Holds-above :
    (m m' : ℕ → ℕ) (low a : ℕ) (xs : List ℕ)
    → ((q : ℕ) → low ≤ q → m' q ≡ m q)
    → low ≤ a
    → Holds m a xs
    → Holds m' a xs
Holds-above m m' low a [] same h u = u
Holds-above m m' low a (x ∷ xs) same h (e, rest) =
    (same a h ∙ e, Holds-above m m' low (a + 8) xs same (omega arith) rest)

write-above : (m : ℕ → ℕ) (p v q : ℕ) → p + 1 ≤ q → write m p v q ≡ m q
write-above m p v q h = let other : (q == p) ≡ false = ground arith in rw other refl

-- `n` words above an address.
abbrev pub up : ℕ → ℕ → ℕ
up zero a = a
up (suc n) a = up n a + 8

abbrev pub count : List ℕ → ℕ
count [] = 0
count (r ∷ rs) = suc (count rs)

abbrev pub NoRsp : List ℕ → Type 0
NoRsp [] = Unit
NoRsp (r ∷ rs) = ((r == rsp) ≡ false) × NoRsp rs

-- A state whose other registers are those of `f`, with a stack.
pub record IsPushed (f : ℕ → ℕ) (a : ℕ) (xs : List ℕ) (s : Cpu) : Type 0 where
  pub top : s.reg rsp ≡ a
  pub others : (r : ℕ) → (r == rsp) ≡ false → s.reg r ≡ f r
  pub stack : Holds s.mem a xs

pub push-IsPushed :
    (f : ℕ → ℕ) (a v : ℕ) (xs : List ℕ) (s : Cpu)
    → IsPushed f (a + 8) xs s
    → IsPushed f a (v ∷ xs) (push v s)
push-IsPushed f a v xs s p =
    let at : s.reg rsp - 8 ≡ a = omega (arith, p.top) in
    record {
      top = at;
      others = λ r e. rw e (p.others r e);
      stack =
          subst (λ t. Holds (write s.mem t v) a (v ∷ xs)) (sym at)
            (
              rw (==-refl a) refl,
              Holds-above s.mem (write s.mem a v) (a + 8) (a + 8) xs
                  (λ q h. write-above s.mem a v q (omega arith)) (omega arith) p.stack,
            );
    }

abbrev pub pushed : (ℕ → ℕ) → List ℕ → List ℕ → List ℕ
pushed f [] xs = xs
pushed f (r ∷ rs) xs = pushed f rs (f r ∷ xs)

pub pushes-IsPushed :
    (d : Cpu → Cpu) (f : ℕ → ℕ) (a : ℕ) (rs xs : List ℕ) (s : Cpu)
    → NoRsp rs
    → IsPushed f (up (count rs) a) xs s
    → IsPushed f a (pushed f rs xs) (run d (pushes rs) s)
unfolding run
pushes-IsPushed d f a [] xs s u p = p
pushes-IsPushed d f a (r ∷ rs) xs s (e, later) p =
    let now = push-IsPushed f (up (count rs) a) (s.reg r) xs s p in
    pushes-IsPushed d f a rs (f r ∷ xs) (push (s.reg r) s) later
      (subst (λ v. IsPushed f (up (count rs) a) (v ∷ xs) (push (s.reg r) s)) (p.others r e) now)

abbrev pub elem : ℕ → List ℕ → Bool
elem r [] = false
elem r (x ∷ xs) = r == x || elem r xs

-- A state that has given back the registers of a list.
pub record IsPopped (g : ℕ → ℕ) (done : List ℕ) (a : ℕ) (xs : List ℕ) (s : Cpu) : Type 0 where
  pub top : s.reg rsp ≡ a
  pub given_back : (r : ℕ) → elem r done ≡ true → (r == rsp) ≡ false → s.reg r ≡ g r
  pub stack : Holds s.mem a xs

popq-IsPopped :
    (g : ℕ → ℕ) (d : Cpu → Cpu) (done : List ℕ) (a r : ℕ) (xs : List ℕ) (s : Cpu)
    → (r == rsp) ≡ false
    → IsPopped g done a (g r ∷ xs) s
    → IsPopped g (r ∷ done) (a + 8) xs (exec d (popq r) s)
popq-IsPopped g d done a r xs s other p =
    let (head, rest) = p.stack in
    record {
      top = let e : (rsp == r) ≡ false = ground (arith, other) in rw e (ap (λ t. t + 8) p.top);
      given_back = λ q h not_rsp. elim (Bool-cases (q == r)) [
        | inl e ↦ rw e (ap s.mem p.top ∙ head ∙ ap g (sym (==→eq q r e)))
        | inr e ↦ rw (e, not_rsp) (p.given_back q (rw e at h) not_rsp)
      ];
      stack = rest;
    }

-- What `popq` of the registers of a list finds on the stack.
abbrev pub kept : (ℕ → ℕ) → List ℕ → List ℕ → List ℕ
kept g [] xs = xs
kept g (r ∷ rs) xs = g r ∷ kept g rs xs

abbrev pub climb : ℕ → ℕ → ℕ
climb zero a = a
climb (suc n) a = climb n (a + 8)

abbrev pub onto : List ℕ → List ℕ → List ℕ
onto [] done = done
onto (r ∷ rs) done = onto rs (r ∷ done)

pub pops-IsPopped :
    (d : Cpu → Cpu) (g : ℕ → ℕ) (done : List ℕ) (a : ℕ) (rs xs : List ℕ) (s : Cpu)
    → NoRsp rs
    → IsPopped g done a (kept g rs xs) s
    → IsPopped g (onto rs done) (climb (count rs) a) xs (run d (pops rs) s)
unfolding run
pops-IsPopped d g done a [] xs s u p = p
pops-IsPopped d g done a (r ∷ rs) xs s (e, later) p =
    pops-IsPopped d g (r ∷ done) (a + 8) rs xs (exec d (popq r) s) later
      (popq-IsPopped g d done a r (kept g rs xs) s e p)

-- `popq %rsp` finds the address just above itself.
pub popq_rsp-IsPopped :
    (d : Cpu → Cpu) (g : ℕ → ℕ) (done : List ℕ) (a : ℕ) (xs : List ℕ) (s : Cpu)
    → IsPopped g done a ((a + 8) ∷ xs) s
    → IsPopped g done (a + 8) xs (exec d (popq rsp) s)
popq_rsp-IsPopped d g done a xs s p = record {
  top = ap s.mem p.top ∙ p.stack.0;
  given_back = λ q h not_rsp. rw not_rsp (p.given_back q h not_rsp);
  stack = p.stack.1;
}

pub run-append :
    (d : Cpu → Cpu) (xs ys : List Instr) (s : Cpu) → run d (xs ++ ys) s ≡ run d ys (run d xs s)
unfolding run
run-append d [] ys s = refl
run-append d (x ∷ xs) ys s = run-append d xs ys (exec d x s)

-- What the calling convention says of a call that leaves its caller's stack alone.
abbrev pub Returns : (Cpu → Cpu) → Type 0
Returns d =
    (w : Cpu) → ((d w).reg rsp ≡ w.reg rsp) × ((q : ℕ) → w.reg rsp ≤ q → (d w).mem q ≡ w.mem q)

-- The two copies of RSP are found again whether the alignment has moved the stack or not.
pub call_aligned-IsPopped :
    (d : Cpu → Cpu) (f : ℕ → ℕ) (c : ℕ) (xs : List ℕ) (s : Cpu)
    → Returns d
    → c % 8 ≡ 0
    → 16 ≤ c
    → c < 2 ^ 64
    → IsPushed f (c + 8 + 8) xs s
    → IsPopped f [] (c + 8 + 8) xs (run d call_aligned s)
unfolding run
call_aligned-IsPopped d f c xs s returns even room small p =
    let s1 : Cpu = record s { reg = write s.reg rdi (s.reg rsp) } in
    let p1 : IsPushed s1.reg (c + 8 + 8) xs s1 = record {
      top = p.top;
      others = λ r e. refl;
      stack = p.stack;
    } in
    let v = c + 8 + 8 in
    let s2 = push (s.reg rsp) s1 in
    let p2 : IsPushed s1.reg (c + 8) (v ∷ xs) s2 =
      subst (λ x. IsPushed s1.reg (c + 8) (x ∷ xs) s2) p.top
        (push-IsPushed s1.reg (c + 8) (s.reg rsp) xs s1 p1) in
    let same : s2.mem (s2.reg rsp) ≡ v = ap s2.mem p2.top ∙ p2.stack.0 in
    let s3 = push (s2.mem (s2.reg rsp)) s2 in
    let p3 : IsPushed s1.reg c (v ∷ v ∷ xs) s3 =
      subst (λ x. IsPushed s1.reg c (x ∷ v ∷ xs) s3) same
        (push-IsPushed s1.reg c (s2.mem (s2.reg rsp)) (v ∷ xs) s2 p2) in
    let low = c / 16 * 16 in
    let s4 : Cpu = record s3 { reg = write s3.reg rsp (bit_and (s3.reg rsp) (not64 15)) } in
    let moved : s4.reg rsp ≡ low =
      ap (λ x. bit_and x (not64 15)) p3.top ∙ bit_and_high 60 4 c (omega (arith, small)) in
    let (rsp_back, mem_back) = returns s4 in
    let found : s3.mem (low + 8) ≡ v = elim (Bool-cases (c % 16 == 0)) [
      | inl e ↦
          let here : low + 8 ≡ c + 8 = omega (arith, ==→eq (c % 16) 0 e) in
          ap s3.mem here ∙ p3.stack.1.0
      | inr e ↦
          let here : low + 8 ≡ c = omega (arith, ==→ne (c % 16) 0 e, even) in
          ap s3.mem here ∙ p3.stack.0
    ] in
    let back : (d s4).reg rsp + 8 ≡ low + 8 = omega (arith, rsp_back, moved) in
    let above : (q : ℕ) → low ≤ q → (d s4).mem q ≡ s3.mem q =
      λ q h. mem_back q (omega (arith, moved, h)) in
    record {
      top = ap (d s4).mem back ∙ above (low + 8) (omega arith) ∙ found;
      given_back = λ r h e. absurd (ground (arith, h));
      stack = Holds-above s3.mem (d s4).mem low (c + 8 + 8) xs above (omega arith) p3.stack.1.1;
    }
