-- ===== src/Interrupt/Return.antt =====
-- `isr_common` (isr_stubs.c) from a saved frame to its `iretq`.
use chypervisor.Prelude.{ℕ, ◌+◌, ◌%◌, ◌^◌, ◌<◌, ◌≤◌, ◌≡◌, refl, sym, ap, ◌∙◌, arith}
use chypervisor.Prelude.{true, false, List, [], ◌∷◌, ◌++◌, ◌==◌, ==→eq, Bool-cases, inl, inr}
use mathlib.Core.Path.{subst}
use chypervisor.Interrupt.Stubs.{
  Cpu, rsp, push, exec, run, pushes, pops, save, call_aligned, restore, isr_common,
}
use chypervisor.Interrupt.Stubs.{first_saved, last_saved, first_restored, last_restored}
use chypervisor.Interrupt.Stubs.{popq, rax, rcx, rdx, rbx, rbp, rsi, rdi, add_rsp, iretq}
use chypervisor.Interrupt.Saved.{
  IsPushed, IsPopped, push-IsPushed, pushes-IsPushed, pops-IsPopped, up,
}
use chypervisor.Interrupt.Saved.{
  popq_rsp-IsPopped, run-append, Returns, call_aligned-IsPopped, elem, kept, onto, NoRsp,
}

-- The words that the processor pushes.
abbrev pub frame : Cpu → List ℕ
frame s = s.rip ∷ s.cs ∷ s.rflags ∷ s.reg rsp ∷ s.ss ∷ []

-- The interrupted code goes on as if nothing had happened.
pub record IsResumed (s t : Cpu) : Type 0 where
  pub regs : (r : ℕ) → r < 16 → t.reg r ≡ s.reg r
  pub rip : t.rip ≡ s.rip
  pub cs : t.cs ≡ s.cs
  pub rflags : t.rflags ≡ s.rflags
  pub ss : t.ss ≡ s.ss

-- The words of `intr_context_t` from `rdi` on, in the order of the structure.
abbrev pub context : (ℕ → ℕ) → ℕ → List ℕ → List ℕ
context f b xs = kept f first_restored (up 12 b ∷ kept f last_restored xs)

first_saved-NoRsp : NoRsp first_saved
first_saved-NoRsp = (refl, (refl, (refl, (refl, omega arith))))

last_saved-NoRsp : NoRsp last_saved
last_saved-NoRsp = (
  refl,
  (refl, (refl, (refl, (refl, (refl, (refl, (refl, (refl, (refl, (refl, omega arith)))))))))),
)

first_restored-NoRsp : NoRsp first_restored
first_restored-NoRsp = (
  refl,
  (refl, (refl, (refl, (refl, (refl, (refl, (refl, (refl, (refl, (refl, omega arith)))))))))),
)

last_restored-NoRsp : NoRsp last_restored
last_restored-NoRsp = (refl, (refl, (refl, (refl, omega arith))))

pub save-IsPushed :
    (d : Cpu → Cpu) (f : ℕ → ℕ) (b : ℕ) (xs : List ℕ) (s : Cpu)
    → IsPushed f (up 16 b) xs s
    → IsPushed f b (context f b xs) (run d save s)
unfolding run
save-IsPushed d f b xs s p =
    let s1 = run d (pushes first_saved) s in
    let p1 = pushes-IsPushed d f (up 12 b) first_saved xs s first_saved-NoRsp p in
    let s2 = push (s1.reg rsp) s1 in
    let p2 : IsPushed f (up 11 b) (up 12 b ∷ kept f last_restored xs) s2 =
      subst (λ v. IsPushed f (up 11 b) (v ∷ kept f last_restored xs) s2) p1.top
        (push-IsPushed f (up 11 b) (s1.reg rsp) (kept f last_restored xs) s1 p1) in
    pushes-IsPushed d f b last_saved (up 12 b ∷ kept f last_restored xs) s2 last_saved-NoRsp p2

abbrev all_restored : List ℕ
all_restored = rax ∷ rcx ∷ rdx ∷ rbx ∷ rbp ∷ rsi ∷ rdi ∷ 15 ∷ 14 ∷ 13 ∷ 12 ∷ 11 ∷ 10 ∷ 9 ∷ 8 ∷ []

restore-IsPopped :
    (d : Cpu → Cpu) (f : ℕ → ℕ) (b : ℕ) (xs : List ℕ) (s : Cpu)
    → IsPopped f [] b (context f b xs) s
    → IsPopped f all_restored (up 16 b) xs (run d restore s)
unfolding run
restore-IsPopped d f b xs s p =
    let s1 = run d (pops first_restored) s in
    let p1 =
      pops-IsPopped d f [] b first_restored (up 12 b ∷ kept f last_restored xs) s
        first_restored-NoRsp p in
    let p2 =
      popq_rsp-IsPopped d f (onto first_restored []) (up 11 b) (kept f last_restored xs) s1 p1 in
    pops-IsPopped d f (onto first_restored []) (up 12 b) last_restored xs (exec d (popq rsp) s1)
      last_restored-NoRsp p2

all_but_rsp : (r : ℕ) → r < 16 → (r == rsp) ≡ false → elem r all_restored ≡ true
all_but_rsp r low e = ground arith

module _ (d : Cpu → Cpu) (returns : Returns d) (s : Cpu) where
  -- The end of `isr_common`, at the two words above the registers.
  leave :
      (a vec code : ℕ) (t : Cpu)
      → IsPopped s.reg all_restored a (vec ∷ code ∷ frame s) t
      → IsResumed s (run d (add_rsp 16 ∷ iretq ∷ []) t)
  unfolding run
  leave a vec code t p =
      let sp : t.reg rsp + 16 ≡ a + 8 + 8 = omega (arith, p.top) in
      let h = p.stack.1.1 in
      record {
        regs = λ r low. elim (Bool-cases (r == rsp)) [
          | inl e ↦
              rw e (ap (λ x. t.mem (x + 8 + 8 + 8)) sp ∙ h.1.1.1.0 ∙ ap s.reg (sym (==→eq r rsp e)))
          | inr e ↦ rw e (p.given_back r (all_but_rsp r low e) e)
        ];
        rip = ap t.mem sp ∙ h.0;
        cs = ap (λ x. t.mem (x + 8)) sp ∙ h.1.0;
        rflags = ap (λ x. t.mem (x + 8 + 8)) sp ∙ h.1.1.0;
        ss = ap (λ x. t.mem (x + 8 + 8 + 8 + 8)) sp ∙ h.1.1.1.1.0;
      }

  pub isr_common-IsResumed :
      (c vec code : ℕ) (t : Cpu)
      → c % 8 ≡ 0
      → 16 ≤ c
      → c < 2 ^ 64
      → IsPushed s.reg (up 18 c) (vec ∷ code ∷ frame s) t
      → IsResumed s (run d isr_common t)
  isr_common-IsResumed c vec code t even room small p =
      let b = c + 8 + 8 in
      let xs = vec ∷ code ∷ frame s in
      let f = s.reg in
      let end = add_rsp 16 ∷ iretq ∷ [] in
      let t1 = run d save t in
      let t2 = run d call_aligned t1 in
      let p1 = save-IsPushed d f b xs t p in
      let p2 = call_aligned-IsPopped d f c (context f b xs) t1 returns even room (omega arith) p1 in
      let p3 = restore-IsPopped d f b xs t2 p2 in
      let whole : run d isr_common t ≡ run d end (run d restore t2) =
        run-append d save (call_aligned ++ (restore ++ end)) t
        ∙ run-append d call_aligned (restore ++ end) t1
        ∙ run-append d restore end t2 in
      subst (λ x. IsResumed s x) (sym whole) (leave (up 16 b) vec code (run d restore t2) p3)
