-- ===== src/Vmentry/Entry.antt =====
-- `asm_vmentry` (vmentry_exit.c): the stack that it builds, what it loads, and how it comes back.
use chypervisor.Prelude.{
  ℕ, ◌+◌, ◌-◌, ◌%◌, ◌≤◌, ◌≡◌, ◌≢◌, refl, sym, ap, ◌∙◌, arith, ◌==◌, ◌⊎◌, inl, inr,
}
use chypervisor.Prelude.{Bool, true, false, Option, some, List, [], ◌∷◌, if_all, ℕ_discrete}
use mathlib.Core.Path.{subst}
use chypervisor.Interrupt.Stubs.{Cpu, rax, rcx, rdx, rbx, rsp, rbp, rsi, rdi, push}
use chypervisor.Interrupt.Stubs
use chypervisor.Interrupt.Saved.{Holds, IsPushed, push-IsPushed, pushes-IsPushed, up, Holds-above}
use chypervisor.Vmentry.{Core, Env, Outcome, returned, general_protection, exec, run}
use chypervisor.Vmentry.{before_call, load_words, after_failure, load_xmm, off_xmm0, off_guest}
use chypervisor.Vmentry.{
  load, launch, resume, resume_or_launch, load_and_enter, asm_vmentry, set_reg,
}

-- The registers that a called function gives back, in the order in which the stub pops them.
abbrev pub callee_saved : (ℕ → ℕ) → List ℕ → List ℕ
callee_saved f xs = f rbx ∷ f 12 ∷ f 13 ∷ f 14 ∷ f 15 ∷ f rbp ∷ xs

-- The calling convention: RSP and the stack from it up are left alone by a function that returns.
abbrev pub Keeps : {W : Type 0} → (Core W → Option (Core W)) → Type 0
Keeps {W} thunk =
    (w t : Core W)
    → thunk w ≡ some t
    → (t.cpu.reg rsp ≡ w.cpu.reg rsp) × ((q : ℕ) → w.cpu.reg rsp ≤ q → t.cpu.mem q ≡ w.cpu.mem q)

module _ {W : Type 0} where
  -- The state at the call: the pointer to the registers is on top, and RDI points just above it.
  pub before_call-Holds :
      (s : Core W) (a : ℕ) (xs : List ℕ)
      → s.cpu.reg rsp ≡ up 7 a
      → Holds s.cpu.mem (up 7 a) xs
      → let w = run before_call s in
        (w.cpu.reg rsp ≡ a)
        × (w.cpu.reg rdi ≡ a + 8)
        × (w.world ≡ s.world)
        × Holds w.cpu.mem a ((s.cpu.reg rdi + off_guest) ∷ callee_saved s.cpu.reg xs)
  unfolding run Stubs.run
  before_call-Holds s a xs at h =
      let f = s.cpu.reg in
      let p0 : IsPushed f (up 7 a) xs s.cpu = record {
        top = at;
        others = λ r e. refl;
        stack = h;
      } in
      let six = rbp ∷ 15 ∷ 14 ∷ 13 ∷ 12 ∷ rbx ∷ [] in
      let c6 = Stubs.run (λ c. c) (Stubs.pushes six) s.cpu in
      let p6 =
        pushes-IsPushed (λ c. c) f (up 1 a) six xs s.cpu
          (refl, (refl, (refl, (refl, (refl, (refl, omega arith)))))) p0 in
      let c8 = set_reg rbx (c6.reg rdi + off_guest) (set_reg rbx (c6.reg rdi) c6) in
      let p8 : IsPushed c8.reg (up 1 a) (callee_saved f xs) c8 = record {
        top = p6.top;
        others = λ r e. refl;
        stack = p6.stack;
      } in
      let p9 = push-IsPushed c8.reg a (c8.reg rbx) (callee_saved f xs) c8 p8 in
      let same : c6.reg rdi + off_guest ≡ f rdi + off_guest =
        ap (λ t. t + off_guest) (p6.others rdi refl) in
      (p9.top, ap (λ t. t + 8) p9.top, refl, (p9.stack.0 ∙ same, p9.stack.1))

-- A return to `ret` by a stub that was called with the registers `f` and RSP `sp`, and the stack `xs`
-- above the return address.
pub record IsBack {W : Type 0} (f : ℕ → ℕ) (sp ret : ℕ) (xs : List ℕ) (u : Core W) : Type 0 where
  pub rip : u.cpu.rip ≡ ret
  pub top : u.cpu.reg rsp ≡ sp + 8
  pub kept_rbx : u.cpu.reg rbx ≡ f rbx
  pub kept_12 : u.cpu.reg 12 ≡ f 12
  pub kept_13 : u.cpu.reg 13 ≡ f 13
  pub kept_14 : u.cpu.reg 14 ≡ f 14
  pub kept_15 : u.cpu.reg 15 ≡ f 15
  pub kept_rbp : u.cpu.reg rbp ≡ f rbp
  pub stack : Holds u.cpu.mem (sp + 8) xs

module _ {W : Type 0} where
  after_failure-IsBack :
      (u : Core W) (f : ℕ → ℕ) (a p ret : ℕ) (xs : List ℕ)
      → u.cpu.reg rsp ≡ a
      → Holds u.cpu.mem a (p ∷ callee_saved f (ret ∷ xs))
      → IsBack f (up 7 a) ret xs (run after_failure u)
        × ((run after_failure u).cpu.reg rax % 256 ≡ 1)
  unfolding run
  after_failure-IsBack u f a p ret xs at h =
      let m = u.cpu.mem in
      (
        record {
          rip = ap (λ t. m (up 7 t)) at ∙ h.1.1.1.1.1.1.1.0;
          top = ap (λ t. up 8 t) at;
          kept_rbx = ap (λ t. m (up 1 t)) at ∙ h.1.0;
          kept_12 = ap (λ t. m (up 2 t)) at ∙ h.1.1.0;
          kept_13 = ap (λ t. m (up 3 t)) at ∙ h.1.1.1.0;
          kept_14 = ap (λ t. m (up 4 t)) at ∙ h.1.1.1.1.0;
          kept_15 = ap (λ t. m (up 5 t)) at ∙ h.1.1.1.1.1.0;
          kept_rbp = ap (λ t. m (up 6 t)) at ∙ h.1.1.1.1.1.1.0;
          stack = h.1.1.1.1.1.1.1.1;
        },
        omega arith,
      )

  -- Neither instruction enters the guest.
  abbrev pub Refuses : Env W → Type 0
  Refuses e = (b : Bool) (u : Core W) → (r : Bool × W) × (e.vm_enter b u ≡ some r)

  -- What follows a failure of both, in a state that differs from `s` by ZF and world.
  abbrev pub Fails : Core W → Outcome W → Type 0
  Fails s o =
      (zf : Bool) × (w : W) × (o ≡ returned (run after_failure (record s { zf = zf; world = w })))

  launch-Fails : (e : Env W) (s : Core W) → Refuses e → Fails s (launch e s)
  unfolding launch
  launch-Fails e s refuses =
      let ((zf, w), failed) = refuses false s in (zf, w, rw (failed, launch) refl)

  resume-Fails : (e : Env W) (s : Core W) → Refuses e → Fails s (resume e s)
  unfolding resume
  resume-Fails e s refuses =
      let ((zf, w), failed) = refuses true s in
      rw (failed, resume) (launch-Fails e (record s { zf = zf; world = w }) refuses)

  resume_or_launch-Fails : (e : Env W) (s : Core W) → Refuses e → Fails s (resume_or_launch e s)
  unfolding resume_or_launch
  resume_or_launch-Fails e s refuses =
      if_all (λ o. Fails s o) s.zf (launch e s) (resume e s) (λ z. launch-Fails e s refuses)
        (λ nz. resume-Fails e s refuses)

  -- What the stub loads, where its `movaps` do not fault.
  abbrev pub loaded : Core W → Core W
  loaded t = exec (load 0 rax rax) (load_xmm off_xmm0 (run load_words t))

  loaded-rsp : (t : Core W) → (loaded t).cpu.reg rsp ≡ t.cpu.reg rsp
  unfolding run
  loaded-rsp t = refl

  loaded-mem : (t : Core W) → (loaded t).cpu.mem ≡ t.cpu.mem
  unfolding run
  loaded-mem t = refl

  pub load_and_enter-aligned :
      (e : Env W) (t : Core W)
      → t.cpu.reg rdi % 16 ≡ 8
      → load_and_enter e t ≡ resume_or_launch e (loaded t)
  unfolding load_and_enter run
  load_and_enter-aligned e t h =
      let fits : ((t.cpu.reg rdi + off_guest + off_xmm0) % 16 == 0) ≡ true = ground arith in
      rw fits refl

  load_and_enter_faults :
      (e : Env W) (t : Core W)
      → t.cpu.reg rdi % 16 ≢ 8
      → load_and_enter e t ≡ general_protection (run load_words t)
  unfolding load_and_enter run
  load_and_enter_faults e t h =
      let odd : ((t.cpu.reg rdi + off_guest + off_xmm0) % 16 == 0) ≡ false = ground arith in
      rw odd refl

  pub asm_vmentry-called :
      (e : Env W) (s t : Core W)
      → e.set_host_rsp_thunk (run before_call s) ≡ some t
      → asm_vmentry e s ≡ load_and_enter e t
  unfolding asm_vmentry
  asm_vmentry-called e s t called = rw (called, asm_vmentry) refl

  -- For a stack with room for seven words and a called function that keeps to the calling convention and
  -- returns, when neither VMRESUME nor VMLAUNCH enters the guest: if RDI is 8 modulo 16 after the call,
  -- `asm_vmentry` returns to its caller with AL = 1, the registers that a function has to keep, and the
  -- stack of its caller as it was; else its first `movaps` faults.
  pub asm_vmentry-IsBack :
      (e : Env W) (s t : Core W) (ret : ℕ) (xs : List ℕ)
      → 56 ≤ s.cpu.reg rsp
      → Holds s.cpu.mem (s.cpu.reg rsp) (ret ∷ xs)
      → Keeps e.set_host_rsp_thunk
      → e.set_host_rsp_thunk (run before_call s) ≡ some t
      → Refuses e
      → ((t.cpu.reg rdi % 16 ≡ 8)
          × ((u : Core W) × (asm_vmentry e s ≡ returned u)
              × IsBack s.cpu.reg (s.cpu.reg rsp) ret xs u
              × (u.cpu.reg rax % 256 ≡ 1)))
        ⊎ ((t.cpu.reg rdi % 16 ≢ 8) × ((u : Core W) × (asm_vmentry e s ≡ general_protection u)))
  asm_vmentry-IsBack e s t ret xs room h keeps called refuses =
      let a = s.cpu.reg rsp - 56 in
      let here : s.cpu.reg rsp ≡ up 7 a = omega (arith, room) in
      let f = s.cpu.reg in
      let w = run before_call s in
      let (top, _, _, held) =
        before_call-Holds s a (ret ∷ xs) here (subst (λ q. Holds s.cpu.mem q (ret ∷ xs)) here h) in
      let (top', same) = keeps w t called in
      let ys = (f rdi + off_guest) ∷ callee_saved f (ret ∷ xs) in
      let held' : Holds t.cpu.mem a ys =
        Holds-above w.cpu.mem t.cpu.mem (w.cpu.reg rsp) a ys same (omega (arith, top)) held in
      elim (ℕ_discrete (t.cpu.reg rdi % 16) 8) [
        | yes fits ↦
            let (zf, w', failed) = resume_or_launch-Fails e (loaded t) refuses in
            let l = loaded t in
            let back =
              after_failure-IsBack (record l { zf = zf; world = w' }) f a (f rdi + off_guest) ret xs
                (loaded-rsp t ∙ top' ∙ top)
                (subst (λ (m : ℕ → ℕ). Holds m a ys) (sym (loaded-mem t)) held') in
            inl (
              fits,
              (
                run after_failure (record l { zf = zf; world = w' }),
                asm_vmentry-called e s t called ∙ load_and_enter-aligned e t fits ∙ failed,
                subst
                    (λ q. IsBack f q ret xs (run after_failure (record l { zf = zf; world = w' })))
                    (sym here) back.0,
                back.1,
              ),
            )
        | no odd ↦ inr (
          odd,
          (run load_words t, asm_vmentry-called e s t called ∙ load_and_enter_faults e t odd),
        )
      ]
