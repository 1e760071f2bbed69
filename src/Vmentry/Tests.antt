-- ===== src/Vmentry/Tests.antt =====
-- Runs of the stubs of vmentry_exit.c.
use chypervisor.Prelude.{
  ℕ, ◌+◌, ◌-◌, ◌*◌, ◌%◌, ◌≡◌, ◌≢◌, ◌≤◌, ◌<◌, ◌⊎◌, inl, inr, refl, arith, true, false, some, [], ◌∷◌,
  ◌==◌, if◌then◌else◌,
}
use chypervisor.Interrupt.Stubs.{rax, rbx, rsp, rdi}
use chypervisor.Vmcs.Ideal.{Fields, ideal, ideal-Laws}
use chypervisor.Vmentry.{
  Core, Env, returned, general_protection, set_reg, run, before_call, asm_vmentry, asm_vmexit,
  set_host_rsp_thunk,
}
use chypervisor.Vmentry.Entry.{IsBack, Keeps, asm_vmentry-IsBack}
use chypervisor.Vmentry.Exit.{IsSaved, asm_vmexit-IsSaved}
use chypervisor.Vmentry.Trip.{IsCompiled, after_call, shifted, asm_vmexit-before_call}

-- A caller with the registers 0x1000, 0x1010, ... and a return address on its stack.
abbrev caller : Core Fields
caller = record {
  cpu = record {
    reg = λ r. if r == rsp then 0x8008 else 0x1000 + r * 16;
    rip = 0;
    cs = 8;
    rflags = 2;
    ss = 16;
    mem = λ q. if q == 0x8008 then 0x401005 else (if q == 0x8010 then 0x77 else 0);
  };
  xmm = λ i. (i, 0);
  zf = false;
  world = λ f. 0;
}

-- A function that leaves the registers to its caller as they are: RDI is the argument that it got.
abbrev refusing : Env Fields
refusing = record { set_host_rsp_thunk = λ w. some w; vm_enter = λ b u. some (true, u.world) }

refusing-Keeps : Keeps refusing.set_host_rsp_thunk
refusing-Keeps w t e = (cc, λ q h. cc)

asm_vmentry-IsBack_example :
    let t = run before_call caller in
    ((t.cpu.reg rdi % 16 ≡ 8)
      × ((u : Core Fields) × (asm_vmentry refusing caller ≡ returned u)
          × IsBack caller.cpu.reg 0x8008 0x401005 (0x77 ∷ []) u
          × (u.cpu.reg rax % 256 ≡ 1)))
    ⊎ ((t.cpu.reg rdi % 16 ≢ 8)
        × ((u : Core Fields) × (asm_vmentry refusing caller ≡ general_protection u)))
asm_vmentry-IsBack_example =
    asm_vmentry-IsBack refusing caller (run before_call caller) 0x401005 (0x77 ∷ []) (omega arith)
      (refl, (refl, tt)) refusing-Keeps refl (λ b u. ((true, u.world), refl))

-- A guest that exits with the pointer to an area at 0x9000 on top of the host's stack.
abbrev exited : Core Fields
exited = record {
  cpu = record {
    reg = λ r. if r == rsp then 0x7FD0 else 0x100 + r;
    rip = 0;
    cs = 8;
    rflags = 0x202;
    ss = 16;
    mem = λ q. if q == 0x7FD0 then 0x9000 else q + 1;
  };
  xmm = λ i. (i, 7);
  zf = false;
  world = λ f. 0;
}

abbrev kept : ℕ → ℕ
kept r = if r == rbx then 0x7FD9 else if r == 5 then 0x8001 else 0x7FE1 + (r - 12) * 8

asm_vmexit-IsSaved_example :
    (u : Core Fields) × (asm_vmexit exited ≡ returned u)
    × IsSaved exited.cpu.reg exited.xmm 0x9000 u.cpu.mem
    × IsBack kept 0x8008 0x8009 [] u
    × (u.cpu.reg rax ≡ 0)
    × ((q : ℕ) → (q < 0x9000) ⊎ (0x9000 + 256 ≤ q) → q ≢ 0x7FC8 → u.cpu.mem q ≡ exited.cpu.mem q)
asm_vmexit-IsSaved_example =
    asm_vmexit-IsSaved exited kept 0x9000 0x8009 (omega arith)
      (refl, (refl, (refl, (refl, (refl, (refl, (refl, (refl, tt)))))))) refl (inr (omega arith))

-- The compiled function as one that changes no register, and the guest as one that changes only RSP, as
-- every exit does.
abbrev unchanged : Core Fields → Core Fields
unchanged w = w

unchanged-IsCompiled : IsCompiled unchanged
unchanged-IsCompiled = record {
  same_rsp = λ w. refl;
  same_stack = λ w q h. refl;
  same_world = λ w. refl;
}

abbrev called : Core Fields
called = after_call ideal ideal-Laws 2 unchanged (run before_call caller)

abbrev guest_exit : Core Fields
guest_exit = record called { cpu = set_reg rsp 0x7FD8 called.cpu }

asm_vmexit-before_call_example :
    (set_host_rsp_thunk ideal 2 unchanged (run before_call caller) ≡ some called)
    × (guest_exit.cpu.reg rsp ≡ 0x7FD8)
    × ((u : Core Fields) × (asm_vmexit guest_exit ≡ returned u)
        × IsSaved guest_exit.cpu.reg guest_exit.xmm 0x1030 u.cpu.mem
        × IsBack (shifted caller.cpu.reg 0x401005) 0x8010 0x77 [] u)
unfolding run
asm_vmexit-before_call_example =
    asm_vmexit-before_call ideal ideal-Laws 2 unchanged unchanged-IsCompiled caller guest_exit
      0x401005 0x77 (omega arith) (omega arith) (refl, (refl, tt)) refl refl (λ q l h. refl) refl
      (inl (omega arith))
