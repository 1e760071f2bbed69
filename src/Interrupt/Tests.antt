-- ===== src/Interrupt/Tests.antt =====
-- Runs of interrupt.c and idt.c.
use chypervisor.Prelude.{ℕ, ◌+◌, ◌*◌, ◌%◌, ◌^◌, ◌≡◌, ◌<◌, arith, true, false, none, some}
use chypervisor.Interrupt.{
  Interrupts, Handler, clear_gate, default_unhandled, intr_init_all_vectors,
}
use chypervisor.Prelude.{refl, ◌∷◌, ◌++◌, ◌==◌, if◌then◌else◌, ltb}
use chypervisor.Interrupt.Stubs.{Cpu, rsp, run, save, isr_stub, deliver}
use chypervisor.Interrupt.Saved.{Returns, IsPushed}
use chypervisor.Interrupt.Return.{IsResumed, context, frame}
use chypervisor.Interrupt.Resume.{entry, isr_stub-IsResumed}
use chypervisor.Interrupt.Vectors.{Leads, intr_init_all_vectors-Leads}

abbrev before : Interrupts ℕ
before = record {
  g_handlers = λ i. none;
  g_idt = λ i. clear_gate;
  idtr_limit = 0;
  idtr_base = 0;
  enabled = false;
}

abbrev stubs : ℕ → ℕ
stubs v = (0xFFFFFFFF80100000 + 16 * v) % 2 ^ 64

intr_init_all_vectors-Leads_example :
    let t = intr_init_all_vectors stubs 0x2000 before in
    ((v : ℕ) → v < 256 → Leads (stubs v) (t.g_idt v) × (t.g_handlers v ≡ some default_unhandled))
    × (t.enabled ≡ true)
intr_init_all_vectors-Leads_example =
    intr_init_all_vectors-Leads stubs 0x2000 before (λ v. omega arith)

-- A handler that counts.
abbrev tick : Handler ℕ
tick n = some (n + 1)

-- A page fault in code with a stack that is not aligned.
abbrev interrupted : Cpu
interrupted = record {
  reg = λ r. if r == rsp then 0x8008 else 0x100 + r;
  rip = 0x401000;
  cs = 0x10;
  rflags = 0x202;
  ss = 0x18;
  mem = λ q. 0;
}

-- A dispatcher that changes every register but RSP, and the stack below it.
abbrev clobber : Cpu → Cpu
clobber w = record w {
  reg = λ r. if r == rsp then w.reg rsp else 0;
  mem = λ q. if ltb q (w.reg rsp) then 7 else w.mem q;
}

clobber-Returns : Returns clobber
clobber-Returns w = (refl, λ q h. ground arith)

isr_stub-IsResumed_example :
    IsPushed interrupted.reg 0x7F48
      (context interrupted.reg 0x7F48 (14 ∷ 2 ∷ frame interrupted))
      (run clobber (entry 14 ++ save) (deliver (some 2) interrupted))
    × IsResumed interrupted (run clobber (isr_stub 14) (deliver (some 2) interrupted))
isr_stub-IsResumed_example =
    isr_stub-IsResumed clobber interrupted 14 (some 2) clobber-Returns refl (omega arith)
      (omega arith)

-- Vector 20 arrives without an error code; its stub returns to CS as an address.
isr_stub-virtualization : (run clobber (isr_stub 20) (deliver none interrupted)).rip ≡ 0x10
unfolding run
isr_stub-virtualization = refl
