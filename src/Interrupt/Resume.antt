-- ===== src/Interrupt/Resume.antt =====
-- A whole interrupt through a stub of isr_stubs.c.
use chypervisor.Prelude.{ℕ, ◌+◌, ◌-◌, ◌*◌, ◌/◌, ◌^◌, ◌<◌, ◌≤◌, ◌≡◌, refl, sym, ap, ◌∙◌, arith}
use chypervisor.Prelude.{Bool, true, false, Option, none, some, List, [], ◌∷◌, ◌++◌}
use mathlib.Core.Path.{subst}
use chypervisor.Interrupt.Stubs.{Cpu, Instr, rsp, push, exec, run, save, isr_common}
use chypervisor.Interrupt.Stubs.{isr_stub, has_error, push_zero}
use chypervisor.Interrupt.Stubs.{deliver, push_frame, cli, pushq_imm, write}
use chypervisor.Interrupt.Saved.{IsPushed, push-IsPushed, up}
use chypervisor.Interrupt.Saved.{run-append, Returns}
use chypervisor.Interrupt.Return.{frame, context, IsResumed, save-IsPushed, isr_common-IsResumed}

frame-IsPushed :
    (s : Cpu) (c : ℕ)
    → s.reg rsp / 16 * 16 ≡ up 25 c
    → IsPushed s.reg (up 20 c) (frame s) (push_frame s)
frame-IsPushed s c at =
    let f = s.reg in
    let s0 : Cpu = record s { reg = write s.reg rsp (s.reg rsp / 16 * 16) } in
    let p0 : IsPushed f (up 25 c) [] s0 = record {
      top = at;
      others = λ r e. rw e refl;
      stack = omega arith;
    } in
    let s1 = push s.ss s0 in
    let p1 = push-IsPushed f (up 24 c) s.ss [] s0 p0 in
    let s2 = push (s.reg rsp) s1 in
    let p2 = push-IsPushed f (up 23 c) (s.reg rsp) (s.ss ∷ []) s1 p1 in
    let s3 = push s.rflags s2 in
    let p3 = push-IsPushed f (up 22 c) s.rflags (s.reg rsp ∷ s.ss ∷ []) s2 p2 in
    let s4 = push s.cs s3 in
    let p4 = push-IsPushed f (up 21 c) s.cs (s.rflags ∷ s.reg rsp ∷ s.ss ∷ []) s3 p3 in
    push-IsPushed f (up 20 c) s.rip (s.cs ∷ s.rflags ∷ s.reg rsp ∷ s.ss ∷ []) s4 p4

abbrev pub is_error : Option ℕ → Bool
is_error none = false
is_error (some code) = true

abbrev pub code_of : Option ℕ → ℕ
code_of none = 0
code_of (some code) = code

-- The stub up to `isr_common`.
abbrev pub entry : ℕ → List Instr
entry vec = cli ∷ (push_zero (has_error vec) ++ (pushq_imm vec ∷ []))

entry-IsPushed :
    (d : Cpu → Cpu) (s : Cpu) (c vec : ℕ) (error : Option ℕ)
    → has_error vec ≡ is_error error
    → s.reg rsp / 16 * 16 ≡ up 25 c
    → IsPushed s.reg (up 18 c) (vec ∷ code_of error ∷ frame s) (run d (entry vec) (deliver error s))
unfolding run
entry-IsPushed d s c vec none e at =
    let p = frame-IsPushed s c at in
    let s1 = exec d cli (push_frame s) in
    let p1 : IsPushed s.reg (up 20 c) (frame s) s1 = record {
      top = p.top;
      others = p.others;
      stack = p.stack;
    } in
    rw e (
      push-IsPushed s.reg (up 18 c) vec (0 ∷ frame s) (push 0 s1)
        (push-IsPushed s.reg (up 19 c) 0 (frame s) s1 p1))
entry-IsPushed d s c vec (some code) e at =
    let p = push-IsPushed s.reg (up 19 c) code (frame s) (push_frame s) (frame-IsPushed s c at) in
    let s1 = exec d cli (push code (push_frame s)) in
    let p1 : IsPushed s.reg (up 19 c) (code ∷ frame s) s1 = record {
      top = p.top;
      others = p.others;
      stack = p.stack;
    } in
    rw e (push-IsPushed s.reg (up 18 c) vec (code ∷ frame s) s1 p1)

stub_parts : (vec : ℕ) → isr_stub vec ≡ entry vec ++ isr_common
stub_parts vec =
    elim (has_error vec)
      as (λ b.
        cli ∷ (push_zero b ++ (pushq_imm vec ∷ isr_common))
        ≡ (cli ∷ (push_zero b ++ (pushq_imm vec ∷ []))) ++ isr_common) [
          | true ↦ refl
          | false ↦ refl
        ]

-- For an interrupt that pushes an error code exactly if the stub of its vector expects one, on a stack of
-- at least 512 bytes at a 64-bit address, with a dispatcher that returns and leaves the stack of its
-- caller alone: once the registers are saved, the stack holds the words of `intr_context_t` in the order
-- of the structure, with the interrupted registers, the vector, the error code or 0, and the interrupted
-- RIP, CS and RFLAGS; and the stub's end resumes the interrupted code with all its registers, RSP
-- included, and its RIP, CS, RFLAGS and SS.
pub isr_stub-IsResumed :
    (d : Cpu → Cpu) (s : Cpu) (vec : ℕ) (error : Option ℕ)
    → Returns d
    → has_error vec ≡ is_error error
    → 512 ≤ s.reg rsp
    → s.reg rsp < 2 ^ 64
    → let b = s.reg rsp / 16 * 16 - 184 in
      let saved = run d (entry vec ++ save) (deliver error s) in
      IsPushed s.reg b (context s.reg b (vec ∷ code_of error ∷ frame s)) saved
      × IsResumed s (run d (isr_stub vec) (deliver error s))
isr_stub-IsResumed d s vec error returns e room small =
    let c = s.reg rsp / 16 * 16 - 200 in
    let b = s.reg rsp / 16 * 16 - 184 in
    let at : s.reg rsp / 16 * 16 ≡ up 25 c = omega (arith, room) in
    let here : c + 8 + 8 ≡ b = omega (arith, room) in
    let t = run d (entry vec) (deliver error s) in
    let xs = vec ∷ code_of error ∷ frame s in
    let p = entry-IsPushed d s c vec error e at in
    let saved = save-IsPushed d s.reg (c + 8 + 8) xs t p in
    (
      subst (λ x. IsPushed s.reg b (context s.reg b xs) x)
          (sym (run-append d (entry vec) save (deliver error s)))
          (subst (λ x. IsPushed s.reg x (context s.reg x xs) (run d save t)) here saved),
      subst (λ x. IsResumed s x)
          (sym (
            ap (λ is. run d is (deliver error s)) (stub_parts vec)
            ∙ run-append d (entry vec) isr_common (deliver error s)))
          (isr_common-IsResumed d returns s c vec (code_of error) t (omega (arith, room))
            (omega (arith, room)) (omega (arith, small)) p),
    )
