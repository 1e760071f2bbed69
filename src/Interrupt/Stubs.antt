-- ===== src/Interrupt/Stubs.antt =====
-- kernel/arch/x86/isr_stubs.c: the assembler of the interrupt stubs, as instructions of a processor.
use chypervisor.Prelude.{ℕ, ◌+◌, ◌-◌, ◌*◌, ◌/◌}
use chypervisor.Prelude.{
  Bool, true, false, Option, none, some, List, [], ◌∷◌, ◌++◌, ◌==◌, ◌||◌, if◌then◌else◌, bit_and,
  not64,
}

-- A processor: its registers by number (4 is RSP), and memory in words of 64 bits by their addresses.
pub record Cpu : Type 0 where
  pub reg : ℕ → ℕ
  pub rip : ℕ
  pub cs : ℕ
  pub rflags : ℕ
  pub ss : ℕ
  pub mem : ℕ → ℕ

abbrev pub rax : ℕ
rax = 0

abbrev pub rcx : ℕ
rcx = 1

abbrev pub rdx : ℕ
rdx = 2

abbrev pub rbx : ℕ
rbx = 3

abbrev pub rsp : ℕ
rsp = 4

abbrev pub rbp : ℕ
rbp = 5

abbrev pub rsi : ℕ
rsi = 6

abbrev pub rdi : ℕ
rdi = 7

pub data Instr : Type 0 where
  cli push_top and_rsp call_dispatch iretq : Instr
  pushq_imm pushq popq add_rsp : ℕ → Instr
  mov_rsp load : ℕ → Instr

abbrev pub write : (ℕ → ℕ) → ℕ → ℕ → ℕ → ℕ
write m p v q = if q == p then v else m q

abbrev pub push : ℕ → Cpu → Cpu
push v s =
    let top = s.reg rsp - 8 in record s { reg = write s.reg rsp top; mem = write s.mem top v }

abbrev pub pop : ℕ → Cpu → Cpu
pop r s = let top = s.reg rsp in record s { reg = write (write s.reg rsp (top + 8)) r (s.mem top) }

-- What the instructions that the stubs use do, over what the call of `intr_dispatch_entry` does.
abbrev pub exec : (Cpu → Cpu) → Instr → Cpu → Cpu
exec dispatch cli s = record s { rflags = bit_and s.rflags (not64 0x200) }
exec dispatch (pushq_imm n) s = push n s
exec dispatch (pushq r) s = push (s.reg r) s
exec dispatch push_top s = push (s.mem (s.reg rsp)) s
exec dispatch (popq r) s = pop r s
exec dispatch (mov_rsp r) s = record s { reg = write s.reg r (s.reg rsp) }
exec dispatch and_rsp s = record s { reg = write s.reg rsp (bit_and (s.reg rsp) (not64 15)) }
exec dispatch call_dispatch s = dispatch s
exec dispatch (load offset) s = record s { reg = write s.reg rsp (s.mem (s.reg rsp + offset)) }
exec dispatch (add_rsp n) s = record s { reg = write s.reg rsp (s.reg rsp + n) }
exec dispatch iretq s =
    let top = s.reg rsp in
    record s {
      rip = s.mem top;
      cs = s.mem (top + 8);
      rflags = s.mem (top + 8 + 8);
      reg = write s.reg rsp (s.mem (top + 8 + 8 + 8));
      ss = s.mem (top + 8 + 8 + 8 + 8);
    }

unfoldable pub run : (Cpu → Cpu) → List Instr → Cpu → Cpu
run dispatch [] s = s
run dispatch (i ∷ is) s = run dispatch is (exec dispatch i s)

abbrev pub pushes : List ℕ → List Instr
pushes [] = []
pushes (r ∷ rs) = pushq r ∷ pushes rs

abbrev pub pops : List ℕ → List Instr
pops [] = []
pops (r ∷ rs) = popq r ∷ pops rs

-- The registers that `isr_common` saves before RSP, and after it.
abbrev pub first_saved : List ℕ
first_saved = rax ∷ rcx ∷ rdx ∷ rbx ∷ []

abbrev pub last_saved : List ℕ
last_saved = rbp ∷ rsi ∷ rdi ∷ 15 ∷ 14 ∷ 13 ∷ 12 ∷ 11 ∷ 10 ∷ 9 ∷ 8 ∷ []

abbrev pub save : List Instr
save = pushes first_saved ++ (pushq rsp ∷ pushes last_saved)

-- The context in RDI, the stack aligned for the call, and given back after it.
abbrev pub call_aligned : List Instr
call_aligned = mov_rsp rdi ∷ pushq rsp ∷ push_top ∷ and_rsp ∷ call_dispatch ∷ load 8 ∷ []

abbrev pub first_restored : List ℕ
first_restored = 8 ∷ 9 ∷ 10 ∷ 11 ∷ 12 ∷ 13 ∷ 14 ∷ 15 ∷ rdi ∷ rsi ∷ rbp ∷ []

abbrev pub last_restored : List ℕ
last_restored = rbx ∷ rdx ∷ rcx ∷ rax ∷ []

abbrev pub restore : List Instr
restore = pops first_restored ++ (popq rsp ∷ pops last_restored)

abbrev pub isr_common : List Instr
isr_common = save ++ (call_aligned ++ (restore ++ (add_rsp 16 ∷ iretq ∷ [])))

-- The vectors of `DEF1`.
abbrev pub has_error : ℕ → Bool
has_error vec =
    vec == 8
    || vec == 10
    || vec == 11
    || vec == 12
    || vec == 13
    || vec == 14
    || vec == 17
    || vec == 20
    || vec == 21

abbrev pub push_zero : Bool → List Instr
push_zero true = []
push_zero false = pushq_imm 0 ∷ []

abbrev pub isr_stub : ℕ → List Instr
isr_stub vec = cli ∷ (push_zero (has_error vec) ++ (pushq_imm vec ∷ isr_common))

-- What the processor does on an interrupt in 64-bit mode, before the stub: it aligns the stack, and
-- pushes the interrupted state and, for some exceptions, an error code.
abbrev pub push_frame : Cpu → Cpu
push_frame s =
    let aligned = record s { reg = write s.reg rsp (s.reg rsp / 16 * 16) } in
    push s.rip (push s.cs (push s.rflags (push (s.reg rsp) (push s.ss aligned))))

abbrev pub deliver : Option ℕ → Cpu → Cpu
deliver none s = push_frame s
deliver (some code) s = push code (push_frame s)
