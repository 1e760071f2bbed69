-- ===== src/Vmentry.antt =====
-- kernel/arch/x86/vmm/vmentry_exit.c: the two assembler stubs between the hypervisor and its guest, over
-- the processor of the interrupt stubs with the XMM registers and ZF. What the called C function does, and
-- whether VMLAUNCH and VMRESUME enter the guest, are parameters.
pub mod Entry
pub mod Exit
pub mod Trip
mod Tests
use chypervisor.Prelude.{
  ltb, zero, suc, ℕ, ◌+◌, ◌*◌, ◌/◌, ◌%◌, Bool, true, false, Option, none, some, List, [], ◌∷◌, ◌==◌,
  if◌then◌else◌, bit_and, not64,
}
use chypervisor.Interrupt.Stubs.{Cpu, rax, rcx, rdx, rbx, rsp, rbp, rsi, rdi, write, push, pop}
use chypervisor.Vmcs.Machine.{Machine}
use chypervisor.Vmcs.Access.{vmcs_vmwrite}
use chypervisor.Vmcs.Host.{host_field, host_rsp}

-- An XMM register is its two words. `world` is the processor's state beside these, the VMCS in it.
pub record Core (W : Type 0) : Type 0 where
  pub cpu : Cpu
  pub xmm : ℕ → ℕ × ℕ
  pub zf : Bool
  pub world : W

-- The instructions of the stubs that cannot fault on an aligned stack, sources before targets.
pub data Instr : Type 0 where
  cli xor_eax ret : Instr
  pushq popq pop_mem mov_al : ℕ → Instr
  mov add testb : ℕ → ℕ → Instr
  lea load store : ℕ → ℕ → ℕ → Instr

abbrev pub set_reg : ℕ → ℕ → Cpu → Cpu
set_reg r v c = record c { reg = write c.reg r v }

abbrev pub set_mem : ℕ → ℕ → Cpu → Cpu
set_mem a v c = record c { mem = write c.mem a v }

-- Of `xor` and `testb`, RFLAGS keep only ZF, which `jz` tests.
abbrev pub exec : {W : Type 0} → Instr → Core W → Core W
exec cli s =
    let c = s.cpu in record s { cpu = record c { rflags = bit_and c.rflags (not64 0x200) } }
exec xor_eax s = record s { cpu = set_reg rax 0 s.cpu; zf = true }
exec ret s =
    let c = s.cpu in
    record s { cpu = record c { rip = c.mem (c.reg rsp); reg = write c.reg rsp (c.reg rsp + 8) } }
exec (pushq r) s = record s { cpu = push (s.cpu.reg r) s.cpu }
exec (popq r) s = record s { cpu = pop r s.cpu }
exec (pop_mem base) s =
    let c = s.cpu in
    let popped = set_reg rsp (c.reg rsp + 8) c in
    record s { cpu = set_mem (popped.reg base) (c.mem (c.reg rsp)) popped }
exec (mov_al n) s = record s { cpu = set_reg rax (s.cpu.reg rax / 256 * 256 + n) s.cpu }
exec (mov a r) s = record s { cpu = set_reg r (s.cpu.reg a) s.cpu }
exec (add n r) s =
    let sum = s.cpu.reg r + n in record s { cpu = set_reg r sum s.cpu; zf = sum == 0 }
exec (testb offset r) s = record s { zf = bit_and (s.cpu.mem (s.cpu.reg r + offset)) 1 == 0 }
exec (lea offset a r) s = record s { cpu = set_reg r (s.cpu.reg a + offset) s.cpu }
exec (load offset a r) s = record s { cpu = set_reg r (s.cpu.mem (s.cpu.reg a + offset)) s.cpu }
exec (store r offset a) s = record s { cpu = set_mem (s.cpu.reg a + offset) (s.cpu.reg r) s.cpu }

unfoldable pub run : {W : Type 0} → List Instr → Core W → Core W
run [] s = s
run (i ∷ is) s = run is (exec i s)

-- `GuestRegisters` (vcpu.h): words in this order, then eight arrays of 16 bytes. The structure is packed.
abbrev pub guest_words : List ℕ
guest_words = rax ∷ rcx ∷ rdx ∷ rbx ∷ rbp ∷ rsi ∷ rdi ∷ 8 ∷ 9 ∷ 10 ∷ 11 ∷ 12 ∷ 13 ∷ 14 ∷ 15 ∷ []

-- `offsetof(GuestRegisters, xmm0)`, and `offsetof(Vcpu, launch_done)`, behind a structure of 248 bytes that
-- is aligned to 16.
abbrev pub off_xmm0 : ℕ
off_xmm0 = 15 * 8

abbrev pub off_guest : ℕ
off_guest = 0

abbrev pub off_launch : ℕ
off_launch = 256

-- What the stubs depend on: the function that is called with the new host RSP, `none` if it does not
-- return, and VMRESUME (`true`) or VMLAUNCH, which enters the guest or, with the ZF and world that it
-- leaves, goes on with the next instruction.
pub record Env (W : Type 0) : Type 0 where
  pub set_host_rsp_thunk : Core W → Option (Core W)
  pub vm_enter : Bool → Core W → Option (Bool × W)

-- How a stub ends: in the guest, at the address on the stack, by a general protection fault, or never.
pub data Outcome (W : Type 0) : Type 0 where
  entered returned general_protection : Core W → Outcome W
  no_return : Outcome W

abbrev pub before_call : List Instr
before_call =
    pushq rbp
    ∷ pushq 15
    ∷ pushq 14
    ∷ pushq 13
    ∷ pushq 12
    ∷ pushq rbx
    ∷ mov rdi rbx
    ∷ add off_guest rbx
    ∷ pushq rbx
    ∷ lea 8 rsp rdi
    ∷ []

abbrev pub load_words : List Instr
load_words =
    testb off_launch rdi
    ∷ lea off_guest rdi rax
    ∷ load 8 rax rcx
    ∷ load 16 rax rdx
    ∷ load 24 rax rbx
    ∷ load 40 rax rsi
    ∷ load 48 rax rdi
    ∷ load 32 rax rbp
    ∷ load 56 rax 8
    ∷ load 64 rax 9
    ∷ load 72 rax 10
    ∷ load 80 rax 11
    ∷ load 88 rax 12
    ∷ load 96 rax 13
    ∷ load 104 rax 14
    ∷ load 112 rax 15
    ∷ []

abbrev pub after_failure : List Instr
after_failure =
    mov_al 1 ∷ add 8 rsp ∷ popq rbx ∷ popq 12 ∷ popq 13 ∷ popq 14 ∷ popq 15 ∷ popq rbp ∷ ret ∷ []

abbrev pub save_words : List Instr
save_words =
    cli
    ∷ pushq rax
    ∷ load 8 rsp rax
    ∷ pop_mem rax
    ∷ add 8 rsp
    ∷ store rcx 8 rax
    ∷ store rdx 16 rax
    ∷ store rbx 24 rax
    ∷ store rbp 32 rax
    ∷ store rsi 40 rax
    ∷ store rdi 48 rax
    ∷ store 8 56 rax
    ∷ store 9 64 rax
    ∷ store 10 72 rax
    ∷ store 11 80 rax
    ∷ store 12 88 rax
    ∷ store 13 96 rax
    ∷ store 14 104 rax
    ∷ store 15 112 rax
    ∷ []

abbrev pub leave : List Instr
leave = popq rbx ∷ popq 12 ∷ popq 13 ∷ popq 14 ∷ popq 15 ∷ popq rbp ∷ xor_eax ∷ ret ∷ []

-- `movaps` faults unless its address is a multiple of 16.
abbrev pub aligned : ℕ → Bool
aligned a = a % 16 == 0

module _ {W : Type 0} where
  -- The eight `movaps` from and to the area at RAX.
  abbrev pub load_xmm : ℕ → Core W → Core W
  load_xmm offset s =
      let c = s.cpu in
      let at = λ (i : ℕ). c.reg rax + (offset + 16 * i) in
      record s { xmm = λ i. if ltb i 8 then (c.mem (at i), c.mem (at i + 8)) else s.xmm i }

  abbrev pub store_xmm_below : ℕ → ℕ → Core W → Core W
  store_xmm_below offset zero s = s
  store_xmm_below offset (suc n) s =
      let t = store_xmm_below offset n s in
      let b = t.cpu.reg rax in
      let low = set_mem (b + (offset + 16 * n)) (t.xmm n).0 t.cpu in
      record t { cpu = set_mem (b + (offset + 16 * n + 8)) (t.xmm n).1 low }

  -- From `vmlaunch` on.
  unfoldable pub launch : Env W → Core W → Outcome W
  launch e s = elim (e.vm_enter false s) [
    | none ↦ entered s
    | some (zf, w) ↦ returned (run after_failure (record s { zf = zf; world = w }))
  ]

  -- After a VMRESUME that fails, VMLAUNCH is next.
  unfoldable pub resume : Env W → Core W → Outcome W
  resume e s = elim (e.vm_enter true s) [
    | none ↦ entered s
    | some (zf, w) ↦ launch e (record s { zf = zf; world = w })
  ]

  -- From `jz` on.
  unfoldable pub resume_or_launch : Env W → Core W → Outcome W
  resume_or_launch e s = if s.zf then launch e s else resume e s

  -- After the call. RAX is loaded last.
  unfoldable pub load_and_enter : Env W → Core W → Outcome W
  load_and_enter e t =
      let s = run load_words t in
      if aligned (s.cpu.reg rax + off_xmm0)
      then resume_or_launch e (exec (load 0 rax rax) (load_xmm off_xmm0 s))
      else general_protection s

  unfoldable pub asm_vmentry : Env W → Core W → Outcome W
  asm_vmentry e s = elim (e.set_host_rsp_thunk (run before_call s)) [
    | none ↦ no_return
    | some t ↦ load_and_enter e t
  ]

  unfoldable pub asm_vmexit : Core W → Outcome W
  asm_vmexit s =
      let t = run save_words s in
      if aligned (t.cpu.reg rax + 128)
      then returned (run leave (store_xmm_below 128 8 t))
      else general_protection t

-- `set_host_rsp_thunk` (vcpu.c), over the depth of the stack for `vmcs_vmwrite` and what the compiled
-- function does to the registers and the stack below its own.
unfoldable pub set_host_rsp_thunk :
    (m : Machine) → ℕ → (Core m.State → Core m.State) → Core m.State → Option (Core m.State)
set_host_rsp_thunk m depth compiled s =
    elim (vmcs_vmwrite m depth s.world (host_field host_rsp) (s.cpu.reg rdi)) [
      | none ↦ none
      | some (written, w) ↦ some (compiled (record s { world = w }))
    ]
