-- ===== src/Vmcs/Machine.antt =====
-- The processor, as far as the hypervisor code uses it. Its instructions are not code of the
-- repository: they are fields of a record, and what the code relies on are the fields of `Laws`.
use chypervisor.Prelude.{ℕ, ◌/◌, ◌%◌, ◌^◌, ◌≡◌, ◌≢◌, Bool, true, false}
use chypervisor.Prelude.{◌==◌, if◌then◌else◌, bit_and, Option, none, some}
use chypervisor.Vmcs.ExitInfo.{vm_instruction_error, exit_info_field}

-- The control registers, selectors and table bases that the code reads (arch_x86_low.h).
pub data Reg : Type 0 where
  cr0 cr3 cr4 cs ss ds es fs gs tr gdtr_base idtr_base : Reg

-- `vmread` and the other VMX instructions give RFLAGS first.
pub record Machine : Type 1 where
  pub State : Type 0
  pub vmread : State → ℕ → ℕ × ℕ
  pub vmwrite : State → ℕ → ℕ → ℕ × State
  pub vmlaunch : State → ℕ × State
  pub rdmsr : State → ℕ → ℕ
  pub read_reg : State → Reg → ℕ
  pub load64 : State → ℕ → ℕ

-- `vmx_check_rflags`: `true` for the 0 that stands for success, that is CF and ZF both clear.
abbrev pub vmx_check_rflags : ℕ → Bool
vmx_check_rflags rflags = bit_and rflags 0x41 == 0

-- The bits that a field holds, by the width part of its encoding.
abbrev pub field_bits : ℕ → ℕ
field_bits f = let w = f / 8192 % 4 in if w == 0 then 16 else if w == 2 then 32 else 64

-- The VMCS as a map from fields: what VMREAD gives, `none` if it fails.
abbrev pub reading : (m : Machine) → m.State → ℕ → Option ℕ
reading m s f = let (rflags, v) = m.vmread s f in if vmx_check_rflags rflags then some v else none

abbrev pub error_field : ℕ
error_field = exit_info_field vm_instruction_error

-- The VM-instruction error can be read, which it can under a current VMCS.
abbrev pub HasError : (m : Machine) → m.State → Type 0
HasError m s = vmx_check_rflags (m.vmread s error_field).0 ≡ true

-- The encodings with access type full; those with access type high (bit 0 set) name the upper halves of
-- the same fields.
abbrev pub is_full : ℕ → Bool
is_full f = f % 2 == 0

-- What the processor's manual says of VMREAD and VMWRITE with full encodings. A write that reports success
-- is read back, cut to the field's width; a write that fails leaves the field; and no write touches a
-- register, an MSR, memory, or another field but the VM-instruction error, which stays readable.
pub record Laws (m : Machine) : Type 0 where
  pub read_self :
      (s : m.State) (f v : ℕ)
      → is_full f ≡ true
      → vmx_check_rflags (m.vmwrite s f v).0 ≡ true
      → reading m (m.vmwrite s f v).1 f ≡ some (v % 2 ^ field_bits f)
  pub read_other :
      (s : m.State) (f g v : ℕ)
      → is_full f ≡ true
      → is_full g ≡ true
      → (g == f) ≡ false
      → g ≢ error_field
      → reading m (m.vmwrite s f v).1 g ≡ reading m s g
  pub failed :
      (s : m.State) (f v : ℕ)
      → vmx_check_rflags (m.vmwrite s f v).0 ≡ false
      → f ≢ error_field
      → reading m (m.vmwrite s f v).1 f ≡ reading m s f
  pub error_readable : (s : m.State) (f v : ℕ) → HasError m s → HasError m (m.vmwrite s f v).1
  pub same_msr : (s : m.State) (f v a : ℕ) → m.rdmsr (m.vmwrite s f v).1 a ≡ m.rdmsr s a
  pub same_reg :
      (s : m.State) (f v : ℕ) (r : Reg) → m.read_reg (m.vmwrite s f v).1 r ≡ m.read_reg s r
  pub same_memory : (s : m.State) (f v a : ℕ) → m.load64 (m.vmwrite s f v).1 a ≡ m.load64 s a
