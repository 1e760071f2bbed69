-- ===== src/Vmx.antt =====
-- kernel/arch/x86/vmm/vmx.c, with the bit-fields and MSR numbers of msr.h and the CPUID tests of cpuid.h:
-- how the processor enters VMX root operation. The processor's instructions, the clearing and writing of
-- memory and the page allocator are an interface.
use chypervisor.Prelude.{
  ℕ, ◌+◌, ◌-◌, ◌*◌, ◌/◌, ◌%◌, ◌^◌, Bool, true, false, ◌&&◌, not, ◌==◌, if◌then◌else◌,
}
use chypervisor.Prelude.{Option, none, some, bit_and, bit_or, ◌<<<◌, u32, u64}
use chypervisor.Prelude.Bits.{bit}
use chypervisor.Paging.{virt2phys}
use chypervisor.Vmcs.Machine.{vmx_check_rflags}
pub mod Features
mod Tests

pub record Cpuid : Type 0 where
  pub eax : ℕ
  pub ebx : ℕ
  pub ecx : ℕ
  pub edx : ℕ

pub record Cpu : Type 1 where
  pub State : Type 0
  pub cpuid_leaf : State → ℕ → Cpuid
  pub rdmsr : State → ℕ → ℕ
  pub wrmsr : State → ℕ → ℕ → State
  pub read_cr0 : State → ℕ
  pub write_cr0 : State → ℕ → State
  pub read_cr4 : State → ℕ
  pub write_cr4 : State → ℕ → State
  pub page_alloc_4k_aligned : State → ℕ × State
  pub clear_page : State → ℕ → State
  pub store32 : State → ℕ → ℕ → State
  pub vmxon : State → ℕ → ℕ × State
  pub vmxoff : State → ℕ × State

abbrev pub ia32_feature_control : ℕ
ia32_feature_control = 0x3A

abbrev pub ia32_vmx_basic : ℕ
ia32_vmx_basic = 0x480

abbrev pub vmx_cr0_fixed0 : (C : Cpu) → C.State → ℕ
vmx_cr0_fixed0 C s = u32 (C.rdmsr s 0x486)

abbrev pub vmx_cr0_fixed1 : (C : Cpu) → C.State → ℕ
vmx_cr0_fixed1 C s = u32 (C.rdmsr s 0x487)

abbrev pub vmx_cr4_fixed0 : (C : Cpu) → C.State → ℕ
vmx_cr4_fixed0 C s = u32 (C.rdmsr s 0x488)

abbrev pub vmx_cr4_fixed1 : (C : Cpu) → C.State → ℕ
vmx_cr4_fixed1 C s = u32 (C.rdmsr s 0x489)

-- The twelve bytes of `cpuid_get_vendor` are EBX, EDX and ECX; they spell "GenuineIntel".
abbrev pub is_genuine_intel : Cpuid → Bool
is_genuine_intel r = (r.ebx == 0x756E6547) && ((r.edx == 0x49656E69) && (r.ecx == 0x6C65746E))

abbrev pub cpuid_has_vmx : Cpuid → Bool
cpuid_has_vmx r = not (bit_and r.ecx (1 <<< 5) == 0)

-- The bit-fields of `ia32_feature_control_t`.
abbrev pub lock : ℕ → Bool
lock fc = bit fc 0 == 1

abbrev pub vmx_outside_smx : ℕ → Bool
vmx_outside_smx fc = bit fc 2 == 1

module _ (C : Cpu) where
  unfoldable pub vmx_adjust_cr0_cr4 : C.State → C.State
  vmx_adjust_cr0_cr4 s =
      let cr0 = bit_and (bit_or (C.read_cr0 s) (vmx_cr0_fixed0 C s)) (vmx_cr0_fixed1 C s) in
      let t = C.write_cr0 s cr0 in
      let cr4 = bit_and (bit_or (C.read_cr4 t) (vmx_cr4_fixed0 C t)) (vmx_cr4_fixed1 C t) in
      C.write_cr4 t (bit_or cr4 (1 <<< 13))

  -- `true` for the result 0.
  unfoldable pub vmx_enable_feature_control_outside_smx : C.State → Bool × C.State
  vmx_enable_feature_control_outside_smx s =
      let fc = C.rdmsr s ia32_feature_control in
      let t = C.wrmsr s ia32_feature_control (bit_or (bit_or fc (1 <<< 2)) (1 <<< 0)) in
      let back = C.rdmsr t ia32_feature_control in
      if lock fc then (vmx_outside_smx fc, s) else (lock back && vmx_outside_smx back, t)

  -- The physical address of the VMXON region, if there is a page; `reconstructed` is the flag of the
  -- address translation.
  unfoldable pub vmx_alloc_and_init_vmxon_region : Bool → C.State → Option ℕ × C.State
  vmx_alloc_and_init_vmxon_region reconstructed s =
      let (va, s1) = C.page_alloc_4k_aligned s in
      let s2 = C.clear_page s1 va in
      let s3 = C.store32 s2 va (C.rdmsr s2 ia32_vmx_basic % 2 ^ 31) in
      if va == 0 then (none, s1) else (some (virt2phys reconstructed va), s3)

  abbrev pub enter_from : Option ℕ × C.State → Bool × C.State
  enter_from (none, s) = (false, s)
  enter_from (some pa, s) = let (rflags, t) = C.vmxon s pa in (vmx_check_rflags rflags, t)

  unfoldable pub vmx_init_and_enter : Bool → C.State → Bool × C.State
  vmx_init_and_enter reconstructed s =
      let (ok, s1) = vmx_enable_feature_control_outside_smx s in
      let s2 = vmx_adjust_cr0_cr4 s1 in
      if is_genuine_intel (C.cpuid_leaf s 0)
      then (if cpuid_has_vmx (C.cpuid_leaf s 1)
          then (if ok
              then enter_from (vmx_alloc_and_init_vmxon_region reconstructed s2)
              else (false, s1))
          else (false, s))
      else (false, s)

  unfoldable pub vmx_leave : C.State → Bool × C.State
  vmx_leave s = let (rflags, t) = C.vmxoff s in (vmx_check_rflags rflags, t)
