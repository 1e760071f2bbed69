-- ===== src/Vmx/Tests.antt =====
-- Runs of vmx.c on a processor whose state is FEATURE_CONTROL, CR0 and CR4.
use chypervisor.Prelude.{ℕ, ◌≡◌, ◌<◌, refl, true, false, if◌then◌else◌, ◌==◌}
use chypervisor.Prelude.Bits.{bit}
use chypervisor.Vmx.{
  Cpu, vmx_enable_feature_control_outside_smx, vmx_adjust_cr0_cr4, lock, vmx_outside_smx,
}
use chypervisor.Vmx.{ia32_feature_control}
use chypervisor.Vmx.Features.{
  fixed_bit, vmx_enable_feature_control_outside_smx-lock, vmx_adjust_cr0_cr4-fixed_bit,
}

abbrev intel : Cpu
intel = record {
  State = ℕ × ℕ × ℕ;
  cpuid_leaf = λ s leaf. record { eax = 0; ebx = 0x756E6547; ecx = 0x6C65746E; edx = 0x49656E69 };
  rdmsr = λ s a.
      if a == 0x3A
      then s.0
      else (if a == 0x486 then 0x80000021 else (if a == 0x488 then 0x2000 else 0xFFFFFFFF));
  wrmsr = λ s a v. if a == 0x3A then (v, s.1, s.2) else s;
  read_cr0 = λ s. s.1;
  write_cr0 = λ s v. (s.0, v, s.2);
  read_cr4 = λ s. s.2;
  write_cr4 = λ s v. (s.0, s.1, v);
  page_alloc_4k_aligned = λ s. (0x1000, s);
  clear_page = λ s p. s;
  store32 = λ s p v. s;
  vmxon = λ s p. (0, s);
  vmxoff = λ s. (0, s);
}

abbrev reset : ℕ × ℕ × ℕ
reset = (0, 0x11, 0x20)

vmx_enable_feature_control_outside_smx-lock_example :
    let r = vmx_enable_feature_control_outside_smx intel reset in
    (r.0 ≡ true
      → (lock (intel.rdmsr r.1 ia32_feature_control) ≡ true)
        × (vmx_outside_smx (intel.rdmsr r.1 ia32_feature_control) ≡ true))
    × (lock 0 ≡ false
        → intel.rdmsr (intel.wrmsr reset ia32_feature_control 5) ia32_feature_control ≡ 5
        → r.0 ≡ true)
vmx_enable_feature_control_outside_smx-lock_example =
    vmx_enable_feature_control_outside_smx-lock intel reset

vmx_adjust_cr0_cr4-fixed_bit_example :
    let t = vmx_adjust_cr0_cr4 intel reset in
    ((i : ℕ)
      → i < 32
      → bit (intel.read_cr0 t) i ≡ fixed_bit (bit 0x11 i) (bit 0x80000021 i) (bit 0xFFFFFFFF i))
    × ((i : ℕ)
        → i < 32
        → bit (intel.read_cr4 t) i
          ≡ (if i == 13 then 1 else fixed_bit (bit 0x20 i) (bit 0x2000 i) (bit 0xFFFFFFFF i)))
vmx_adjust_cr0_cr4-fixed_bit_example =
    vmx_adjust_cr0_cr4-fixed_bit intel reset (λ t v. refl) (λ t v. refl) (λ t v. refl) (λ t v. refl)
      (λ t v a. refl)
