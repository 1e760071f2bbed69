-- ===== src/Vmx/Features.antt =====
-- The feature-control MSR and the control registers that vmx.c prepares for VMXON.
use chypervisor.Prelude.{ℕ, ◌≡◌, ◌<◌, refl, arith, ◌∙◌, Bool, true, false, ◌&&◌, ◌==◌}
use chypervisor.Prelude.{if◌then◌else◌, bit_and, bit_or, ◌<<<◌, u32, Bool-cases, inl, inr, min, max}
use chypervisor.Prelude.Bits.{bit, bit-lt, bit-bit_or, bit-bit_and, bit-pow, bit_cast}
use chypervisor.Vmx.{
  Cpu, vmx_adjust_cr0_cr4, vmx_enable_feature_control_outside_smx, lock, vmx_outside_smx,
}
use chypervisor.Vmx.{
  ia32_feature_control, vmx_cr0_fixed0, vmx_cr0_fixed1, vmx_cr4_fixed0, vmx_cr4_fixed1,
}

-- The fixed bits of a control register.
abbrev pub fixed_bit : ℕ → ℕ → ℕ → ℕ
fixed_bit old f0 f1 = min (max old f0) f1

fixed_word :
    (old f0 f1 i : ℕ)
    → i < 32
    → bit (bit_and (bit_or old (u32 f0)) (u32 f1)) i ≡ fixed_bit (bit old i) (bit f0 i) (bit f1 i)
fixed_word old f0 f1 i h =
    rw
      (
        bit-bit_and i (bit_or old (u32 f0)) (u32 f1),
        bit-bit_or i old (u32 f0),
        bit_cast 32 f0 i h,
        bit_cast 32 f1 i h,
      )
      refl

vmxe_word : (w i : ℕ) → bit (bit_or w (1 <<< 13)) i ≡ (if i == 13 then 1 else bit w i)
vmxe_word w i =
    let l = bit-lt w i in
    rw (bit-bit_or i w (1 <<< 13), bit-pow 13 i)
      (elim (Bool-cases (i == 13)) [ inl e ↦ rw e (omega (arith, l)) | inr e ↦ rw e (omega arith) ])

both : (a b : Bool) → (a && b) ≡ true → (a ≡ true) × (b ≡ true)
both true b h = (refl, h)
both false b h = absurd (ground (arith, h))

module _ (C : Cpu) where
  -- The result 0 means that FEATURE_CONTROL is locked with VMX outside SMX enabled in the state that
  -- is left; and the result is 0 for a register that is unlocked and keeps the value written to it.
  pub vmx_enable_feature_control_outside_smx-lock :
      (s : C.State)
      → let r = vmx_enable_feature_control_outside_smx C s in
        let fc = C.rdmsr s ia32_feature_control in
        let written = bit_or (bit_or fc (1 <<< 2)) (1 <<< 0) in
        (r.0 ≡ true
          → (lock (C.rdmsr r.1 ia32_feature_control) ≡ true)
            × (vmx_outside_smx (C.rdmsr r.1 ia32_feature_control) ≡ true))
        × (lock fc ≡ false
            → C.rdmsr (C.wrmsr s ia32_feature_control written) ia32_feature_control ≡ written
            → r.0 ≡ true)
  unfolding vmx_enable_feature_control_outside_smx
  vmx_enable_feature_control_outside_smx-lock s =
      let fc = C.rdmsr s ia32_feature_control in
      let written = bit_or (bit_or fc (1 <<< 2)) (1 <<< 0) in
      elim (Bool-cases (lock fc)) [
        | inl e ↦ rw e (λ h. (e, h), λ h. absurd (ground (arith, h)))
        | inr e ↦ rw e (
          λ h. both _ _ h,
          λ h back.
              let zero_bit : bit written 0 ≡ 1 =
                bit-bit_or 0 (bit_or fc 4) 1 ∙ omega (arith, bit-lt (bit_or fc 4) 0) in
              let two_bit : bit written 2 ≡ 1 =
                bit-bit_or 2 (bit_or fc 4) 1 ∙ omega (arith, bit-bit_or 2 fc 4, bit-lt fc 2) in
              rw (back, zero_bit, two_bit) refl,
        )
      ]

  -- When a write to a control register is read back and leaves the MSRs and the other register, CR0
  -- and CR4 have their low 32 bits as the fixed-bit MSRs demand, but that CR4.VMXE is set whatever
  -- they say.
  pub vmx_adjust_cr0_cr4-fixed_bit :
      (s : C.State)
      → ((t : C.State) (v : ℕ) → C.read_cr0 (C.write_cr0 t v) ≡ v)
      → ((t : C.State) (v : ℕ) → C.read_cr4 (C.write_cr4 t v) ≡ v)
      → ((t : C.State) (v : ℕ) → C.read_cr4 (C.write_cr0 t v) ≡ C.read_cr4 t)
      → ((t : C.State) (v : ℕ) → C.read_cr0 (C.write_cr4 t v) ≡ C.read_cr0 t)
      → ((t : C.State) (v a : ℕ) → C.rdmsr (C.write_cr0 t v) a ≡ C.rdmsr t a)
      → let t = vmx_adjust_cr0_cr4 C s in
        ((i : ℕ)
          → i < 32
          → bit (C.read_cr0 t) i
            ≡ fixed_bit (bit (C.read_cr0 s) i) (bit (C.rdmsr s 0x486) i) (bit (C.rdmsr s 0x487) i))
        × ((i : ℕ)
            → i < 32
            → bit (C.read_cr4 t) i ≡ (
                if i == 13
                then 1
                else fixed_bit
                    (bit (C.read_cr4 s) i)
                    (bit (C.rdmsr s 0x488) i)
                    (bit (C.rdmsr s 0x489) i)))
  unfolding vmx_adjust_cr0_cr4
  vmx_adjust_cr0_cr4-fixed_bit s self0 self4 other4 other0 msr =
      let cr0 = bit_and (bit_or (C.read_cr0 s) (vmx_cr0_fixed0 C s)) (vmx_cr0_fixed1 C s) in
      let t = C.write_cr0 s cr0 in
      (
        λ i h.
            rw
              (
                other0 t (
                    bit_or
                      (bit_and (bit_or (C.read_cr4 t) (vmx_cr4_fixed0 C t)) (vmx_cr4_fixed1 C t))
                      (1 <<< 13)),
                self0 s cr0,
              )
              (fixed_word (C.read_cr0 s) (C.rdmsr s 0x486) (C.rdmsr s 0x487) i h),
        λ i h.
            rw
              (
                self4 t (
                    bit_or
                      (bit_and (bit_or (C.read_cr4 t) (vmx_cr4_fixed0 C t)) (vmx_cr4_fixed1 C t))
                      (1 <<< 13)),
                other4 s cr0,
                msr s cr0 0x488,
                msr s cr0 0x489,
              )
              (vmxe_word (bit_and (bit_or (C.read_cr4 s) (vmx_cr4_fixed0 C s)) (vmx_cr4_fixed1 C s))
                  i
                ∙ rw (fixed_word (C.read_cr4 s) (C.rdmsr s 0x488) (C.rdmsr s 0x489) i h) refl),
      )
