-- ===== src/Vcpu/Controls.antt =====
-- `adjust_ctrl_u32` and `pick_ctrl_msr` (vcpu.c): the allowed settings of a VMX control word.
use chypervisor.Prelude.{ℕ, ◌+◌, ◌/◌, ◌^◌, ◌≤◌, ◌<◌, ◌≡◌, refl, arith, ◌∙◌, min, max}
use chypervisor.Prelude.{bit_and, bit_or, u32, ◌>>>◌, if◌then◌else◌, ◌==◌}
use chypervisor.Prelude.Bits.{
  bit, bit-lt, bit-bit_and, bit-bit_or, bit_shift, bit_cast, bit_and_mask,
}
use chypervisor.Vmcs.Machine.{Machine}

abbrev pub ia32_vmx_basic : ℕ
ia32_vmx_basic = 0x480

unfoldable pub adjust_ctrl_u32 : ℕ → ℕ → ℕ
adjust_ctrl_u32 val msr =
    let must_be_one = u32 (bit_and msr 0xFFFFFFFF) in
    let must_be_zero = u32 (msr >>> 32) in bit_and (bit_or (u32 val) must_be_one) must_be_zero

-- `true_controls` is bit 55 of the packed `ia32_vmx_basic_t`.
unfoldable pub pick_ctrl_msr : (m : Machine) → m.State → ℕ → ℕ → ℕ
pick_ctrl_msr m s msr_true msr_legacy =
    let basic = m.rdmsr s ia32_vmx_basic in
    if bit_and (basic >>> 55) 1 == 0 then m.rdmsr s msr_legacy else m.rdmsr s msr_true

-- Each bit of the result: requested or mandatory, and allowed.
pub bit-adjust_ctrl_u32 :
    (val msr i : ℕ)
    → i < 32
    → bit (adjust_ctrl_u32 val msr) i ≡ min (max (bit val i) (bit msr i)) (bit msr (32 + i))
unfolding adjust_ctrl_u32
bit-adjust_ctrl_u32 val msr i h =
    let one : bit (u32 (bit_and msr 0xFFFFFFFF)) i ≡ bit msr i =
      bit_cast 32 (bit_and msr 0xFFFFFFFF) i h ∙ rw (bit_and_mask 32 msr) (bit_cast 32 msr i h) in
    let allowed : bit (u32 (msr >>> 32)) i ≡ bit msr (32 + i) =
      bit_cast 32 (msr / 2 ^ 32) i h ∙ bit_shift 32 msr i in
    rw
      (
        bit-bit_and i (bit_or (u32 val) (u32 (bit_and msr 0xFFFFFFFF))) (u32 (msr >>> 32)),
        bit-bit_or i (u32 val) (u32 (bit_and msr 0xFFFFFFFF)),
        bit_cast 32 val i h,
        one,
        allowed,
      )
      refl

-- For each of the 32 bits whose mandatory setting the MSR allows: the bit of the adjusted control is 1
-- if it is mandatory, 0 if it is forbidden, and the requested one otherwise.
pub adjust_ctrl_u32_settings :
    (val msr i : ℕ)
    → i < 32
    → bit msr i ≤ bit msr (32 + i)
    → (bit msr i ≡ 1 → bit (adjust_ctrl_u32 val msr) i ≡ 1)
      × (bit msr (32 + i) ≡ 0 → bit (adjust_ctrl_u32 val msr) i ≡ 0)
      × (bit msr i ≡ 0 → bit msr (32 + i) ≡ 1 → bit (adjust_ctrl_u32 val msr) i ≡ bit val i)
adjust_ctrl_u32_settings val msr i h sane =
    let e = bit-adjust_ctrl_u32 val msr i h in
    let a = bit-lt val i in
    let b = bit-lt msr i in
    let c = bit-lt msr (32 + i) in
    (
      λ p. omega (arith, e, p, sane, a, b, c),
      λ p. omega (arith, e, p),
      λ p q. omega (arith, e, p, q, a),
    )
