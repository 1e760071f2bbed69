-- ===== src/Vmcs/Encode.antt =====
-- The macros of kernel/arch/x86/vmm/vmcs.h that compute a VMCS field's encoding.
use chypervisor.Prelude.{ℕ, ◌+◌, ◌*◌, ◌/◌, ◌%◌, ◌<◌, ◌≡◌, arith, ◌∙◌}
use chypervisor.Prelude.{bit_and, bit_or, ◌<<<◌, u32}
use chypervisor.Prelude.Bits.{bit_and_mask, bit_or_high, bit_or-zero}

abbrev pub access_full : ℕ
access_full = 0

abbrev pub width_word : ℕ
width_word = 0

abbrev pub width_qword : ℕ
width_qword = 1

abbrev pub width_dword : ℕ
width_dword = 2

abbrev pub width_natural : ℕ
width_natural = 3

abbrev pub type_control : ℕ
type_control = 0

abbrev pub type_vmexit_ro : ℕ
type_vmexit_ro = 1

abbrev pub type_guest : ℕ
type_guest = 2

abbrev pub type_host : ℕ
type_host = 3

-- `VMCS_ENCODE`; the casts to 32 bits cut nothing off what the masks leave.
abbrev pub vmcs_encode : ℕ → ℕ → ℕ → ℕ → ℕ
vmcs_encode type index access width =
    bit_or
      (bit_or
        (bit_or (bit_or (bit_and (u32 access) 0x1) (bit_and (u32 index) 0x1FF <<< 1))
          (bit_and (u32 type) 0x3 <<< 10))
        0)
      (bit_and (u32 width) 0x3 <<< 13)

abbrev pub vmcs_eg : ℕ → ℕ → ℕ → ℕ
vmcs_eg idx acc w = vmcs_encode type_guest idx acc w

abbrev pub vmcs_eh : ℕ → ℕ → ℕ → ℕ
vmcs_eh idx acc w = vmcs_encode type_host idx acc w

abbrev pub vmcs_ec : ℕ → ℕ → ℕ → ℕ
vmcs_ec idx acc w = vmcs_encode type_control idx acc w

abbrev pub vmcs_er : ℕ → ℕ → ℕ → ℕ
vmcs_er idx acc w = vmcs_encode type_vmexit_ro idx acc w

-- The encoding is the packing of its four parts: access at bit 0, index from bit 1, type from bit 10,
-- and width from bit 13, with bit 12 zero.
pub vmcs_encode-sum :
    (type index access width : ℕ)
    → type < 4
    → index < 512
    → access < 2
    → width < 4
    → vmcs_encode type index access width ≡ access + 2 * index + 1024 * type + 8192 * width
vmcs_encode-sum type index access width ht hi ha hw =
    let a : bit_and (u32 access) 0x1 ≡ access = bit_and_mask 1 (u32 access) ∙ omega arith in
    let i : bit_and (u32 index) 0x1FF ≡ index = bit_and_mask 9 (u32 index) ∙ omega arith in
    let t : bit_and (u32 type) 0x3 ≡ type = bit_and_mask 2 (u32 type) ∙ omega arith in
    let w : bit_and (u32 width) 0x3 ≡ width = bit_and_mask 2 (u32 width) ∙ omega arith in
    let low = access + index * 2 in
    let mid = low + type * 1024 in
    rw
      (
        a,
        i,
        t,
        w,
        bit_or_high 1 index access (omega arith),
        bit_or_high 10 type low (omega arith),
        bit_or-zero mid mid (omega arith),
        bit_or_high 13 width mid (omega arith),
      )
      (omega arith)

-- For a type and a width below 4, an index below 512 and an access below 2, every part can be read
-- back from the encoding: access at bit 0, index from bit 1, type from bit 10 and width from bit 13;
-- bit 12 is 0.
vmcs_encode_parts :
    (type index access width : ℕ)
    → type < 4
    → index < 512
    → access < 2
    → width < 4
    → let e = vmcs_encode type index access width in
      (e % 2 ≡ access)
      × (e / 2 % 512 ≡ index)
      × (e / 1024 % 4 ≡ type)
      × (e / 4096 % 2 ≡ 0)
      × (e / 8192 ≡ width)
vmcs_encode_parts type index access width ht hi ha hw =
    let e = vmcs_encode-sum type index access width ht hi ha hw in omega (arith, e)
