-- ===== src/Vcpu/Exit.antt =====
-- VM exits (vcpu.c): `exitinfo_load` and `vmexit_dispatch`. An endless HLT of the host is the result
-- `halted`.
use chypervisor.Prelude.{ℕ, suc, ◌%◌, ◌^◌, ◌≡◌, ◌≢◌, refl, arith, true, false, Option, none, some}
use chypervisor.Prelude.{◌>>=◌, bit_and, u32, add64, ◌==◌, if◌then◌else◌, ◌∙◌, ap}
use chypervisor.Vmcs.Machine.{
  Machine, Laws, vmx_check_rflags, HasError, error_field, reading, is_full,
}
use chypervisor.Vmcs.Access.{
  Reply, reply_at, value, minus_one, vmcs_vmread, vmcs_vmwrite, vmcs_vmread-returns,
}
use chypervisor.Vmcs.ExitInfo.{exit_info_field, exit_reason, exit_instruction_length}
use chypervisor.Vmcs.Guest.{guest_field, guest_rip}
use chypervisor.Prelude.Bits.{bit_and_mask}
use chypervisor.Vcpu.Writes.{vmcs_vmwrite-returns}

pub record ExitInfo : Type 0 where
  pub reason : ℕ
  pub inst_len : ℕ

pub data Resume (State : Type 0) : Type 0 where
  resumed : State → Resume State
  halted : State → Resume State

abbrev pub exit_reason_hlt : ℕ
exit_reason_hlt = 12

-- A 32-bit member that keeps its 0 if VMREAD failed.
abbrev pub member_of : Option Reply → Option ℕ
member_of none = none
member_of (some (value v)) = some (u32 v)
member_of (some minus_one) = some 0

-- A 64-bit variable that keeps its 0 if VMREAD failed.
abbrev pub variable_of : Option Reply → Option ℕ
variable_of none = none
variable_of (some (value v)) = some v
variable_of (some minus_one) = some 0

module _ (m : Machine) where
  unfoldable pub exitinfo_load : ℕ → m.State → Option ExitInfo
  exitinfo_load depth s = do
    r ← member_of (vmcs_vmread m depth s (exit_info_field exit_reason))
    l ← member_of (vmcs_vmread m depth s (exit_info_field exit_instruction_length))
    some (record { reason = r; inst_len = l })

  -- The HLT case: the guest's RIP moves past the instruction.
  abbrev pub step_rip : ℕ → m.State → ℕ → Option m.State
  step_rip depth s inst_len = do
    rip ← variable_of (vmcs_vmread m depth s (guest_field guest_rip))
    (ok, t) ← vmcs_vmwrite m depth s (guest_field guest_rip) (add64 rip inst_len)
    some t

  abbrev pub dispatch_on : ℕ → m.State → ExitInfo → Option (Resume m.State)
  dispatch_on depth s ei =
      if bit_and ei.reason 0xFFFF == exit_reason_hlt
      then (step_rip depth s ei.inst_len >>= λ t. some (resumed t))
      else some (halted s)

  unfoldable pub vmexit_dispatch : ℕ → m.State → Option (Resume m.State)
  vmexit_dispatch depth s = exitinfo_load depth s >>= dispatch_on depth s

-- What a member holds, by the field's content.
abbrev pub cut32 : Option ℕ → ℕ
cut32 none = 0
cut32 (some v) = u32 v

not_eq : (a b : ℕ) → a ≢ b → (a == b) ≡ false
not_eq a b h = ground arith

member_of-reply_at : (r : Option ℕ) → member_of (some (reply_at r)) ≡ some (cut32 r)
member_of-reply_at none = refl
member_of-reply_at (some v) = refl

module _ (m : Machine) (laws : Laws m) (depth : ℕ) where
  abbrev pub member_at : m.State → ℕ → ℕ
  member_at s f = cut32 (reading m s f)

  vmcs_vmread-reading :
      (s : m.State) (f : ℕ)
      → HasError m s
      → (member_of (vmcs_vmread m (suc (suc depth)) s f) ≡ some (member_at s f))
  vmcs_vmread-reading s f h =
      rw (vmcs_vmread-returns m depth s f h) (member_of-reply_at (reading m s f))

  exitinfo_load-returns :
      (s : m.State)
      → HasError m s
      → exitinfo_load m (suc (suc depth)) s
        ≡ some (record {
          reason = member_at s (exit_info_field exit_reason);
          inst_len = member_at s (exit_info_field exit_instruction_length);
        })
  unfolding exitinfo_load
  exitinfo_load-returns s h =
      rw
        (
          vmcs_vmread-reading s (exit_info_field exit_reason) h,
          vmcs_vmread-reading s (exit_info_field exit_instruction_length) h,
        )
        refl

  variable_of-reading :
      (s : m.State) (f v : ℕ)
      → HasError m s
      → reading m s f ≡ some v
      → variable_of (vmcs_vmread m (suc (suc depth)) s f) ≡ some v
  variable_of-reading s f v h e = rw (vmcs_vmread-returns m depth s f h, e) refl

  pub step_rip-returns :
      (s : m.State) (rip len : ℕ)
      → HasError m s
      → reading m s (guest_field guest_rip) ≡ some rip
      → step_rip m (suc (suc depth)) s len
        ≡ some (m.vmwrite s (guest_field guest_rip) (add64 rip len)).1
  step_rip-returns s rip len h e =
      rw
        (
          variable_of-reading s (guest_field guest_rip) rip h e,
          vmcs_vmwrite-returns m laws depth s (guest_field guest_rip) (add64 rip len) h,
        )
        refl

  -- On a processor that obeys the laws of VMREAD and VMWRITE for full encodings, with a readable error
  -- field and a RIP that can be read and written, `vmexit_dispatch` returns. An exit whose basic
  -- reason is not HLT halts the host and changes nothing. At HLT it resumes with RIP past the
  -- instruction, modulo 2^64, and with every other full field but the instruction error unchanged.
  pub vmexit_dispatch-cases :
      (s : m.State) (rip : ℕ)
      → HasError m s
      → reading m s (guest_field guest_rip) ≡ some rip
      → ((v : ℕ) → vmx_check_rflags (m.vmwrite s (guest_field guest_rip) v).0 ≡ true)
      → let basic = member_at s (exit_info_field exit_reason) % 2 ^ 16 in
        let len = member_at s (exit_info_field exit_instruction_length) in
        (basic ≢ exit_reason_hlt → vmexit_dispatch m (suc (suc depth)) s ≡ some (halted s))
        × (basic ≡ exit_reason_hlt
            → (t : m.State) × (vmexit_dispatch m (suc (suc depth)) s ≡ some (resumed t))
              × (reading m t (guest_field guest_rip) ≡ some (add64 rip len))
              × ((g : ℕ)
                  → is_full g ≡ true
                  → (g == guest_field guest_rip) ≡ false
                  → g ≢ error_field
                  → reading m t g ≡ reading m s g))
  unfolding vmexit_dispatch
  vmexit_dispatch-cases s rip h e ok =
      let f = guest_field guest_rip in
      let len = member_at s (exit_info_field exit_instruction_length) in
      let reason = member_at s (exit_info_field exit_reason) in
      let info : ExitInfo = record { reason = reason; inst_len = len } in
      let load : vmexit_dispatch m (suc (suc depth)) s ≡ dispatch_on m (suc (suc depth)) s info =
        rw (exitinfo_load-returns s h) refl in
      let t = (m.vmwrite s f (add64 rip len)).1 in
      (
        λ other. load ∙ rw (bit_and_mask 16 reason, not_eq (reason % 2 ^ 16) 12 other) refl,
        λ hlt. (
          t,
          load ∙ rw (bit_and_mask 16 reason, hlt, step_rip-returns s rip len h e) refl,
          laws.read_self s f (add64 rip len) refl (ok (add64 rip len)) ∙ ap some (omega arith),
          λ g full ne other. laws.read_other s f g (add64 rip len) refl full ne other,
        ),
      )
