-- ===== src/Vmcs/Access.antt =====
-- `vmcs_vmread`, `vmcs_vmwrite` (vmcs.c) and `vmcs_instruction_error` (vmx_log.c). A failed VMREAD asks
-- for the instruction error, which is itself a VMREAD through the same wrapper: the calls are mutually
-- recursive. They take the depth of the stack as fuel; `none` is a call that does not return.
use chypervisor.Prelude.{ℕ, zero, suc, ◌≡◌, refl, Bool, true, false}
use chypervisor.Prelude.{Option, none, some, u32, if◌then◌else◌, Bool-cases, inl, inr}
use chypervisor.Vmcs.Machine.{Machine, vmx_check_rflags, error_field, HasError, reading}

-- What a wrapper returns: a value, or -1.
pub data Reply : Type 0 where
  value : ℕ → Reply
  minus_one : Reply

-- The reply for a field, by what the VMCS holds there.
abbrev pub reply_at : Option ℕ → Reply
reply_at none = minus_one
reply_at (some v) = value v

-- `vmcs_instruction_error` from the reply of its VMREAD: 0 if that failed.
abbrev pub error_of : Option Reply → Option ℕ
error_of none = none
error_of (some (value v)) = some (u32 v)
error_of (some minus_one) = some 0

-- What a wrapper returns after it has asked for the instruction error (for its log line).
abbrev pub after_error : Option ℕ → Option Reply
after_error none = none
after_error (some err) = some minus_one

module _ (m : Machine) where
  unfoldable pub vmcs_vmread : ℕ → m.State → ℕ → Option Reply
  vmcs_vmread zero s field = none
  vmcs_vmread (suc depth) s field =
      let failed = after_error (error_of (vmcs_vmread depth s error_field)) in
      let (rflags, v) = m.vmread s field in
      if vmx_check_rflags rflags then some (value v) else failed

  unfoldable pub vmcs_instruction_error : ℕ → m.State → Option ℕ
  vmcs_instruction_error depth s = error_of (vmcs_vmread depth s error_field)

  -- The state after a write, and whether it succeeded.
  unfoldable pub vmcs_vmwrite : ℕ → m.State → ℕ → ℕ → Option (Bool × m.State)
  vmcs_vmwrite depth s field v =
      let (rflags, t) = m.vmwrite s field v in
      if vmx_check_rflags rflags
      then some (true, t)
      else elim (vmcs_instruction_error depth t) [ none ↦ none | some err ↦ some (false, t) ]

  -- With a readable error field `vmcs_vmread` returns, with a stack for two nested calls: the field's
  -- value if VMREAD succeeds, -1 if not.
  pub vmcs_vmread-returns :
      (depth : ℕ) (s : m.State) (field : ℕ)
      → HasError m s
      → vmcs_vmread (suc (suc depth)) s field ≡ some (reply_at (reading m s field))
  unfolding vmcs_vmread
  vmcs_vmread-returns depth s field h = elim (Bool-cases (vmx_check_rflags (m.vmread s field).0)) [
    | inl e ↦ rw e refl
    | inr e ↦ rw (e, h) refl
  ]

  -- When neither the error field nor the asked field can be read, `vmcs_vmread` and
  -- `vmcs_instruction_error` do not return at any depth of the stack: each failure calls the wrapper
  -- again.
  pub vmcs_vmread_diverges :
      (depth : ℕ) (s : m.State) (field : ℕ)
      → vmx_check_rflags (m.vmread s error_field).0 ≡ false
      → vmx_check_rflags (m.vmread s field).0 ≡ false
      → (vmcs_vmread depth s field ≡ none) × (vmcs_instruction_error depth s ≡ none)
  unfolding vmcs_vmread vmcs_instruction_error
  vmcs_vmread_diverges zero s field h e = (refl, refl)
  vmcs_vmread_diverges (suc depth) s field h e =
      let field_rec = (vmcs_vmread_diverges depth s error_field h h).0 in
      (rw (e, field_rec) refl, rw (h, field_rec) refl)
