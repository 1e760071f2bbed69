-- ===== src/Vmcs/Errors.antt =====
-- kernel/arch/x86/vmm/vmx_log.h and vmx_log.c: the VM-instruction errors and their texts. A text is a
-- constructor with the words of the source's string.
use chypervisor.Prelude.{ℕ, ◌≡◌, refl, ap, sym, ◌∙◌, List, [], ◌∷◌, if◌then◌else◌, ◌==◌}

pub data InstructionError : Type 0 where
  vmxerr_ok_not_available : InstructionError
  vmxerr_vmcall_in_vmxroot : InstructionError
  vmxerr_vmclear_invalid_phys : InstructionError
  vmxerr_vmclear_vmxonptr : InstructionError
  vmxerr_vmlaunch_nonclear : InstructionError
  vmxerr_vmresume_nonlaunch : InstructionError
  vmxerr_vmresume_after_off : InstructionError
  vmxerr_vmentry_bad_ctrl : InstructionError
  vmxerr_vmentry_bad_host : InstructionError
  vmxerr_vmptrld_invalid : InstructionError
  vmxerr_vmptrld_vmxonptr : InstructionError
  vmxerr_vmptrld_bad_rev : InstructionError
  vmxerr_vmrw_unsupported : InstructionError
  vmxerr_vmwrite_to_readonly : InstructionError
  vmxerr_vmxon_in_vmxroot : InstructionError
  vmxerr_vmentry_bad_execctl : InstructionError
  vmxerr_vmentry_nonlaunch_execctl : InstructionError
  vmxerr_vmentry_exec_vmcsptr : InstructionError
  vmxerr_vmcall_nonclear : InstructionError
  vmxerr_vmcall_invalid_exitctl : InstructionError
  vmxerr_vmcall_incorrect_msgrev : InstructionError
  vmxerr_vmxoff_dualmonitor : InstructionError
  vmxerr_vmcall_invalid_smm : InstructionError
  vmxerr_vmentry_events_blocked : InstructionError
  vmxerr_invalid_invept : InstructionError

-- The value of the enumerator.
abbrev pub error_code : InstructionError → ℕ
error_code vmxerr_ok_not_available = 0
error_code vmxerr_vmcall_in_vmxroot = 1
error_code vmxerr_vmclear_invalid_phys = 2
error_code vmxerr_vmclear_vmxonptr = 3
error_code vmxerr_vmlaunch_nonclear = 4
error_code vmxerr_vmresume_nonlaunch = 5
error_code vmxerr_vmresume_after_off = 6
error_code vmxerr_vmentry_bad_ctrl = 7
error_code vmxerr_vmentry_bad_host = 8
error_code vmxerr_vmptrld_invalid = 9
error_code vmxerr_vmptrld_vmxonptr = 10
error_code vmxerr_vmptrld_bad_rev = 11
error_code vmxerr_vmrw_unsupported = 12
error_code vmxerr_vmwrite_to_readonly = 13
error_code vmxerr_vmxon_in_vmxroot = 15
error_code vmxerr_vmentry_bad_execctl = 16
error_code vmxerr_vmentry_nonlaunch_execctl = 17
error_code vmxerr_vmentry_exec_vmcsptr = 18
error_code vmxerr_vmcall_nonclear = 19
error_code vmxerr_vmcall_invalid_exitctl = 20
error_code vmxerr_vmcall_incorrect_msgrev = 22
error_code vmxerr_vmxoff_dualmonitor = 23
error_code vmxerr_vmcall_invalid_smm = 24
error_code vmxerr_vmentry_events_blocked = 26
error_code vmxerr_invalid_invept = 28

pub data Message : Type 0 where
  text_error_not_available : Message
  text_vmcall_in_vmxroot : Message
  text_vmclear_invalid_phys : Message
  text_vmclear_on_vmxon_pointer : Message
  text_vmlaunch_on_nonclear_vmcs : Message
  text_vmresume_on_nonlaunched_vmcs : Message
  text_vmresume_after_vmxoff : Message
  text_vmentry_invalid_control_fields : Message
  text_vmentry_invalid_host_state : Message
  text_vmptrld_invalid_phys : Message
  text_vmptrld_on_vmxon_pointer : Message
  text_vmptrld_incorrect_vmcs_revision : Message
  text_vmread_vmwrite_unsupported_component : Message
  text_vmwrite_to_readonly_field : Message
  text_vmxon_in_vmxroot_operation : Message
  text_vmentry_invalid_exec_controls : Message
  text_vmentry_nonlaunched_exec_controls : Message
  text_vmentry_with_executive_vmcs_pointer : Message
  text_vmcall_on_nonclear_vmcs : Message
  text_vmcall_invalid_vmexit_controls : Message
  text_vmcall_incorrect_msr_msg_revision : Message
  text_vmxoff_under_dual_monitor : Message
  text_vmcall_in_smm : Message
  text_vmentry_invalid_execution_ctrls : Message
  text_vmentry_events_blocked_by_mov_ss : Message
  text_invalid_invept : Message
  text_unknown : Message

abbrev pub messages : List (ℕ × Message)
messages =
    (0, text_error_not_available)
    ∷ (1, text_vmcall_in_vmxroot)
    ∷ (2, text_vmclear_invalid_phys)
    ∷ (3, text_vmclear_on_vmxon_pointer)
    ∷ (4, text_vmlaunch_on_nonclear_vmcs)
    ∷ (5, text_vmresume_on_nonlaunched_vmcs)
    ∷ (6, text_vmresume_after_vmxoff)
    ∷ (7, text_vmentry_invalid_control_fields)
    ∷ (8, text_vmentry_invalid_host_state)
    ∷ (9, text_vmptrld_invalid_phys)
    ∷ (10, text_vmptrld_on_vmxon_pointer)
    ∷ (11, text_vmptrld_incorrect_vmcs_revision)
    ∷ (12, text_vmread_vmwrite_unsupported_component)
    ∷ (13, text_vmwrite_to_readonly_field)
    ∷ (15, text_vmxon_in_vmxroot_operation)
    ∷ (16, text_vmentry_invalid_exec_controls)
    ∷ (17, text_vmentry_nonlaunched_exec_controls)
    ∷ (18, text_vmentry_with_executive_vmcs_pointer)
    ∷ (19, text_vmcall_on_nonclear_vmcs)
    ∷ (20, text_vmcall_invalid_vmexit_controls)
    ∷ (22, text_vmcall_incorrect_msr_msg_revision)
    ∷ (23, text_vmxoff_under_dual_monitor)
    ∷ (24, text_vmcall_in_smm)
    ∷ (25, text_vmentry_invalid_execution_ctrls)
    ∷ (26, text_vmentry_events_blocked_by_mov_ss)
    ∷ (28, text_invalid_invept)
    ∷ []

-- The `switch`, with the result of its `default`.
abbrev pub find_message : List (ℕ × Message) → ℕ → Message
find_message [] err = text_unknown
find_message ((n, text) ∷ rest) err =
    let later = find_message rest err in if err == n then text else later

abbrev pub vmx_error_to_string : ℕ → Message
vmx_error_to_string err = find_message messages err

-- The error that a text names.
abbrev error_named : Message → InstructionError
error_named text_error_not_available = vmxerr_ok_not_available
error_named text_vmcall_in_vmxroot = vmxerr_vmcall_in_vmxroot
error_named text_vmclear_invalid_phys = vmxerr_vmclear_invalid_phys
error_named text_vmclear_on_vmxon_pointer = vmxerr_vmclear_vmxonptr
error_named text_vmlaunch_on_nonclear_vmcs = vmxerr_vmlaunch_nonclear
error_named text_vmresume_on_nonlaunched_vmcs = vmxerr_vmresume_nonlaunch
error_named text_vmresume_after_vmxoff = vmxerr_vmresume_after_off
error_named text_vmentry_invalid_control_fields = vmxerr_vmentry_bad_ctrl
error_named text_vmentry_invalid_host_state = vmxerr_vmentry_bad_host
error_named text_vmptrld_invalid_phys = vmxerr_vmptrld_invalid
error_named text_vmptrld_on_vmxon_pointer = vmxerr_vmptrld_vmxonptr
error_named text_vmptrld_incorrect_vmcs_revision = vmxerr_vmptrld_bad_rev
error_named text_vmread_vmwrite_unsupported_component = vmxerr_vmrw_unsupported
error_named text_vmwrite_to_readonly_field = vmxerr_vmwrite_to_readonly
error_named text_vmxon_in_vmxroot_operation = vmxerr_vmxon_in_vmxroot
error_named text_vmentry_invalid_exec_controls = vmxerr_vmentry_bad_execctl
error_named text_vmentry_nonlaunched_exec_controls = vmxerr_vmentry_nonlaunch_execctl
error_named text_vmentry_with_executive_vmcs_pointer = vmxerr_vmentry_exec_vmcsptr
error_named text_vmcall_on_nonclear_vmcs = vmxerr_vmcall_nonclear
error_named text_vmcall_invalid_vmexit_controls = vmxerr_vmcall_invalid_exitctl
error_named text_vmcall_incorrect_msr_msg_revision = vmxerr_vmcall_incorrect_msgrev
error_named text_vmxoff_under_dual_monitor = vmxerr_vmxoff_dualmonitor
error_named text_vmcall_in_smm = vmxerr_vmcall_invalid_smm
error_named text_vmentry_invalid_execution_ctrls = vmxerr_ok_not_available
error_named text_vmentry_events_blocked_by_mov_ss = vmxerr_vmentry_events_blocked
error_named text_invalid_invept = vmxerr_invalid_invept
error_named text_unknown = vmxerr_ok_not_available

error_named-vmx_error_to_string :
    (e : InstructionError) → error_named (vmx_error_to_string (error_code e)) ≡ e
error_named-vmx_error_to_string vmxerr_ok_not_available = refl
error_named-vmx_error_to_string _ = refl

-- Two errors with the same text are the same error.
vmx_error_to_string_injective :
    (a b : InstructionError)
    → vmx_error_to_string (error_code a) ≡ vmx_error_to_string (error_code b)
    → a ≡ b
vmx_error_to_string_injective a b h =
    sym (error_named-vmx_error_to_string a) ∙ ap error_named h ∙ error_named-vmx_error_to_string b
