-- ===== src/Vmcs/ExitInfo.antt =====
-- The exit information fields of kernel/arch/x86/vmm/vmcs.h: the enumerators by the width of their group, the
-- encoding that the header computes for each, and the one that its comment writes down.
use chypervisor.Prelude.{ℕ, ◌≡◌, refl}
use chypervisor.Vmcs.Encode.{vmcs_er, access_full, width_dword, width_natural, width_qword}

pub data ExitInfoField : Type 0 where
  exit_qualification : ExitInfoField
  io_rcx : ExitInfoField
  io_rsi : ExitInfoField
  io_rdi : ExitInfoField
  io_rip : ExitInfoField
  guest_linear_address : ExitInfoField
  vm_instruction_error : ExitInfoField
  exit_reason : ExitInfoField
  exit_interrupt_info : ExitInfoField
  exit_interrupt_error_code : ExitInfoField
  idt_vectoring_info : ExitInfoField
  idt_vectoring_error_code : ExitInfoField
  exit_instruction_length : ExitInfoField
  vmx_instruction_info : ExitInfoField
  guest_physical_address : ExitInfoField

-- The value of the enumerator.
abbrev pub exit_info_field : ExitInfoField → ℕ
exit_info_field exit_qualification = vmcs_er 0 access_full width_natural
exit_info_field io_rcx = vmcs_er 1 access_full width_natural
exit_info_field io_rsi = vmcs_er 2 access_full width_natural
exit_info_field io_rdi = vmcs_er 3 access_full width_natural
exit_info_field io_rip = vmcs_er 4 access_full width_natural
exit_info_field guest_linear_address = vmcs_er 5 access_full width_natural
exit_info_field vm_instruction_error = vmcs_er 0 access_full width_dword
exit_info_field exit_reason = vmcs_er 1 access_full width_dword
exit_info_field exit_interrupt_info = vmcs_er 2 access_full width_dword
exit_info_field exit_interrupt_error_code = vmcs_er 3 access_full width_dword
exit_info_field idt_vectoring_info = vmcs_er 4 access_full width_dword
exit_info_field idt_vectoring_error_code = vmcs_er 5 access_full width_dword
exit_info_field exit_instruction_length = vmcs_er 6 access_full width_dword
exit_info_field vmx_instruction_info = vmcs_er 7 access_full width_dword
exit_info_field guest_physical_address = vmcs_er 0 access_full width_qword

-- The value in the comment beside it.
abbrev pub exit_info_comment : ExitInfoField → ℕ
exit_info_comment exit_qualification = 0x6400
exit_info_comment io_rcx = 0x6402
exit_info_comment io_rsi = 0x6404
exit_info_comment io_rdi = 0x6406
exit_info_comment io_rip = 0x6408
exit_info_comment guest_linear_address = 0x640A
exit_info_comment vm_instruction_error = 0x4400
exit_info_comment exit_reason = 0x4402
exit_info_comment exit_interrupt_info = 0x4404
exit_info_comment exit_interrupt_error_code = 0x4406
exit_info_comment idt_vectoring_info = 0x4408
exit_info_comment idt_vectoring_error_code = 0x440A
exit_info_comment exit_instruction_length = 0x440C
exit_info_comment vmx_instruction_info = 0x440E
exit_info_comment guest_physical_address = 0x2400

-- Each exit information field has the encoding that the header's comment gives for it.
pub exit_info_field-eq-exit_info_comment :
    (f : ExitInfoField) → exit_info_field f ≡ exit_info_comment f
exit_info_field-eq-exit_info_comment exit_qualification = refl
exit_info_field-eq-exit_info_comment _ = refl
