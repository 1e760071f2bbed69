-- ===== src/Vmcs/Control.antt =====
-- The control fields of kernel/arch/x86/vmm/vmcs.h: the enumerators by the width of their group, the
-- encoding that the header computes for each, and the one that its comment writes down.
use chypervisor.Prelude.{ℕ, ◌≡◌, refl}
use chypervisor.Vmcs.Encode.{
  vmcs_ec, access_full, width_dword, width_natural, width_qword, width_word,
}

pub data ControlField : Type 0 where
  cr0_mask : ControlField
  cr4_mask : ControlField
  cr0_read_shadow : ControlField
  cr4_read_shadow : ControlField
  cr3_target_value0 : ControlField
  cr3_target_value1 : ControlField
  cr3_target_value2 : ControlField
  cr3_target_value3 : ControlField
  vpid : ControlField
  posted_intr_notification_vector : ControlField
  eptp_index : ControlField
  hlat_prefix_size : ControlField
  pid_pointer_index : ControlField
  pin_based_ctls : ControlField
  primary_proc_ctls : ControlField
  exception_bitmap : ControlField
  page_fault_error_code_mask : ControlField
  page_fault_error_code_match : ControlField
  cr3_target_count : ControlField
  vmexit_ctls : ControlField
  vmexit_msr_store_count : ControlField
  vmexit_msr_load_count : ControlField
  vmentry_ctls : ControlField
  vmentry_msr_load_count : ControlField
  vmentry_interrupt_info : ControlField
  vmentry_exception_error_code : ControlField
  vmentry_instruction_length : ControlField
  tpr_threshold : ControlField
  secondary_proc_ctls : ControlField
  ple_gap : ControlField
  ple_window : ControlField
  instruction_timeouts : ControlField
  io_bitmap_a : ControlField
  io_bitmap_b : ControlField
  msr_bitmaps : ControlField
  vmexit_msr_store_addr : ControlField
  vmexit_msr_load_addr : ControlField
  vmentry_msr_load_addr : ControlField
  executive_vmcs_pointer : ControlField
  pml_address : ControlField
  tsc_offset : ControlField
  virtual_apic_address : ControlField
  apic_access_address : ControlField
  posted_intr_desc_addr : ControlField
  vm_function_ctrl : ControlField
  eptp : ControlField
  eoi_exit_bitmap0 : ControlField
  eoi_exit_bitmap1 : ControlField
  eoi_exit_bitmap2 : ControlField
  eoi_exit_bitmap3 : ControlField
  eptp_list_address : ControlField
  vmread_bitmap : ControlField
  vmwrite_bitmap : ControlField
  vexception_info_addr : ControlField
  xss_exiting_bitmap : ControlField
  encls_exiting_bitmap : ControlField
  subpage_perm_table_ptr : ControlField
  tsc_multiplier : ControlField
  tertiary_proc_ctls : ControlField
  enclv_exiting_bitmap : ControlField
  low_pasid_directory : ControlField
  high_pasid_directory : ControlField
  shared_eptp : ControlField
  pconfig_exiting_bitmap : ControlField
  hlatp : ControlField
  pid_pointer_table : ControlField
  secondary_vmexit_ctls : ControlField
  spec_ctrl_mask : ControlField
  spec_ctrl_shadow : ControlField

-- The value of the enumerator.
abbrev pub control_field : ControlField → ℕ
control_field cr0_mask = vmcs_ec 0 access_full width_natural
control_field cr4_mask = vmcs_ec 1 access_full width_natural
control_field cr0_read_shadow = vmcs_ec 2 access_full width_natural
control_field cr4_read_shadow = vmcs_ec 3 access_full width_natural
control_field cr3_target_value0 = vmcs_ec 4 access_full width_natural
control_field cr3_target_value1 = vmcs_ec 5 access_full width_natural
control_field cr3_target_value2 = vmcs_ec 6 access_full width_natural
control_field cr3_target_value3 = vmcs_ec 7 access_full width_natural
control_field vpid = vmcs_ec 0 access_full width_word
control_field posted_intr_notification_vector = vmcs_ec 1 access_full width_word
control_field eptp_index = vmcs_ec 2 access_full width_word
control_field hlat_prefix_size = vmcs_ec 3 access_full width_word
control_field pid_pointer_index = vmcs_ec 4 access_full width_word
control_field pin_based_ctls = vmcs_ec 0 access_full width_dword
control_field primary_proc_ctls = vmcs_ec 1 access_full width_dword
control_field exception_bitmap = vmcs_ec 2 access_full width_dword
control_field page_fault_error_code_mask = vmcs_ec 3 access_full width_dword
control_field page_fault_error_code_match = vmcs_ec 4 access_full width_dword
control_field cr3_target_count = vmcs_ec 5 access_full width_dword
control_field vmexit_ctls = vmcs_ec 6 access_full width_dword
control_field vmexit_msr_store_count = vmcs_ec 7 access_full width_dword
control_field vmexit_msr_load_count = vmcs_ec 8 access_full width_dword
control_field vmentry_ctls = vmcs_ec 9 access_full width_dword
control_field vmentry_msr_load_count = vmcs_ec 10 access_full width_dword
control_field vmentry_interrupt_info = vmcs_ec 11 access_full width_dword
control_field vmentry_exception_error_code = vmcs_ec 12 access_full width_dword
control_field vmentry_instruction_length = vmcs_ec 13 access_full width_dword
control_field tpr_threshold = vmcs_ec 14 access_full width_dword
control_field secondary_proc_ctls = vmcs_ec 15 access_full width_dword
control_field ple_gap = vmcs_ec 16 access_full width_dword
control_field ple_window = vmcs_ec 17 access_full width_dword
control_field instruction_timeouts = vmcs_ec 18 access_full width_dword
control_field io_bitmap_a = vmcs_ec 0 access_full width_qword
control_field io_bitmap_b = vmcs_ec 1 access_full width_qword
control_field msr_bitmaps = vmcs_ec 2 access_full width_qword
control_field vmexit_msr_store_addr = vmcs_ec 3 access_full width_qword
control_field vmexit_msr_load_addr = vmcs_ec 4 access_full width_qword
control_field vmentry_msr_load_addr = vmcs_ec 5 access_full width_qword
control_field executive_vmcs_pointer = vmcs_ec 6 access_full width_qword
control_field pml_address = vmcs_ec 7 access_full width_qword
control_field tsc_offset = vmcs_ec 8 access_full width_qword
control_field virtual_apic_address = vmcs_ec 9 access_full width_qword
control_field apic_access_address = vmcs_ec 10 access_full width_qword
control_field posted_intr_desc_addr = vmcs_ec 11 access_full width_qword
control_field vm_function_ctrl = vmcs_ec 12 access_full width_qword
control_field eptp = vmcs_ec 13 access_full width_qword
control_field eoi_exit_bitmap0 = vmcs_ec 14 access_full width_qword
control_field eoi_exit_bitmap1 = vmcs_ec 15 access_full width_qword
control_field eoi_exit_bitmap2 = vmcs_ec 16 access_full width_qword
control_field eoi_exit_bitmap3 = vmcs_ec 17 access_full width_qword
control_field eptp_list_address = vmcs_ec 18 access_full width_qword
control_field vmread_bitmap = vmcs_ec 19 access_full width_qword
control_field vmwrite_bitmap = vmcs_ec 20 access_full width_qword
control_field vexception_info_addr = vmcs_ec 21 access_full width_qword
control_field xss_exiting_bitmap = vmcs_ec 22 access_full width_qword
control_field encls_exiting_bitmap = vmcs_ec 23 access_full width_qword
control_field subpage_perm_table_ptr = vmcs_ec 24 access_full width_qword
control_field tsc_multiplier = vmcs_ec 25 access_full width_qword
control_field tertiary_proc_ctls = vmcs_ec 26 access_full width_qword
control_field enclv_exiting_bitmap = vmcs_ec 27 access_full width_qword
control_field low_pasid_directory = vmcs_ec 28 access_full width_qword
control_field high_pasid_directory = vmcs_ec 29 access_full width_qword
control_field shared_eptp = vmcs_ec 30 access_full width_qword
control_field pconfig_exiting_bitmap = vmcs_ec 31 access_full width_qword
control_field hlatp = vmcs_ec 32 access_full width_qword
control_field pid_pointer_table = vmcs_ec 33 access_full width_qword
control_field secondary_vmexit_ctls = vmcs_ec 34 access_full width_qword
control_field spec_ctrl_mask = vmcs_ec 37 access_full width_qword
control_field spec_ctrl_shadow = vmcs_ec 38 access_full width_qword

-- The value in the comment beside it.
abbrev pub control_comment : ControlField → ℕ
control_comment cr0_mask = 0x6000
control_comment cr4_mask = 0x6002
control_comment cr0_read_shadow = 0x6004
control_comment cr4_read_shadow = 0x6006
control_comment cr3_target_value0 = 0x6008
control_comment cr3_target_value1 = 0x600A
control_comment cr3_target_value2 = 0x600C
control_comment cr3_target_value3 = 0x600E
control_comment vpid = 0x0000
control_comment posted_intr_notification_vector = 0x0002
control_comment eptp_index = 0x0004
control_comment hlat_prefix_size = 0x0006
control_comment pid_pointer_index = 0x0008
control_comment pin_based_ctls = 0x4000
control_comment primary_proc_ctls = 0x4002
control_comment exception_bitmap = 0x4004
control_comment page_fault_error_code_mask = 0x4006
control_comment page_fault_error_code_match = 0x4008
control_comment cr3_target_count = 0x400A
control_comment vmexit_ctls = 0x400C
control_comment vmexit_msr_store_count = 0x400E
control_comment vmexit_msr_load_count = 0x4010
control_comment vmentry_ctls = 0x4012
control_comment vmentry_msr_load_count = 0x4014
control_comment vmentry_interrupt_info = 0x4016
control_comment vmentry_exception_error_code = 0x4018
control_comment vmentry_instruction_length = 0x401A
control_comment tpr_threshold = 0x401C
control_comment secondary_proc_ctls = 0x401E
control_comment ple_gap = 0x4020
control_comment ple_window = 0x4022
control_comment instruction_timeouts = 0x4024
control_comment io_bitmap_a = 0x2000
control_comment io_bitmap_b = 0x2002
control_comment msr_bitmaps = 0x2004
control_comment vmexit_msr_store_addr = 0x2006
control_comment vmexit_msr_load_addr = 0x2008
control_comment vmentry_msr_load_addr = 0x200A
control_comment executive_vmcs_pointer = 0x200C
control_comment pml_address = 0x200E
control_comment tsc_offset = 0x2010
control_comment virtual_apic_address = 0x2012
control_comment apic_access_address = 0x2014
control_comment posted_intr_desc_addr = 0x2016
control_comment vm_function_ctrl = 0x2018
control_comment eptp = 0x201A
control_comment eoi_exit_bitmap0 = 0x201C
control_comment eoi_exit_bitmap1 = 0x201E
control_comment eoi_exit_bitmap2 = 0x2020
control_comment eoi_exit_bitmap3 = 0x2022
control_comment eptp_list_address = 0x2024
control_comment vmread_bitmap = 0x2026
control_comment vmwrite_bitmap = 0x2028
control_comment vexception_info_addr = 0x202A
control_comment xss_exiting_bitmap = 0x202C
control_comment encls_exiting_bitmap = 0x202E
control_comment subpage_perm_table_ptr = 0x2030
control_comment tsc_multiplier = 0x2032
control_comment tertiary_proc_ctls = 0x2034
control_comment enclv_exiting_bitmap = 0x2036
control_comment low_pasid_directory = 0x2038
control_comment high_pasid_directory = 0x203A
control_comment shared_eptp = 0x203C
control_comment pconfig_exiting_bitmap = 0x203E
control_comment hlatp = 0x2040
control_comment pid_pointer_table = 0x2042
control_comment secondary_vmexit_ctls = 0x2044
control_comment spec_ctrl_mask = 0x204A
control_comment spec_ctrl_shadow = 0x204C

-- Each control field has the encoding that the header's comment gives for it.
pub control_field-eq-control_comment : (f : ControlField) → control_field f ≡ control_comment f
control_field-eq-control_comment cr0_mask = refl
control_field-eq-control_comment _ = refl
