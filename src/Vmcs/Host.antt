-- ===== src/Vmcs/Host.antt =====
-- The host-state fields of kernel/arch/x86/vmm/vmcs.h: the enumerators by the width of their group, the
-- encoding that the header computes for each, and the one that its comment writes down.
use chypervisor.Prelude.{ℕ, ◌≡◌, refl}
use chypervisor.Vmcs.Encode.{
  vmcs_eh, access_full, width_dword, width_natural, width_qword, width_word,
}

pub data HostField : Type 0 where
  host_cr0 : HostField
  host_cr3 : HostField
  host_cr4 : HostField
  host_fs_base : HostField
  host_gs_base : HostField
  host_tr_base : HostField
  host_gdtr_base : HostField
  host_idtr_base : HostField
  host_sysenter_esp : HostField
  host_sysenter_eip : HostField
  host_rsp : HostField
  host_rip : HostField
  host_s_cet : HostField
  host_ssp : HostField
  host_intr_ssp_table_addr : HostField
  host_es_selector : HostField
  host_cs_selector : HostField
  host_ss_selector : HostField
  host_ds_selector : HostField
  host_fs_selector : HostField
  host_gs_selector : HostField
  host_tr_selector : HostField
  host_sysenter_cs : HostField
  host_ia32_pat : HostField
  host_ia32_efer : HostField
  host_ia32_perf_global_ctrl : HostField
  host_ia32_pkrs : HostField

-- The value of the enumerator.
abbrev pub host_field : HostField → ℕ
host_field host_cr0 = vmcs_eh 0 access_full width_natural
host_field host_cr3 = vmcs_eh 1 access_full width_natural
host_field host_cr4 = vmcs_eh 2 access_full width_natural
host_field host_fs_base = vmcs_eh 3 access_full width_natural
host_field host_gs_base = vmcs_eh 4 access_full width_natural
host_field host_tr_base = vmcs_eh 5 access_full width_natural
host_field host_gdtr_base = vmcs_eh 6 access_full width_natural
host_field host_idtr_base = vmcs_eh 7 access_full width_natural
host_field host_sysenter_esp = vmcs_eh 8 access_full width_natural
host_field host_sysenter_eip = vmcs_eh 9 access_full width_natural
host_field host_rsp = vmcs_eh 10 access_full width_natural
host_field host_rip = vmcs_eh 11 access_full width_natural
host_field host_s_cet = vmcs_eh 12 access_full width_natural
host_field host_ssp = vmcs_eh 13 access_full width_natural
host_field host_intr_ssp_table_addr = vmcs_eh 14 access_full width_natural
host_field host_es_selector = vmcs_eh 0 access_full width_word
host_field host_cs_selector = vmcs_eh 1 access_full width_word
host_field host_ss_selector = vmcs_eh 2 access_full width_word
host_field host_ds_selector = vmcs_eh 3 access_full width_word
host_field host_fs_selector = vmcs_eh 4 access_full width_word
host_field host_gs_selector = vmcs_eh 5 access_full width_word
host_field host_tr_selector = vmcs_eh 6 access_full width_word
host_field host_sysenter_cs = vmcs_eh 0 access_full width_dword
host_field host_ia32_pat = vmcs_eh 0 access_full width_qword
host_field host_ia32_efer = vmcs_eh 1 access_full width_qword
host_field host_ia32_perf_global_ctrl = vmcs_eh 2 access_full width_qword
host_field host_ia32_pkrs = vmcs_eh 3 access_full width_qword

-- The value in the comment beside it.
abbrev pub host_comment : HostField → ℕ
host_comment host_cr0 = 0x6C00
host_comment host_cr3 = 0x6C02
host_comment host_cr4 = 0x6C04
host_comment host_fs_base = 0x6C06
host_comment host_gs_base = 0x6C08
host_comment host_tr_base = 0x6C0A
host_comment host_gdtr_base = 0x6C0C
host_comment host_idtr_base = 0x6C0E
host_comment host_sysenter_esp = 0x6C10
host_comment host_sysenter_eip = 0x6C12
host_comment host_rsp = 0x6C14
host_comment host_rip = 0x6C16
host_comment host_s_cet = 0x6C18
host_comment host_ssp = 0x6C1A
host_comment host_intr_ssp_table_addr = 0x6C1C
host_comment host_es_selector = 0x0C00
host_comment host_cs_selector = 0x0C02
host_comment host_ss_selector = 0x0C04
host_comment host_ds_selector = 0x0C06
host_comment host_fs_selector = 0x0C08
host_comment host_gs_selector = 0x0C0A
host_comment host_tr_selector = 0x0C0C
host_comment host_sysenter_cs = 0x4C00
host_comment host_ia32_pat = 0x2C00
host_comment host_ia32_efer = 0x2C02
host_comment host_ia32_perf_global_ctrl = 0x2C04
host_comment host_ia32_pkrs = 0x2C06

-- Each host-state field has the encoding that the header's comment gives for it.
pub host_field-eq-host_comment : (f : HostField) → host_field f ≡ host_comment f
host_field-eq-host_comment host_cr0 = refl
host_field-eq-host_comment _ = refl
