-- ===== src/Vmcs/Guest.antt =====
-- The guest-state fields of kernel/arch/x86/vmm/vmcs.h: the enumerators by the width of their group, the
-- encoding that the header computes for each, and the one that its comment writes down.
use chypervisor.Prelude.{ℕ, ◌≡◌, refl}
use chypervisor.Vmcs.Encode.{
  vmcs_eg, access_full, width_dword, width_natural, width_qword, width_word,
}

pub data GuestField : Type 0 where
  guest_cr0 : GuestField
  guest_cr3 : GuestField
  guest_cr4 : GuestField
  guest_es_base : GuestField
  guest_cs_base : GuestField
  guest_ss_base : GuestField
  guest_ds_base : GuestField
  guest_fs_base : GuestField
  guest_gs_base : GuestField
  guest_ldtr_base : GuestField
  guest_tr_base : GuestField
  guest_gdtr_base : GuestField
  guest_idtr_base : GuestField
  guest_dr7 : GuestField
  guest_rsp : GuestField
  guest_rip : GuestField
  guest_rflags : GuestField
  guest_pending_dbg_exc : GuestField
  guest_sysenter_esp : GuestField
  guest_sysenter_eip : GuestField
  guest_s_cet : GuestField
  guest_ssp : GuestField
  guest_intr_ssp_table_addr : GuestField
  guest_es_selector : GuestField
  guest_cs_selector : GuestField
  guest_ss_selector : GuestField
  guest_ds_selector : GuestField
  guest_fs_selector : GuestField
  guest_gs_selector : GuestField
  guest_ldtr_selector : GuestField
  guest_tr_selector : GuestField
  guest_interrupt_status : GuestField
  guest_pml_index : GuestField
  guest_uinv : GuestField
  guest_es_limit : GuestField
  guest_cs_limit : GuestField
  guest_ss_limit : GuestField
  guest_ds_limit : GuestField
  guest_fs_limit : GuestField
  guest_gs_limit : GuestField
  guest_ldtr_limit : GuestField
  guest_tr_limit : GuestField
  guest_gdtr_limit : GuestField
  guest_idtr_limit : GuestField
  guest_es_access_rights : GuestField
  guest_cs_access_rights : GuestField
  guest_ss_access_rights : GuestField
  guest_ds_access_rights : GuestField
  guest_fs_access_rights : GuestField
  guest_gs_access_rights : GuestField
  guest_ldtr_access_rights : GuestField
  guest_tr_access_rights : GuestField
  guest_interruptibility_state : GuestField
  guest_activity_state : GuestField
  guest_smbase : GuestField
  guest_sysenter_cs : GuestField
  guest_preemption_timer : GuestField
  guest_vmcs_link_pointer : GuestField
  guest_ia32_debugctl : GuestField
  guest_ia32_pat : GuestField
  guest_ia32_efer : GuestField
  guest_ia32_perf_global_ctrl : GuestField
  guest_pdpte0 : GuestField
  guest_pdpte1 : GuestField
  guest_pdpte2 : GuestField
  guest_pdpte3 : GuestField
  guest_ia32_bndcfgs : GuestField
  guest_ia32_rtit_ctl : GuestField
  guest_ia32_lbr_ctl : GuestField
  guest_ia32_pkrs : GuestField

-- The value of the enumerator.
abbrev pub guest_field : GuestField → ℕ
guest_field guest_cr0 = vmcs_eg 0 access_full width_natural
guest_field guest_cr3 = vmcs_eg 1 access_full width_natural
guest_field guest_cr4 = vmcs_eg 2 access_full width_natural
guest_field guest_es_base = vmcs_eg 3 access_full width_natural
guest_field guest_cs_base = vmcs_eg 4 access_full width_natural
guest_field guest_ss_base = vmcs_eg 5 access_full width_natural
guest_field guest_ds_base = vmcs_eg 6 access_full width_natural
guest_field guest_fs_base = vmcs_eg 7 access_full width_natural
guest_field guest_gs_base = vmcs_eg 8 access_full width_natural
guest_field guest_ldtr_base = vmcs_eg 9 access_full width_natural
guest_field guest_tr_base = vmcs_eg 10 access_full width_natural
guest_field guest_gdtr_base = vmcs_eg 11 access_full width_natural
guest_field guest_idtr_base = vmcs_eg 12 access_full width_natural
guest_field guest_dr7 = vmcs_eg 13 access_full width_natural
guest_field guest_rsp = vmcs_eg 14 access_full width_natural
guest_field guest_rip = vmcs_eg 15 access_full width_natural
guest_field guest_rflags = vmcs_eg 16 access_full width_natural
guest_field guest_pending_dbg_exc = vmcs_eg 17 access_full width_natural
guest_field guest_sysenter_esp = vmcs_eg 18 access_full width_natural
guest_field guest_sysenter_eip = vmcs_eg 19 access_full width_natural
guest_field guest_s_cet = vmcs_eg 20 access_full width_natural
guest_field guest_ssp = vmcs_eg 21 access_full width_natural
guest_field guest_intr_ssp_table_addr = vmcs_eg 22 access_full width_natural
guest_field guest_es_selector = vmcs_eg 0 access_full width_word
guest_field guest_cs_selector = vmcs_eg 1 access_full width_word
guest_field guest_ss_selector = vmcs_eg 2 access_full width_word
guest_field guest_ds_selector = vmcs_eg 3 access_full width_word
guest_field guest_fs_selector = vmcs_eg 4 access_full width_word
guest_field guest_gs_selector = vmcs_eg 5 access_full width_word
guest_field guest_ldtr_selector = vmcs_eg 6 access_full width_word
guest_field guest_tr_selector = vmcs_eg 7 access_full width_word
guest_field guest_interrupt_status = vmcs_eg 8 access_full width_word
guest_field guest_pml_index = vmcs_eg 9 access_full width_word
guest_field guest_uinv = vmcs_eg 10 access_full width_word
guest_field guest_es_limit = vmcs_eg 0 access_full width_dword
guest_field guest_cs_limit = vmcs_eg 1 access_full width_dword
guest_field guest_ss_limit = vmcs_eg 2 access_full width_dword
guest_field guest_ds_limit = vmcs_eg 3 access_full width_dword
guest_field guest_fs_limit = vmcs_eg 4 access_full width_dword
guest_field guest_gs_limit = vmcs_eg 5 access_full width_dword
guest_field guest_ldtr_limit = vmcs_eg 6 access_full width_dword
guest_field guest_tr_limit = vmcs_eg 7 access_full width_dword
guest_field guest_gdtr_limit = vmcs_eg 8 access_full width_dword
guest_field guest_idtr_limit = vmcs_eg 9 access_full width_dword
guest_field guest_es_access_rights = vmcs_eg 10 access_full width_dword
guest_field guest_cs_access_rights = vmcs_eg 11 access_full width_dword
guest_field guest_ss_access_rights = vmcs_eg 12 access_full width_dword
guest_field guest_ds_access_rights = vmcs_eg 13 access_full width_dword
guest_field guest_fs_access_rights = vmcs_eg 14 access_full width_dword
guest_field guest_gs_access_rights = vmcs_eg 15 access_full width_dword
guest_field guest_ldtr_access_rights = vmcs_eg 16 access_full width_dword
guest_field guest_tr_access_rights = vmcs_eg 17 access_full width_dword
guest_field guest_interruptibility_state = vmcs_eg 18 access_full width_dword
guest_field guest_activity_state = vmcs_eg 19 access_full width_dword
guest_field guest_smbase = vmcs_eg 20 access_full width_dword
guest_field guest_sysenter_cs = vmcs_eg 21 access_full width_dword
guest_field guest_preemption_timer = vmcs_eg 22 access_full width_dword
guest_field guest_vmcs_link_pointer = vmcs_eg 0 access_full width_qword
guest_field guest_ia32_debugctl = vmcs_eg 1 access_full width_qword
guest_field guest_ia32_pat = vmcs_eg 2 access_full width_qword
guest_field guest_ia32_efer = vmcs_eg 3 access_full width_qword
guest_field guest_ia32_perf_global_ctrl = vmcs_eg 4 access_full width_qword
guest_field guest_pdpte0 = vmcs_eg 5 access_full width_qword
guest_field guest_pdpte1 = vmcs_eg 6 access_full width_qword
guest_field guest_pdpte2 = vmcs_eg 7 access_full width_qword
guest_field guest_pdpte3 = vmcs_eg 8 access_full width_qword
guest_field guest_ia32_bndcfgs = vmcs_eg 9 access_full width_qword
guest_field guest_ia32_rtit_ctl = vmcs_eg 10 access_full width_qword
guest_field guest_ia32_lbr_ctl = vmcs_eg 11 access_full width_qword
guest_field guest_ia32_pkrs = vmcs_eg 12 access_full width_qword

-- The value in the comment beside it.
abbrev pub guest_comment : GuestField → ℕ
guest_comment guest_cr0 = 0x6800
guest_comment guest_cr3 = 0x6802
guest_comment guest_cr4 = 0x6804
guest_comment guest_es_base = 0x6806
guest_comment guest_cs_base = 0x6808
guest_comment guest_ss_base = 0x680A
guest_comment guest_ds_base = 0x680C
guest_comment guest_fs_base = 0x680E
guest_comment guest_gs_base = 0x6810
guest_comment guest_ldtr_base = 0x6812
guest_comment guest_tr_base = 0x6814
guest_comment guest_gdtr_base = 0x6816
guest_comment guest_idtr_base = 0x6818
guest_comment guest_dr7 = 0x681A
guest_comment guest_rsp = 0x681C
guest_comment guest_rip = 0x681E
guest_comment guest_rflags = 0x6820
guest_comment guest_pending_dbg_exc = 0x6822
guest_comment guest_sysenter_esp = 0x6824
guest_comment guest_sysenter_eip = 0x6826
guest_comment guest_s_cet = 0x6828
guest_comment guest_ssp = 0x682A
guest_comment guest_intr_ssp_table_addr = 0x682C
guest_comment guest_es_selector = 0x0800
guest_comment guest_cs_selector = 0x0802
guest_comment guest_ss_selector = 0x0804
guest_comment guest_ds_selector = 0x0806
guest_comment guest_fs_selector = 0x0808
guest_comment guest_gs_selector = 0x080A
guest_comment guest_ldtr_selector = 0x080C
guest_comment guest_tr_selector = 0x080E
guest_comment guest_interrupt_status = 0x0810
guest_comment guest_pml_index = 0x0812
guest_comment guest_uinv = 0x0814
guest_comment guest_es_limit = 0x4800
guest_comment guest_cs_limit = 0x4802
guest_comment guest_ss_limit = 0x4804
guest_comment guest_ds_limit = 0x4806
guest_comment guest_fs_limit = 0x4808
guest_comment guest_gs_limit = 0x480A
guest_comment guest_ldtr_limit = 0x480C
guest_comment guest_tr_limit = 0x480E
guest_comment guest_gdtr_limit = 0x4810
guest_comment guest_idtr_limit = 0x4812
guest_comment guest_es_access_rights = 0x4814
guest_comment guest_cs_access_rights = 0x4816
guest_comment guest_ss_access_rights = 0x4818
guest_comment guest_ds_access_rights = 0x481A
guest_comment guest_fs_access_rights = 0x481C
guest_comment guest_gs_access_rights = 0x481E
guest_comment guest_ldtr_access_rights = 0x4820
guest_comment guest_tr_access_rights = 0x4822
guest_comment guest_interruptibility_state = 0x4824
guest_comment guest_activity_state = 0x4826
guest_comment guest_smbase = 0x4828
guest_comment guest_sysenter_cs = 0x482A
guest_comment guest_preemption_timer = 0x482C
guest_comment guest_vmcs_link_pointer = 0x2800
guest_comment guest_ia32_debugctl = 0x2802
guest_comment guest_ia32_pat = 0x2804
guest_comment guest_ia32_efer = 0x2806
guest_comment guest_ia32_perf_global_ctrl = 0x2808
guest_comment guest_pdpte0 = 0x280A
guest_comment guest_pdpte1 = 0x280C
guest_comment guest_pdpte2 = 0x280E
guest_comment guest_pdpte3 = 0x2810
guest_comment guest_ia32_bndcfgs = 0x2812
guest_comment guest_ia32_rtit_ctl = 0x2814
guest_comment guest_ia32_lbr_ctl = 0x2816
guest_comment guest_ia32_pkrs = 0x2818

-- Each guest-state field has the encoding that the header's comment gives for it.
pub guest_field-eq-guest_comment : (f : GuestField) → guest_field f ≡ guest_comment f
guest_field-eq-guest_comment guest_cr0 = refl
guest_field-eq-guest_comment _ = refl
