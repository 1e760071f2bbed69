-- ===== src/Vcpu/Setup.antt =====
-- The setup functions of vcpu.c, as the statements they run, and `vcpu_build_vmcs_and_launch`.
use chypervisor.Prelude.{ℕ, ◌-◌, ◌^◌, Bool, true, false, Option, none, some}
use chypervisor.Prelude.{List, [], ◌∷◌, if◌then◌else◌, bit_and, bit_or, ◌<<<◌, u32, add64}
use chypervisor.Gdt.{tss_base_from_gdt}
use chypervisor.Vmcs.Machine.{
  Machine, Reg, cr0, cr3, cr4, cs, ss, ds, es, fs, gs, tr, gdtr_base, idtr_base,
}
use chypervisor.Vmcs.Machine.{vmx_check_rflags}
use chypervisor.Vmcs.Access.{vmcs_instruction_error}
use chypervisor.Vmcs.Control.{
  control_field, pin_based_ctls, primary_proc_ctls, vmentry_ctls, vmexit_ctls,
}
use chypervisor.Vmcs.Guest.{guest_field, guest_cr0, guest_cr3, guest_cr4, guest_cs_access_rights}
use chypervisor.Vmcs.Guest.{
  guest_cs_base, guest_cs_limit, guest_cs_selector, guest_ds_access_rights, guest_ds_base,
}
use chypervisor.Vmcs.Guest.{
  guest_ds_limit, guest_ds_selector, guest_es_access_rights, guest_es_base, guest_es_limit,
}
use chypervisor.Vmcs.Guest.{
  guest_es_selector, guest_fs_access_rights, guest_fs_base, guest_fs_limit, guest_fs_selector,
}
use chypervisor.Vmcs.Guest.{
  guest_gdtr_base, guest_gdtr_limit, guest_gs_access_rights, guest_gs_base, guest_gs_limit,
}
use chypervisor.Vmcs.Guest.{
  guest_gs_selector, guest_ia32_efer, guest_idtr_base, guest_idtr_limit, guest_ldtr_access_rights,
}
use chypervisor.Vmcs.Guest.{
  guest_ldtr_base, guest_ldtr_limit, guest_ldtr_selector, guest_rflags, guest_rip,
}
use chypervisor.Vmcs.Guest.{
  guest_ss_access_rights, guest_ss_base, guest_ss_limit, guest_ss_selector, guest_tr_access_rights,
}
use chypervisor.Vmcs.Guest.{
  guest_tr_base, guest_tr_limit, guest_tr_selector, guest_vmcs_link_pointer,
}
use chypervisor.Vmcs.Host.{host_field, host_cr0, host_cr3, host_cr4, host_cs_selector}
use chypervisor.Vmcs.Host.{
  host_ds_selector, host_es_selector, host_fs_base, host_fs_selector, host_gdtr_base,
}
use chypervisor.Vmcs.Host.{host_gs_base, host_gs_selector, host_ia32_efer, host_idtr_base, host_rip}
use chypervisor.Vmcs.Host.{host_rsp, host_ss_selector, host_tr_base, host_tr_selector}
use chypervisor.Vcpu.Controls.{adjust_ctrl_u32, pick_ctrl_msr}
use chypervisor.Vcpu.Writes.{Statement, checked, ignored, run_writes}

-- The addresses that the linker gives to the code and the stack named in the VMCS.
pub record Addresses : Type 0 where
  pub s_vmexit_tmp_stack : ℕ
  pub vmexit_bootstrap_handler : ℕ
  pub vcpu_guest_hlt_loop : ℕ

abbrev pub tmp_stack_bytes : ℕ
tmp_stack_bytes = 4096

abbrev pub ia32_fs_base : ℕ
ia32_fs_base = 0xC0000100

abbrev pub ia32_gs_base : ℕ
ia32_gs_base = 0xC0000101

abbrev pub ia32_efer : ℕ
ia32_efer = 0xC0000080

abbrev pub ar_type : ℕ → ℕ
ar_type x = u32 (bit_and x 0xF)

abbrev pub ar_dpl : ℕ → ℕ
ar_dpl n = u32 (bit_and n 0x3 <<< 5)

abbrev pub ar_cs64 : ℕ
ar_cs64 = bit_or (bit_or (bit_or (bit_or (ar_type 0xB) (1 <<< 4)) (ar_dpl 0)) (1 <<< 7)) (1 <<< 13)

abbrev pub ar_ds : ℕ
ar_ds = bit_or (bit_or (bit_or (bit_or (ar_type 0x3) (1 <<< 4)) (ar_dpl 0)) (1 <<< 7)) (1 <<< 14)

abbrev pub ar_tr : ℕ
ar_tr = bit_or (bit_or (bit_or (ar_type 0xB) (0 <<< 4)) (ar_dpl 0)) (1 <<< 7)

abbrev pub ar_ldtr : ℕ
ar_ldtr = bit_or (bit_or (bit_or (ar_type 0x2) (0 <<< 4)) (ar_dpl 0)) (1 <<< 7)

-- The requested bits of the four control words.
abbrev pub pin_request : ℕ
pin_request = 0

abbrev pub proc_request : ℕ
proc_request = bit_and (bit_or 0 (1 <<< 7)) (2 ^ 32 - 1 - (1 <<< 31))

abbrev pub entry_request : ℕ
entry_request = bit_or 0 (bit_or (1 <<< 9) (1 <<< 15))

abbrev pub exit_request : ℕ
exit_request = bit_or 0 (bit_or (1 <<< 9) (1 <<< 21))

module _ (m : Machine) where
  -- A control word: a request, adjusted by the MSR that `pick_ctrl_msr` reads.
  abbrev pub control : ℕ → ℕ → ℕ → m.State → ℕ
  control request msr_true msr_legacy s =
      adjust_ctrl_u32 request (pick_ctrl_msr m s msr_true msr_legacy)

  abbrev pub reg : Reg → m.State → ℕ
  reg r s = m.read_reg s r

  abbrev pub msr : ℕ → m.State → ℕ
  msr a s = m.rdmsr s a

  abbrev pub const : ℕ → m.State → ℕ
  const n s = n

  abbrev pub tss_base : m.State → ℕ
  tss_base s = tss_base_from_gdt (m.load64 s) (m.read_reg s tr) (m.read_reg s gdtr_base)

  abbrev pub setup_exec_controls : List (Statement m.State)
  setup_exec_controls =
      checked (control_field pin_based_ctls) (control pin_request 0x48D 0x481)
      ∷ checked (control_field primary_proc_ctls) (control proc_request 0x48E 0x482)
      ∷ []

  abbrev pub setup_host_state : Addresses → List (Statement m.State)
  setup_host_state code =
      checked (host_field host_cr0) (reg cr0)
      ∷ checked (host_field host_cr3) (reg cr3)
      ∷ checked (host_field host_cr4) (reg cr4)
      ∷ checked (host_field host_rsp) (const (add64 code.s_vmexit_tmp_stack tmp_stack_bytes))
      ∷ checked (host_field host_rip) (const code.vmexit_bootstrap_handler)
      ∷ checked (host_field host_cs_selector) (reg cs)
      ∷ checked (host_field host_ss_selector) (reg ss)
      ∷ checked (host_field host_ds_selector) (reg ds)
      ∷ checked (host_field host_es_selector) (reg es)
      ∷ checked (host_field host_fs_selector) (reg fs)
      ∷ checked (host_field host_gs_selector) (reg gs)
      ∷ checked (host_field host_tr_selector) (reg tr)
      ∷ checked (host_field host_gdtr_base) (reg gdtr_base)
      ∷ checked (host_field host_idtr_base) (reg idtr_base)
      ∷ checked (host_field host_tr_selector) (reg tr)
      ∷ checked (host_field host_tr_base) tss_base
      ∷ checked (host_field host_fs_base) (msr ia32_fs_base)
      ∷ checked (host_field host_gs_base) (msr ia32_gs_base)
      ∷ checked (host_field host_tr_base) (const 0)
      ∷ checked (host_field host_ia32_efer) (msr ia32_efer)
      ∷ []

  abbrev pub setup_guest_state : Addresses → List (Statement m.State)
  setup_guest_state code =
      checked (guest_field guest_cr0) (reg cr0)
      ∷ checked (guest_field guest_cr3) (reg cr3)
      ∷ checked (guest_field guest_cr4) (reg cr4)
      ∷ checked (guest_field guest_cs_base) (const 0)
      ∷ checked (guest_field guest_ss_base) (const 0)
      ∷ checked (guest_field guest_ds_base) (const 0)
      ∷ checked (guest_field guest_es_base) (const 0)
      ∷ checked (guest_field guest_fs_base) (const 0)
      ∷ checked (guest_field guest_gs_base) (const 0)
      ∷ checked (guest_field guest_tr_base) (const 0)
      ∷ checked (guest_field guest_gdtr_base) (const 0)
      ∷ checked (guest_field guest_idtr_base) (const 0)
      ∷ checked (guest_field guest_ldtr_base) (const 0xDEAD00)
      ∷ ignored (guest_field guest_cs_limit) (const 0xFFFF)
      ∷ ignored (guest_field guest_ss_limit) (const 0xFFFF)
      ∷ ignored (guest_field guest_ds_limit) (const 0xFFFF)
      ∷ ignored (guest_field guest_es_limit) (const 0xFFFF)
      ∷ ignored (guest_field guest_fs_limit) (const 0xFFFF)
      ∷ ignored (guest_field guest_gs_limit) (const 0xFFFF)
      ∷ ignored (guest_field guest_tr_limit) (const 0)
      ∷ ignored (guest_field guest_ldtr_limit) (const 0)
      ∷ ignored (guest_field guest_idtr_limit) (const 0)
      ∷ ignored (guest_field guest_gdtr_limit) (const 0)
      ∷ checked (guest_field guest_cs_selector) (reg cs)
      ∷ checked (guest_field guest_ss_selector) (const 0)
      ∷ checked (guest_field guest_ds_selector) (const 0)
      ∷ checked (guest_field guest_es_selector) (const 0)
      ∷ checked (guest_field guest_fs_selector) (const 0)
      ∷ checked (guest_field guest_gs_selector) (const 0)
      ∷ checked (guest_field guest_tr_selector) (const 0)
      ∷ checked (guest_field guest_ldtr_selector) (const 0)
      ∷ ignored (guest_field guest_cs_access_rights) (const ar_cs64)
      ∷ ignored (guest_field guest_ss_access_rights) (const ar_ds)
      ∷ ignored (guest_field guest_ds_access_rights) (const ar_ds)
      ∷ ignored (guest_field guest_es_access_rights) (const ar_ds)
      ∷ ignored (guest_field guest_fs_access_rights) (const ar_ds)
      ∷ ignored (guest_field guest_gs_access_rights) (const ar_ds)
      ∷ ignored (guest_field guest_tr_access_rights) (const ar_tr)
      ∷ ignored (guest_field guest_ldtr_access_rights) (const ar_ldtr)
      ∷ checked (guest_field guest_rip) (const code.vcpu_guest_hlt_loop)
      ∷ checked (guest_field guest_rflags) (const 0x2)
      ∷ checked (guest_field guest_ia32_efer) (msr ia32_efer)
      ∷ checked (guest_field guest_vmcs_link_pointer) (const 0xFFFFFFFFFFFFFFFF)
      ∷ []

  abbrev pub setup_entry_exit_controls : List (Statement m.State)
  setup_entry_exit_controls =
      checked (control_field vmentry_ctls) (control entry_request 0x490 0x484)
      ∷ checked (control_field vmexit_ctls) (control exit_request 0x48F 0x483)
      ∷ []

  -- `if (f() != 0) return -1;` before the rest of a function.
  abbrev pub and_then :
      Option (Bool × m.State) → (m.State → Option (Bool × m.State)) → Option (Bool × m.State)
  and_then none next = none
  and_then (some (false, t)) next = some (false, t)
  and_then (some (true, t)) next = next t

  -- VMLAUNCH and what follows it, when it falls through: `true` for the result 0, that is CF and ZF both
  -- clear, and `false` for -1, after the instruction error has been read.
  abbrev pub launch : ℕ → m.State → Option (Bool × m.State)
  launch depth t =
      let (rflags, u) = m.vmlaunch t in
      if vmx_check_rflags rflags
      then some (true, u)
      else elim (vmcs_instruction_error m depth u) [ none ↦ none | some err ↦ some (false, u) ]

  unfoldable pub vcpu_build_vmcs_and_launch : ℕ → Addresses → m.State → Option (Bool × m.State)
  vcpu_build_vmcs_and_launch depth code s =
      and_then (run_writes m depth s setup_exec_controls) (λ t0.
        and_then (run_writes m depth t0 (setup_host_state code)) (λ t1.
          and_then (run_writes m depth t1 (setup_guest_state code)) (λ t2.
            and_then (run_writes m depth t2 setup_entry_exit_controls) (λ t3. launch depth t3))))
