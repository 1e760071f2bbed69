-- ===== src/Vcpu/Tests.antt =====
-- Runs of vcpu.c and vmcs.c.
use chypervisor.Prelude.{ℕ, ◌≡◌, ◌≢◌, refl, arith, Bool, true, false, none, some}
use chypervisor.Prelude.{◌==◌, if◌then◌else◌}
use chypervisor.Prelude.Bits.{bit}
use chypervisor.Vmcs.Ideal.{Fields, ideal, ideal-Laws}
use chypervisor.Vmcs.Machine.{Machine, error_field, reading, is_full}
use chypervisor.Vmcs.Access.{vmcs_vmread, vmcs_instruction_error, vmcs_vmread_diverges}
use chypervisor.Vmcs.Guest.{guest_field, guest_rip}
use chypervisor.Vcpu.Controls.{adjust_ctrl_u32, adjust_ctrl_u32_settings}
use chypervisor.Vcpu.Setup.{Addresses, vcpu_build_vmcs_and_launch}
use chypervisor.Vcpu.Writes.{StopsAt}
use chypervisor.Vcpu.Launch.{build_vmcs}
use chypervisor.Vcpu.Ready.{IsReady, vcpu_build_vmcs_and_launch-IsReady}
use chypervisor.Vcpu.Exit.{vmexit_dispatch, exit_reason_hlt, resumed, halted, vmexit_dispatch-cases}
use chypervisor.Vmcs.ExitInfo.{exit_info_field, exit_reason, exit_instruction_length}

-- A processor without a current VMCS: every VMX instruction sets CF.
abbrev bare : Machine
bare = record {
  State = Fields;
  vmread = λ s f. (1, 0);
  vmwrite = λ s f v. (1, s);
  vmlaunch = λ s. (1, s);
  rdmsr = λ s a. 0;
  read_reg = λ s r. 0;
  load64 = λ s a. 0;
}

-- The fields after an exit by HLT, whose instruction is one byte long, at 0x1000.
abbrev at_hlt : Fields
at_hlt f =
    if f == exit_info_field exit_reason
    then 12
    else (if f == exit_info_field exit_instruction_length then 1 else 0x1000)

abbrev addresses : Addresses
addresses = record {
  s_vmexit_tmp_stack = 0xFFFFFFFF80200000;
  vmexit_bootstrap_handler = 0xFFFFFFFF80101000;
  vcpu_guest_hlt_loop = 0xFFFFFFFF80102000;
}

vmcs_vmread_diverges_example :
    (vmcs_vmread bare 100 at_hlt 0x681E ≡ none) × (vmcs_instruction_error bare 100 at_hlt ≡ none)
vmcs_vmread_diverges_example = vmcs_vmread_diverges bare 100 at_hlt 0x681E refl refl

adjust_ctrl_u32_settings_example :
    (bit 0xFFFFFFFF00000016 1 ≡ 1 → bit (adjust_ctrl_u32 0x80 0xFFFFFFFF00000016) 1 ≡ 1)
    × (bit 0xFFFFFFFF00000016 33 ≡ 0 → bit (adjust_ctrl_u32 0x80 0xFFFFFFFF00000016) 1 ≡ 0)
    × (bit 0xFFFFFFFF00000016 1 ≡ 0
        → bit 0xFFFFFFFF00000016 33 ≡ 1
        → bit (adjust_ctrl_u32 0x80 0xFFFFFFFF00000016) 1 ≡ bit 0x80 1)
adjust_ctrl_u32_settings_example =
    adjust_ctrl_u32_settings 0x80 0xFFFFFFFF00000016 1 (omega arith) (omega arith)

vcpu_build_vmcs_and_launch-IsReady_example :
    (built : Bool) × (t : Fields) × (vcpu_build_vmcs_and_launch ideal 2 addresses at_hlt
      ≡ (if built then some (true, t) else some (false, t)))
    × (built ≡ true → IsReady ideal addresses at_hlt t)
    × (built ≡ false → StopsAt ideal 2 at_hlt (build_vmcs ideal addresses) t)
vcpu_build_vmcs_and_launch-IsReady_example =
    vcpu_build_vmcs_and_launch-IsReady ideal ideal-Laws 0 addresses at_hlt (λ t h. refl) refl

vmexit_dispatch-cases_example :
    (12 ≢ exit_reason_hlt → vmexit_dispatch ideal 2 at_hlt ≡ some (halted at_hlt))
    × (12 ≡ exit_reason_hlt
        → (t : Fields) × (vmexit_dispatch ideal 2 at_hlt ≡ some (resumed t))
          × (reading ideal t (guest_field guest_rip) ≡ some 0x1001)
          × ((g : ℕ)
              → is_full g ≡ true
              → (g == guest_field guest_rip) ≡ false
              → g ≢ error_field
              → reading ideal t g ≡ reading ideal at_hlt g))
vmexit_dispatch-cases_example =
    vmexit_dispatch-cases ideal ideal-Laws 0 at_hlt 0x1000 refl refl (λ v. refl)
