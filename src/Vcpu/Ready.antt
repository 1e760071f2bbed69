-- ===== src/Vcpu/Ready.antt =====
-- The state in which `vcpu_build_vmcs_and_launch` executes VMLAUNCH, and that it returns.
use chypervisor.Prelude.{ℕ, suc, ◌^◌, ◌%◌, ◌≡◌, ◌≢◌, Bool, true, false, some}
use chypervisor.Prelude.{if◌then◌else◌, refl, ◌∙◌, arith, Bool-cases, inl, inr, u64, add64}
use chypervisor.Vmcs.Machine.{
  Machine, Laws, cr3, cs, vmx_check_rflags, HasError, error_field, reading, field_bits, is_full,
}
use chypervisor.Vmcs.Control.{
  control_field, pin_based_ctls, primary_proc_ctls, vmentry_ctls, vmexit_ctls,
}
use chypervisor.Vmcs.Guest.{
  guest_field, guest_cr3, guest_cs_selector, guest_rip, guest_rflags, guest_ldtr_base,
}
use chypervisor.Vmcs.Guest.{guest_vmcs_link_pointer}
use chypervisor.Vmcs.Host.{host_field, host_cr3, host_rsp, host_rip, host_cs_selector, host_tr_base}
use chypervisor.Vcpu.Writes.{StopsAt, Fated, fate, run_writes-Outcome}
use chypervisor.Vcpu.Setup.{Addresses, control, vcpu_build_vmcs_and_launch}
use chypervisor.Vcpu.Setup.{pin_request, proc_request, entry_request, exit_request}
use chypervisor.Vcpu.Launch.{
  build_vmcs, build_vmcs-AllStable, vcpu_build_vmcs_and_launch-eq, LaunchReadable,
}
use chypervisor.Vcpu.Launch.{launch-returns}

module _ (m : Machine) where
  -- `vcpu_build_vmcs_and_launch` returns. Either a checked write failed, and it returns -1 in the state
  -- behind that write, or all statements ran, every field is as its fate says, and the result is that of
  -- VMLAUNCH.
  vcpu_build_vmcs_and_launch-returns :
      (laws : Laws m) (depth : ℕ) (code : Addresses) (s : m.State)
      → LaunchReadable m
      → HasError m s
      → (built : Bool) × (t : m.State) × (vcpu_build_vmcs_and_launch m (suc (suc depth)) code s ≡ (
          if built
          then some (vmx_check_rflags (m.vmlaunch t).0, (m.vmlaunch t).1)
          else some (false, t)))
        × (built ≡ true
            → (g : ℕ) → is_full g ≡ true
            → g ≢ error_field
            → Fated m s t g (fate g (build_vmcs m code)))
        × (built ≡ false → StopsAt m (suc (suc depth)) s (build_vmcs m code) t)
  vcpu_build_vmcs_and_launch-returns laws depth code s readable h =
      let (ok, t, run, (err, fates, stops)) =
        run_writes-Outcome m laws depth s (build_vmcs m code) h (build_vmcs-AllStable m laws code)
          refl in
      let eq = vcpu_build_vmcs_and_launch-eq m (suc (suc depth)) code s in
      elim (Bool-cases ok) [
        | inl e ↦ (
          true,
          t,
          eq ∙ rw (run, e) (launch-returns m depth t readable err),
          (λ p. fates e),
          λ p. absurd (ground (arith, p)),
        )
        | inr e ↦ (false, t, eq ∙ rw (run, e) refl, (λ p. absurd (ground (arith, p))), λ p. stops e)
      ]

  abbrev pub Reads : m.State → ℕ → ℕ → Type 0
  Reads t f v = reading m t f ≡ some (u64 v % 2 ^ field_bits f)

  -- The VMCS of `t`, with the values in the state `s`.
  abbrev pub IsReady : Addresses → m.State → m.State → Type 0
  IsReady code s t =
      Reads t (control_field pin_based_ctls) (control m pin_request 0x48D 0x481 s)
      × Reads t (control_field primary_proc_ctls) (control m proc_request 0x48E 0x482 s)
      × Reads t (control_field vmentry_ctls) (control m entry_request 0x490 0x484 s)
      × Reads t (control_field vmexit_ctls) (control m exit_request 0x48F 0x483 s)
      × Reads t (host_field host_rip) code.vmexit_bootstrap_handler
      × Reads t (host_field host_rsp) (add64 code.s_vmexit_tmp_stack 4096)
      × Reads t (host_field host_cr3) (m.read_reg s cr3)
      × Reads t (host_field host_cs_selector) (m.read_reg s cs)
      × Reads t (host_field host_tr_base) 0
      × Reads t (guest_field guest_rip) code.vcpu_guest_hlt_loop
      × Reads t (guest_field guest_rflags) 2
      × Reads t (guest_field guest_cr3) (m.read_reg s cr3)
      × Reads t (guest_field guest_cs_selector) (m.read_reg s cs)
      × Reads t (guest_field guest_ldtr_base) 0xDEAD00
      × Reads t (guest_field guest_vmcs_link_pointer) 0xFFFFFFFFFFFFFFFF

  fates-IsReady :
      (code : Addresses) (s t : m.State)
      → ((g : ℕ) → is_full g ≡ true → g ≢ error_field → Fated m s t g (fate g (build_vmcs m code)))
      → IsReady code s t
  fates-IsReady code s t h = (
    h (control_field pin_based_ctls) refl (omega arith),
    h (control_field primary_proc_ctls) refl (omega arith),
    h (control_field vmentry_ctls) refl (omega arith),
    h (control_field vmexit_ctls) refl (omega arith),
    h (host_field host_rip) refl (omega arith),
    h (host_field host_rsp) refl (omega arith),
    h (host_field host_cr3) refl (omega arith),
    h (host_field host_cs_selector) refl (omega arith),
    h (host_field host_tr_base) refl (omega arith),
    h (guest_field guest_rip) refl (omega arith),
    h (guest_field guest_rflags) refl (omega arith),
    h (guest_field guest_cr3) refl (omega arith),
    h (guest_field guest_cs_selector) refl (omega arith),
    h (guest_field guest_ldtr_base) refl (omega arith),
    h (guest_field guest_vmcs_link_pointer) refl (omega arith),
  )

  -- On a processor that obeys the laws of VMREAD and VMWRITE for full encodings, whose error field is readable and stays
  -- so when VMLAUNCH falls through, `vcpu_build_vmcs_and_launch` returns, with a stack for two nested
  -- calls. Either one of its checked writes failed, with all statements before it run, and the
  -- result is -1 in the state behind that write, before any VMLAUNCH; or VMLAUNCH is executed in a state whose VMCS is ready: adjusted controls, the host's entry point, stack and
  -- address space, and the guest's HLT loop with the host's address space and code segment; the result
  -- is then that of VMLAUNCH.
  pub vcpu_build_vmcs_and_launch-IsReady :
      (laws : Laws m) (depth : ℕ) (code : Addresses) (s : m.State)
      → LaunchReadable m
      → HasError m s
      → (built : Bool) × (t : m.State) × (vcpu_build_vmcs_and_launch m (suc (suc depth)) code s ≡ (
          if built
          then some (vmx_check_rflags (m.vmlaunch t).0, (m.vmlaunch t).1)
          else some (false, t)))
        × (built ≡ true → IsReady code s t)
        × (built ≡ false → StopsAt m (suc (suc depth)) s (build_vmcs m code) t)
  vcpu_build_vmcs_and_launch-IsReady laws depth code s readable h =
      let (built, t, eq, fates, stops) =
        vcpu_build_vmcs_and_launch-returns laws depth code s readable h in
      (built, t, eq, (λ p. fates-IsReady code s t (fates p)), stops)
