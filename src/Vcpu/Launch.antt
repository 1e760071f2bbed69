-- ===== src/Vcpu/Launch.antt =====
-- What the VMCS holds when `vcpu_build_vmcs_and_launch` executes VMLAUNCH, and that it returns.
use chypervisor.Prelude.{ℕ, suc, ◌≡◌, Bool, true, false, Option, none, some}
use chypervisor.Prelude.{
  List, [], ◌∷◌, ◌++◌, refl, sym, ◌∙◌, Bool-cases, inl, inr, Option-cases, bit_and, add64, not64,
}
use chypervisor.Gdt.{tss_base_from_gdt}
use chypervisor.Vmcs.Machine.{
  Machine, Laws, Reg, cr0, cr3, cr4, cs, ss, ds, es, fs, gs, tr, gdtr_base, idtr_base,
}
use chypervisor.Vmcs.Machine.{vmx_check_rflags, HasError}
use chypervisor.Vmcs.Access.{vmcs_instruction_error, vmcs_vmread}
use chypervisor.Vcpu.Controls.{pick_ctrl_msr}
use chypervisor.Vcpu.Writes.{Statement, run_writes, AllStable, Stable, step}
use chypervisor.Vcpu.Setup.{
  Addresses, control, tss_base, and_then, launch, vcpu_build_vmcs_and_launch,
}
use chypervisor.Vcpu.Setup.{
  setup_exec_controls, setup_host_state, setup_guest_state, setup_entry_exit_controls,
}
use chypervisor.Vcpu.Setup.{reg, msr, const, ia32_efer, ia32_fs_base, ia32_gs_base}
use chypervisor.Vcpu.Setup.{pin_request, proc_request, entry_request, exit_request}

infixr 20 ◌▷◌
◌▷◌ : {A B : Type 0} → A → B → A × B
a ▷ b = (a, b)

module _ (m : Machine) where
  pub run_writes-append :
      (depth : ℕ) (s : m.State) (xs ys : List (Statement m.State))
      → run_writes m depth s (xs ++ ys)
        ≡ and_then m (run_writes m depth s xs) (λ t. run_writes m depth t ys)
  unfolding run_writes
  run_writes-append depth s [] ys = refl
  run_writes-append depth s (w ∷ xs) ys = elim (Option-cases (step m depth s w)) [
    | inl e ↦ rw (e, run_writes) refl
    | inr ((true, t), e) ↦ rw (e, run_writes) (run_writes-append depth t xs ys)
    | inr ((false, t), e) ↦ rw (e, run_writes) refl
  ]

  pub control-Stable : (laws : Laws m) (request a b : ℕ) → Stable m (control m request a b)
  unfolding pick_ctrl_msr
  control-Stable laws request a b s f x =
      rw (laws.same_msr s f x 0x480, laws.same_msr s f x a, laws.same_msr s f x b) refl

  pub tss_base-Stable : (laws : Laws m) → Stable m (tss_base m)
  unfolding tss_base_from_gdt
  tss_base-Stable laws s f x =
      let at = add64 (m.read_reg s gdtr_base) (bit_and (m.read_reg s tr) (not64 7)) in
      rw
        (
          laws.same_reg s f x tr,
          laws.same_reg s f x gdtr_base,
          laws.same_memory s f x at,
          laws.same_memory s f x (add64 at 8),
        )
        refl

  reg-Stable : (laws : Laws m) (r : Reg) → Stable m (reg m r)
  reg-Stable laws r s f x = laws.same_reg s f x r

  msr-Stable : (laws : Laws m) (a : ℕ) → Stable m (msr m a)
  msr-Stable laws a s f x = laws.same_msr s f x a

  const-Stable : {n : ℕ} → Stable m (const m n)
  const-Stable s f x = refl

  exec-AllStable : (laws : Laws m) → AllStable m (setup_exec_controls m)
  exec-AllStable laws =
      control-Stable laws pin_request 0x48D 0x481
      ▷ control-Stable laws proc_request 0x48E 0x482
      ▷ tt

  host-AllStable : (laws : Laws m) (code : Addresses) → AllStable m (setup_host_state m code)
  host-AllStable laws code =
      reg-Stable laws cr0
      ▷ reg-Stable laws cr3
      ▷ reg-Stable laws cr4
      ▷ const-Stable
      ▷ const-Stable
      ▷ reg-Stable laws cs
      ▷ reg-Stable laws ss
      ▷ reg-Stable laws ds
      ▷ reg-Stable laws es
      ▷ reg-Stable laws fs
      ▷ reg-Stable laws gs
      ▷ reg-Stable laws tr
      ▷ reg-Stable laws gdtr_base
      ▷ reg-Stable laws idtr_base
      ▷ reg-Stable laws tr
      ▷ tss_base-Stable laws
      ▷ msr-Stable laws ia32_fs_base
      ▷ msr-Stable laws ia32_gs_base
      ▷ const-Stable
      ▷ msr-Stable laws ia32_efer
      ▷ tt

  guest-AllStable : (laws : Laws m) (code : Addresses) → AllStable m (setup_guest_state m code)
  guest-AllStable laws code =
      reg-Stable laws cr0
      ▷ reg-Stable laws cr3
      ▷ reg-Stable laws cr4
      ▷ const-Stable
      ▷ const-Stable
      ▷ const-Stable
      ▷ const-Stable
      ▷ const-Stable
      ▷ const-Stable
      ▷ const-Stable
      ▷ const-Stable
      ▷ const-Stable
      ▷ const-Stable
      ▷ const-Stable
      ▷ const-Stable
      ▷ const-Stable
      ▷ const-Stable
      ▷ const-Stable
      ▷ const-Stable
      ▷ const-Stable
      ▷ const-Stable
      ▷ const-Stable
      ▷ const-Stable
      ▷ reg-Stable laws cs
      ▷ const-Stable
      ▷ const-Stable
      ▷ const-Stable
      ▷ const-Stable
      ▷ const-Stable
      ▷ const-Stable
      ▷ const-Stable
      ▷ const-Stable
      ▷ const-Stable
      ▷ const-Stable
      ▷ const-Stable
      ▷ const-Stable
      ▷ const-Stable
      ▷ const-Stable
      ▷ const-Stable
      ▷ const-Stable
      ▷ const-Stable
      ▷ msr-Stable laws ia32_efer
      ▷ const-Stable
      ▷ tt

  entry_exit-AllStable : (laws : Laws m) → AllStable m (setup_entry_exit_controls m)
  entry_exit-AllStable laws =
      control-Stable laws entry_request 0x490 0x484
      ▷ control-Stable laws exit_request 0x48F 0x483
      ▷ tt

  append-AllStable :
      (xs ys : List (Statement m.State)) → AllStable m xs → AllStable m ys → AllStable m (xs ++ ys)
  append-AllStable [] ys h k = k
  append-AllStable (w ∷ xs) ys (h, r) k = (h, append-AllStable xs ys r k)

  -- All the statements of the four setup functions.
  abbrev pub build_vmcs : Addresses → List (Statement m.State)
  build_vmcs code =
      setup_exec_controls m
      ++ (setup_host_state m code ++ (setup_guest_state m code ++ setup_entry_exit_controls m))

  pub build_vmcs-AllStable : (laws : Laws m) (code : Addresses) → AllStable m (build_vmcs code)
  build_vmcs-AllStable laws code =
      let guest =
        append-AllStable (setup_guest_state m code) (setup_entry_exit_controls m)
          (guest-AllStable laws code) (entry_exit-AllStable laws) in
      let host =
        append-AllStable (setup_host_state m code)
          (setup_guest_state m code ++ setup_entry_exit_controls m) (host-AllStable laws code)
          guest in
      append-AllStable (setup_exec_controls m)
        (setup_host_state m code ++ (setup_guest_state m code ++ setup_entry_exit_controls m))
        (exec-AllStable laws) host

  and_then_assoc :
      (r : Option (Bool × m.State)) (f g : m.State → Option (Bool × m.State))
      → and_then m (and_then m r f) g ≡ and_then m r (λ t. and_then m (f t) g)
  and_then_assoc none f g = refl
  and_then_assoc (some (false, t)) f g = refl
  and_then_assoc (some (true, t)) f g = refl

  and_then-append :
      (depth : ℕ) (xs ys : List (Statement m.State)) (g : m.State → Option (Bool × m.State))
      (s : m.State)
      → and_then m (run_writes m depth s xs) (λ t. and_then m (run_writes m depth t ys) g)
        ≡ and_then m (run_writes m depth s (xs ++ ys)) g
  and_then-append depth xs ys g s =
      sym (and_then_assoc (run_writes m depth s xs) (λ t. run_writes m depth t ys) g)
      ∙ rw (run_writes-append depth s xs ys) refl

  and_then-cong :
      (r : Option (Bool × m.State)) (f g : m.State → Option (Bool × m.State))
      → ((t : m.State) → f t ≡ g t)
      → and_then m r f ≡ and_then m r g
  and_then-cong none f g h = refl
  and_then-cong (some (false, t)) f g h = refl
  and_then-cong (some (true, t)) f g h = h t

  -- The four functions and the launch are one sequence of statements and the launch.
  pub vcpu_build_vmcs_and_launch-eq :
      (depth : ℕ) (code : Addresses) (s : m.State)
      → vcpu_build_vmcs_and_launch m depth code s
        ≡ and_then m (run_writes m depth s (build_vmcs code)) (launch m depth)
  unfolding vcpu_build_vmcs_and_launch
  vcpu_build_vmcs_and_launch-eq depth code s =
      let exec = setup_exec_controls m in
      let host = setup_host_state m code in
      let guest = setup_guest_state m code in
      let controls = setup_entry_exit_controls m in
      let go = launch m depth in
      let last = λ (t1 : m.State). and_then-append depth guest controls go t1 in
      let middle = λ (t0 : m.State).
        and_then-cong (run_writes m depth t0 host) _ _ last
        ∙ and_then-append depth host (guest ++ controls) go t0 in
      and_then-cong (run_writes m depth s exec) _ _ middle
      ∙ and_then-append depth exec (host ++ (guest ++ controls)) go s

  -- VMLAUNCH, when it falls through, leaves the error field readable.
  abbrev pub LaunchReadable : Type 0
  LaunchReadable = (t : m.State) → HasError m t → HasError m (m.vmlaunch t).1

  pub launch-returns :
      (depth : ℕ) (t : m.State)
      → LaunchReadable
      → HasError m t
      → launch m (suc (suc depth)) t ≡ some (vmx_check_rflags (m.vmlaunch t).0, (m.vmlaunch t).1)
  unfolding vmcs_instruction_error vmcs_vmread
  launch-returns depth t readable h = elim (Bool-cases (vmx_check_rflags (m.vmlaunch t).0)) [
    | inl e ↦ rw e refl
    | inr e ↦ rw (e, readable t h) refl
  ]
