-- ===== src/Vmentry/Trip.antt =====
-- `asm_vmentry` and `asm_vmexit` (vmentry_exit.c) with the `set_host_rsp_thunk` of vcpu.c between them: the
-- stack on which the exit stub finds itself.
use chypervisor.Prelude.{
  ℕ, ◌+◌, ◌-◌, ◌%◌, ◌^◌, ◌≤◌, ◌<◌, ◌≡◌, refl, sym, ap, ◌∙◌, arith, ◌==◌, ◌⊎◌, if◌then◌else◌,
}
use chypervisor.Prelude.{true, some, [], ◌∷◌}
use mathlib.Core.Path.{subst}
use chypervisor.Interrupt.Stubs.{rbx, rsp, rbp, rdi}
use chypervisor.Interrupt.Saved.{Holds, up}
use chypervisor.Vmcs.Machine.{Machine, Laws, vmx_check_rflags, reading}
use chypervisor.Vmcs.Access.{vmcs_vmwrite}
use chypervisor.Vmcs.Host.{host_field, host_rsp}
use chypervisor.Vmentry.{Core, returned, run, before_call, asm_vmexit, set_host_rsp_thunk}
use chypervisor.Vmentry.Entry.{IsBack, callee_saved, before_call-Holds}
use chypervisor.Vmentry.Exit.{IsSaved, Holds-same, asm_vmexit-IsSaved}

-- What each register that a function keeps is given, one word up the stack: RBX the caller's R12, and so
-- on to RBP, which gets the return address.
abbrev pub shifted : (ℕ → ℕ) → ℕ → ℕ → ℕ
shifted f ret r =
    if r == rbx then f 12 else if r == rbp then ret else if r == 15 then f rbp else f (r + 1)

-- The compiled body of the called function keeps RSP, the stack from it up, and the VMCS.
pub record IsCompiled {W : Type 0} (compiled : Core W → Core W) : Type 0 where
  pub same_rsp : (w : Core W) → (compiled w).cpu.reg rsp ≡ w.cpu.reg rsp
  pub same_stack : (w : Core W) (q : ℕ) → w.cpu.reg rsp ≤ q → (compiled w).cpu.mem q ≡ w.cpu.mem q
  pub same_world : (w : Core W) → (compiled w).world ≡ w.world

module _ (m : Machine) (laws : Laws m) (depth : ℕ) (compiled : Core m.State → Core m.State) where
  abbrev host_rsp_field : ℕ
  host_rsp_field = host_field host_rsp

  -- The state after a call of the function at which VMWRITE succeeds.
  abbrev pub after_call : Core m.State → Core m.State
  after_call w =
      compiled (record w { world = (m.vmwrite w.world host_rsp_field (w.cpu.reg rdi)).1 })

  thunk-after_call :
      (w : Core m.State)
      → vmx_check_rflags (m.vmwrite w.world host_rsp_field (w.cpu.reg rdi)).0 ≡ true
      → set_host_rsp_thunk m depth compiled w ≡ some (after_call w)
  unfolding set_host_rsp_thunk vmcs_vmwrite
  thunk-after_call w e = rw (e, set_host_rsp_thunk) refl

  module _ (kept : IsCompiled compiled) where
    -- On a processor that obeys the laws of VMREAD and VMWRITE for full encodings, on a stack with room
    -- for seven words below address 2^64, with a compiled function that keeps its
    -- caller's stack, when VMWRITE succeeds and the guest exits with RSP from the HOST_RSP field and the
    -- stack as the entry stub left it: HOST_RSP points one word above the pointer to the registers.
    -- `asm_vmexit` then takes the host's RBX for that pointer: if this is aligned and its area is apart
    -- from the stack, the guest's registers are saved there, every register that a function keeps gets
    -- the next word up, RBP the return address, and the stub returns to the word above that.
    pub asm_vmexit-before_call :
        (s g : Core m.State) (ret above : ℕ)
        → 56 ≤ s.cpu.reg rsp
        → s.cpu.reg rsp < 2 ^ 64
        → Holds s.cpu.mem (s.cpu.reg rsp) (ret ∷ above ∷ [])
        → vmx_check_rflags (m.vmwrite s.world host_rsp_field (s.cpu.reg rsp - 48)).0 ≡ true
        → let t = after_call (run before_call s) in
          reading m t.world host_rsp_field ≡ some (g.cpu.reg rsp)
          → ((q : ℕ)
              → s.cpu.reg rsp - 56 ≤ q
              → q < s.cpu.reg rsp + 16
              → g.cpu.mem q ≡ (after_call (run before_call s)).cpu.mem q)
          → s.cpu.reg rbx % 16 ≡ 0
          → (s.cpu.reg rbx + 256 ≤ s.cpu.reg rsp - 40) ⊎ (s.cpu.reg rsp + 16 ≤ s.cpu.reg rbx)
          → (set_host_rsp_thunk m depth compiled (run before_call s)
              ≡ some (after_call (run before_call s)))
            × (g.cpu.reg rsp ≡ s.cpu.reg rsp - 48)
            × ((u : Core m.State) × (asm_vmexit g ≡ returned u)
                × IsSaved g.cpu.reg g.xmm (s.cpu.reg rbx) u.cpu.mem
                × IsBack (shifted s.cpu.reg ret) (s.cpu.reg rsp + 8) above [] u)
    asm_vmexit-before_call s g ret above room small h written exit same even apart =
        let f = s.cpu.reg in
        let a = f rsp - 56 in
        let here : f rsp ≡ up 7 a = omega (arith, room) in
        let w = run before_call s in
        let t = after_call w in
        let xs = ret ∷ above ∷ [] in
        let (top, pointed, world, held) =
          before_call-Holds s a xs here (subst (λ q. Holds s.cpu.mem q xs) here h) in
        let given : w.cpu.reg rdi ≡ f rsp - 48 = omega (arith, pointed, room) in
        let ok : vmx_check_rflags (m.vmwrite w.world host_rsp_field (w.cpu.reg rdi)).0 ≡ true =
          rw (world, given) written in
        let field : reading m t.world host_rsp_field ≡ some (f rsp - 48) =
          ap (λ x. reading m x host_rsp_field) (kept.same_world _)
          ∙ laws.read_self w.world host_rsp_field (w.cpu.reg rdi) refl ok
          ∙ ap (λ (x : ℕ). some (x % 2 ^ 64)) given
          ∙ ap some (omega (arith, small)) in
        let exit_rsp : g.cpu.reg rsp ≡ f rsp - 48 = ground (arith, exit, field) in
        let at : g.cpu.reg rsp ≡ a + 8 = omega (arith, exit_rsp, room) in
        let stack = callee_saved f xs in
        let on_exit : Holds g.cpu.mem (a + 8) stack =
          Holds-same w.cpu.mem g.cpu.mem (a + 8) stack
            (λ q l k.
              same q (omega (arith, l)) (omega (arith, k, room))
              ∙ kept.same_stack _ q (omega (arith, l, top)))
            held.1 in
        let (u, left, saved, back, _, _) =
          asm_vmexit-IsSaved g (shifted f ret) (f rbx) above (omega (arith, at))
            (subst (λ q. Holds g.cpu.mem q stack) (sym at) on_exit) even
            (omega (arith, at, apart, room)) in
        let end : g.cpu.reg rsp + 56 ≡ f rsp + 8 = omega (arith, at, room) in
        (
          thunk-after_call w ok,
          exit_rsp,
          (u, left, saved, subst (λ q. IsBack (shifted f ret) q above [] u) end back),
        )
