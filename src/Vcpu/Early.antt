-- ===== src/Vcpu/Early.antt =====
-- The VM-exit entry points that vcpu.c sets up: the early handler, which logs the exit reason and halts,
-- and the setter of HOST_RIP.
use chypervisor.Prelude.{ℕ, suc, ◌%◌, ◌^◌, ◌≡◌, refl, Option, none, some, ◌>>=◌, bit_and, u64}
use chypervisor.Prelude.Bits.{bit_and_mask}
use chypervisor.Vmcs.Machine.{Machine, HasError, reading}
use chypervisor.Vmcs.Access.{vmcs_vmread, vmcs_vmwrite, reply_at, vmcs_vmread-returns}
use chypervisor.Vmcs.ExitInfo.{exit_info_field, exit_reason}
use chypervisor.Vmcs.Host.{host_field, host_rip}
use chypervisor.Vcpu.Exit.{variable_of}

module _ (m : Machine) where
  -- The reason that is logged before the endless HLT.
  unfoldable pub vmexit_c_handler : ℕ → m.State → Option ℕ
  vmexit_c_handler depth s =
      variable_of (vmcs_vmread m depth s (exit_info_field exit_reason))
      >>= (λ reason. some (bit_and reason 0xFFFF))

  -- Over the address of `asm_vmexit`; the result of the write is not looked at.
  unfoldable pub vcpu_setup_vmexit_rip : ℕ → ℕ → m.State → Option m.State
  vcpu_setup_vmexit_rip asm_vmexit depth s =
      vmcs_vmwrite m depth s (host_field host_rip) (u64 asm_vmexit) >>= (λ (ok, t). some t)

  abbrev basic_reason : Option ℕ → ℕ
  basic_reason none = 0
  basic_reason (some v) = v % 2 ^ 16

  -- With a readable error field, the early handler logs the exit's basic reason, or 0 if the field cannot be
  -- read.
  vmexit_c_handler-basic_reason :
      (depth : ℕ) (s : m.State)
      → HasError m s
      → vmexit_c_handler (suc (suc depth)) s
        ≡ some (basic_reason (reading m s (exit_info_field exit_reason)))
  unfolding vmexit_c_handler
  vmexit_c_handler-basic_reason depth s h =
      let logged : (r : Option ℕ)
          → (variable_of (some (reply_at r)) >>= (λ reason. some (bit_and reason 0xFFFF)))
            ≡ some (basic_reason r) =
        elim [ none ↦ refl | some v ↦ rw (bit_and_mask 16 v) refl ] in
      rw (vmcs_vmread-returns m depth s (exit_info_field exit_reason) h)
        (logged (reading m s (exit_info_field exit_reason)))
