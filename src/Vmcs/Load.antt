-- ===== src/Vmcs/Load.antt =====
-- `vmcs_alloc_and_load` (vmcs.c): the VMCS region, made current. The processor and the memory are an
-- interface, as is the page allocator; log lines are left out.
use chypervisor.Prelude.{ℕ, Bool, Option, none, some, ◌==◌, if◌then◌else◌}
use chypervisor.Prelude.{bit_and, u32}
use chypervisor.Paging.{virt2phys}
use chypervisor.Vmcs.Machine.{vmx_check_rflags}

pub record Loader : Type 1 where
  pub State : Type 0
  pub page_alloc_4k_aligned : State → ℕ × State
  pub memset_page : State → ℕ → State
  pub rdmsr : State → ℕ → ℕ
  pub store32 : State → ℕ → ℕ → State
  pub vmclear : State → ℕ → ℕ × State
  pub vmptrld : State → ℕ → ℕ × State

module _ (L : Loader) where
  -- The region with its revision, before VMCLEAR.
  abbrev pub prepare : L.State → ℕ → L.State
  prepare s va =
      let t = L.memset_page s va in L.store32 t va (u32 (bit_and (L.rdmsr t 0x480) 0x7FFFFFFF))

  -- The region's address if the result is 0, `none` for -1. The error that the failing branches read for
  -- their log line changes nothing.
  unfoldable pub vmcs_alloc_and_load : Bool → L.State → Option ℕ × L.State
  vmcs_alloc_and_load reconstructed s =
      let (va, s1) = L.page_alloc_4k_aligned s in
      let pa = virt2phys reconstructed va in
      let (rflags, s2) = L.vmclear (prepare s1 va) pa in
      let (rflags', s3) = L.vmptrld s2 pa in
      if va == 0
      then (none, s1)
      else (if vmx_check_rflags rflags
          then (if vmx_check_rflags rflags' then (some va, s3) else (none, s3))
          else (none, s2))
