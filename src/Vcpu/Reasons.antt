-- ===== src/Vcpu/Reasons.antt =====
-- The VM-exit reasons of kernel/arch/x86/vmm/vmx_log.h.
use chypervisor.Prelude.{ℕ, ◌≡◌, refl, Bool, true, false, ◌==◌}
use chypervisor.Vcpu.Exit.{exit_reason_hlt}

pub data ExitReason : Type 0 where
  exception_nmi : ExitReason
  external_interrupt : ExitReason
  triple_fault : ExitReason
  init_signal : ExitReason
  sipi : ExitReason
  io_smi : ExitReason
  other_smi : ExitReason
  intr_window : ExitReason
  nmi_window : ExitReason
  task_switch : ExitReason
  cpuid : ExitReason
  getsec : ExitReason
  hlt : ExitReason
  invd : ExitReason
  invlpg : ExitReason
  rdpmc : ExitReason
  rdtsc : ExitReason
  rsm : ExitReason
  vmcall : ExitReason
  vmclear : ExitReason
  vmlaunch : ExitReason
  vmptrld : ExitReason
  vmptrst : ExitReason
  vmread : ExitReason
  vmresume : ExitReason
  vmwrite : ExitReason
  vmxoff : ExitReason
  vmxon : ExitReason
  cr_access : ExitReason
  dr_access : ExitReason
  io_instruction : ExitReason
  rdmsr : ExitReason
  wrmsr : ExitReason
  invalid_guest_state : ExitReason
  msr_loading : ExitReason
  mwait_instruction : ExitReason
  monitor_trap_flag : ExitReason
  monitor_instruction : ExitReason
  pause_instruction : ExitReason
  mce_during_entry : ExitReason
  tpr_below_threshold : ExitReason
  apic_access : ExitReason
  virtualized_eoi : ExitReason
  gdtr_idtr_access : ExitReason
  ldtr_tr_access : ExitReason
  ept_violation : ExitReason
  ept_misconfig : ExitReason
  invept : ExitReason
  rdtscp : ExitReason
  vmx_preemption_timer : ExitReason
  invvpid : ExitReason
  wbinvd : ExitReason
  xsetbv : ExitReason
  apic_write : ExitReason
  rdrand : ExitReason
  invpcid : ExitReason
  vmfunc : ExitReason
  encls : ExitReason
  rdseed : ExitReason
  pmlog_full : ExitReason
  xsaves : ExitReason
  xrstors : ExitReason
  spp_event : ExitReason
  umwait : ExitReason
  tpause : ExitReason
  bus_lock : ExitReason
  notify : ExitReason

-- The value of the enumerator.
abbrev pub exit_code : ExitReason → ℕ
exit_code exception_nmi = 0
exit_code external_interrupt = 1
exit_code triple_fault = 2
exit_code init_signal = 3
exit_code sipi = 4
exit_code io_smi = 5
exit_code other_smi = 6
exit_code intr_window = 7
exit_code nmi_window = 8
exit_code task_switch = 9
exit_code cpuid = 10
exit_code getsec = 11
exit_code hlt = 12
exit_code invd = 13
exit_code invlpg = 14
exit_code rdpmc = 15
exit_code rdtsc = 16
exit_code rsm = 17
exit_code vmcall = 18
exit_code vmclear = 19
exit_code vmlaunch = 20
exit_code vmptrld = 21
exit_code vmptrst = 22
exit_code vmread = 23
exit_code vmresume = 24
exit_code vmwrite = 25
exit_code vmxoff = 26
exit_code vmxon = 27
exit_code cr_access = 28
exit_code dr_access = 29
exit_code io_instruction = 30
exit_code rdmsr = 31
exit_code wrmsr = 32
exit_code invalid_guest_state = 33
exit_code msr_loading = 34
exit_code mwait_instruction = 36
exit_code monitor_trap_flag = 37
exit_code monitor_instruction = 39
exit_code pause_instruction = 40
exit_code mce_during_entry = 41
exit_code tpr_below_threshold = 43
exit_code apic_access = 44
exit_code virtualized_eoi = 45
exit_code gdtr_idtr_access = 46
exit_code ldtr_tr_access = 47
exit_code ept_violation = 48
exit_code ept_misconfig = 49
exit_code invept = 50
exit_code rdtscp = 51
exit_code vmx_preemption_timer = 52
exit_code invvpid = 53
exit_code wbinvd = 54
exit_code xsetbv = 55
exit_code apic_write = 56
exit_code rdrand = 57
exit_code invpcid = 58
exit_code vmfunc = 59
exit_code encls = 60
exit_code rdseed = 61
exit_code pmlog_full = 62
exit_code xsaves = 63
exit_code xrstors = 64
exit_code spp_event = 66
exit_code umwait = 67
exit_code tpause = 68
exit_code bus_lock = 74
exit_code notify = 75

abbrev pub is_hlt : ExitReason → Bool
is_hlt hlt = true
is_hlt _ = false

-- The reason that `vmexit_dispatch` handles is that of HLT, and of no other exit.
pub exit_code-exit_reason_hlt : (r : ExitReason) → (exit_code r == exit_reason_hlt) ≡ is_hlt r
exit_code-exit_reason_hlt exception_nmi = refl
exit_code-exit_reason_hlt _ = refl
