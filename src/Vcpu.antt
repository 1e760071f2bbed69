-- ===== src/Vcpu.antt =====
-- kernel/arch/x86/vmm/vcpu.c: the VMCS of the guest, its launch, and the VM exits.
pub mod Controls
pub mod Writes
pub mod Setup
pub mod Launch
pub mod Ready
pub mod Exit
pub mod Reasons
pub mod Early
mod Tests
