-- ===== src/Vmcs.antt =====
-- kernel/arch/x86/vmm/vmcs.h, vmcs.c and vmx_log.c: VMCS fields and the wrappers of the VMX
-- instructions.
pub mod Encode
pub mod Machine
pub mod Access
pub mod Control
pub mod ExitInfo
pub mod Guest
pub mod Host
pub mod Comments
pub mod Errors
pub mod Load
pub mod Ideal
