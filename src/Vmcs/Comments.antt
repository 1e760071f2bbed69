-- ===== src/Vmcs/Comments.antt =====
-- The encodings of vmcs.h next to the values that its comments give.
use chypervisor.Prelude.{◌≡◌}
use chypervisor.Vmcs.Control.{
  ControlField, control_field, control_comment, control_field-eq-control_comment,
}
use chypervisor.Vmcs.ExitInfo.{
  ExitInfoField, exit_info_field, exit_info_comment, exit_info_field-eq-exit_info_comment,
}
use chypervisor.Vmcs.Guest.{GuestField, guest_field, guest_comment, guest_field-eq-guest_comment}
use chypervisor.Vmcs.Host.{HostField, host_field, host_comment, host_field-eq-host_comment}

-- Every control, exit information, guest-state and host-state field has the encoding that the header's
-- comment gives for it.
vmcs_fields_comments :
    (c : ControlField) (e : ExitInfoField) (g : GuestField) (h : HostField)
    → (control_field c ≡ control_comment c)
      × (exit_info_field e ≡ exit_info_comment e)
      × (guest_field g ≡ guest_comment g)
      × (host_field h ≡ host_comment h)
vmcs_fields_comments c e g h = (
  control_field-eq-control_comment c,
  exit_info_field-eq-exit_info_comment e,
  guest_field-eq-guest_comment g,
  host_field-eq-host_comment h,
)
