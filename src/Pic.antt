-- ===== src/Pic.antt =====
-- kernel/arch/x86/pic.c and pic.h: the two 8259A interrupt controllers. The port instructions are an
-- interface; a read of a data port does not change the state.
use chypervisor.Prelude.{
  ℕ, ◌+◌, ◌-◌, ◌*◌, ◌^◌, ◌≡◌, ◌≢◌, Bool, true, false, ltb, if◌then◌else◌, bit_and, bit_or, u8, u32,
}
pub mod Mask
mod Tests

pub record Ports : Type 1 where
  pub State : Type 0
  pub inb : State → ℕ → ℕ
  pub outb : State → ℕ → ℕ → State
  pub io_wait : State → State

abbrev pub pic1_cmd : ℕ
pic1_cmd = 0x20

abbrev pub pic1_data : ℕ
pic1_data = 0x21

abbrev pub pic2_cmd : ℕ
pic2_cmd = 0xA0

abbrev pub pic2_data : ℕ
pic2_data = 0xA1

abbrev pub pic_primary_offset : ℕ
pic_primary_offset = 0x20

abbrev pub pic_secondary_offset : ℕ
pic_secondary_offset = pic_primary_offset + 8

abbrev pub ocw2_eoi : ℕ
ocw2_eoi = 0x20

abbrev pub ocw3_read_irr : ℕ
ocw3_read_irr = 0x0A

abbrev pub ocw3_read_isr : ℕ
ocw3_read_isr = 0x0B

abbrev pub pic_irq_is_primary : ℕ → Bool
pic_irq_is_primary irq = ltb irq 8

abbrev pub pic_irq_delta : ℕ → ℕ
pic_irq_delta irq = u8 (if pic_irq_is_primary irq then irq else irq - 8)

module _ (P : Ports) where
  abbrev pub out_wait : P.State → ℕ → ℕ → P.State
  out_wait s port v = P.io_wait (P.outb s port v)

  -- The two reads at the start of the source are discarded.
  unfoldable pub pic_init : P.State → P.State
  pic_init s0 =
      let s1 = out_wait s0 pic1_cmd (bit_or 0x10 0x01) in
      let s2 = out_wait s1 pic2_cmd (bit_or 0x10 0x01) in
      let s3 = out_wait s2 pic1_data pic_primary_offset in
      let s4 = out_wait s3 pic2_data pic_secondary_offset in
      let s5 = out_wait s4 pic1_data 0x04 in
      let s6 = out_wait s5 pic2_data 0x02 in
      let s7 = out_wait s6 pic1_data 0x01 in
      let s8 = out_wait s7 pic2_data 0x01 in P.outb (P.outb s8 pic1_data 0xFF) pic2_data 0xFF

  unfoldable pub pic_set_mask : P.State → ℕ → P.State
  pic_set_mask s irq =
      if pic_irq_is_primary irq
      then P.outb s pic1_data (u8 (bit_or (P.inb s pic1_data) (2 ^ pic_irq_delta irq)))
      else P.outb s pic2_data (u8 (bit_or (P.inb s pic2_data) (2 ^ pic_irq_delta irq)))

  unfoldable pub pic_clear_mask : P.State → ℕ → P.State
  pic_clear_mask s irq =
      let keep = 2 ^ 32 - 1 - 2 ^ pic_irq_delta irq in
      if pic_irq_is_primary irq
      then P.outb s pic1_data (u8 (bit_and (P.inb s pic1_data) keep))
      else P.outb s pic2_data (u8 (bit_and (P.inb s pic2_data) keep))

  unfoldable pub pic_notify_eoi : P.State → ℕ → P.State
  pic_notify_eoi s irq =
      if pic_irq_is_primary irq
      then P.outb s pic1_cmd (bit_or ocw2_eoi (pic_irq_delta irq))
      else P.outb (P.outb s pic2_cmd (bit_or ocw2_eoi (pic_irq_delta irq))) pic1_cmd
          (bit_or ocw2_eoi 2)

  -- The register that is read, and the state behind the command.
  abbrev pub pic_read_reg : P.State → ℕ → ℕ → ℕ × P.State
  pic_read_reg s cmd_port ocw3 = let s' = P.outb s cmd_port ocw3 in (P.inb s' cmd_port, s')

  unfoldable pub pic_read_irr_primary : P.State → ℕ × P.State
  pic_read_irr_primary s = pic_read_reg s pic1_cmd ocw3_read_irr

  unfoldable pub pic_read_isr_primary : P.State → ℕ × P.State
  pic_read_isr_primary s = pic_read_reg s pic1_cmd ocw3_read_isr

  unfoldable pub pic_read_irr_secondary : P.State → ℕ × P.State
  pic_read_irr_secondary s = pic_read_reg s pic2_cmd ocw3_read_irr

  unfoldable pub pic_read_isr_secondary : P.State → ℕ × P.State
  pic_read_isr_secondary s = pic_read_reg s pic2_cmd ocw3_read_isr
