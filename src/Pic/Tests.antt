-- ===== src/Pic/Tests.antt =====
-- Runs of pic.c on ports that hold the two mask registers.
use chypervisor.Prelude.{ℕ, ◌≡◌, refl, arith, if◌then◌else◌, ◌==◌}
use chypervisor.Pic.{Ports, pic_set_mask, pic_clear_mask}
use chypervisor.Pic.Mask.{Laws, mask_bit, pic_masks-mask_bit}

abbrev masks : Ports
masks = record {
  State = ℕ × ℕ;
  inb = λ s port. if port == 0x21 then s.0 else s.1;
  outb = λ s port v. if port == 0x21 then (v, s.1) else (if port == 0xA1 then (s.0, v) else s);
  io_wait = λ s. s;
}

masks-Laws : Laws masks
masks-Laws = record { read_self = λ s v h. (refl, refl); read_other = λ s v. (refl, refl) }

pic_masks-mask_bit_example :
    (mask_bit masks (pic_set_mask masks (0, 0) 12) 12 ≡ 1)
    × (mask_bit masks (pic_clear_mask masks (0, 0) 12) 12 ≡ 0)
pic_masks-mask_bit_example =
    pic_masks-mask_bit masks masks-Laws (0, 0) 12 12 (omega arith) (omega arith)
