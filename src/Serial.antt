-- ===== src/Serial.antt =====
-- kernel/serial.c: the port accesses of the driver, as a list in order.
use chypervisor.Prelude.{ℕ, ◌+◌, ◌/◌, ◌%◌, ◌^◌, Bool, true, Option, none, some}
use chypervisor.Prelude.{List, [], ◌∷◌, ◌==◌, if◌then◌else◌, bit_and, bit_or, ◌>>>◌}

pub data PortOp : Type 0 where
  inb : ℕ → PortOp
  outb : ℕ → ℕ → PortOp

abbrev pub reg_thr_rbr_dll : ℕ
reg_thr_rbr_dll = 0

abbrev pub reg_ier_dlm : ℕ
reg_ier_dlm = 1

abbrev pub reg_iir_fcr : ℕ
reg_iir_fcr = 2

abbrev pub reg_lcr : ℕ
reg_lcr = 3

abbrev pub reg_mcr : ℕ
reg_mcr = 4

abbrev pub reg_lsr : ℕ
reg_lsr = 5

abbrev pub lsr_thre : ℕ
lsr_thre = 2 ^ 5

abbrev pub uart_clock : ℕ
uart_clock = 115200

-- `write_byte` is whether the function pointer is bound.
pub record SerialDevice : Type 0 where
  pub base : ℕ
  pub baud : ℕ
  pub write_byte : Bool

-- The values that the line status register gives in turn; `none` while the wait has not ended.
unfoldable pub serial_write_byte_impl : SerialDevice → ℕ → List ℕ → Option (List PortOp)
serial_write_byte_impl dev byte [] = none
serial_write_byte_impl dev byte (status ∷ later) =
    let poll = inb (dev.base + reg_lsr) in
    let rest = serial_write_byte_impl dev byte later in
    if bit_and status lsr_thre == 0
    then (elim rest [ none ↦ none | some ops ↦ some (poll ∷ ops) ])
    else some (poll ∷ outb (dev.base + reg_thr_rbr_dll) byte ∷ [])

-- `lcr` is what the line control register gives back; a port and a rate that is not null.
unfoldable pub serial_init : ℕ → ℕ → ℕ → SerialDevice × List PortOp
serial_init port baud lcr =
    let rate = if baud == 0 then uart_clock else baud in
    let base = port % 2 ^ 16 in
    let divisor = uart_clock / rate in
    (
      record { base = base; baud = rate; write_byte = true },
      outb (base + reg_lcr) 0x03
          ∷ outb (base + reg_ier_dlm) 0x00
          ∷ outb (base + reg_iir_fcr) 0x00
          ∷ inb (base + reg_lcr)
          ∷ outb (base + reg_lcr) (bit_or lcr 0x80)
          ∷ outb (base + reg_thr_rbr_dll) (bit_and divisor 0xFF)
          ∷ outb (base + reg_ier_dlm) (bit_and (divisor >>> 8) 0xFF)
          ∷ outb (base + reg_lcr) (bit_and lcr 0x7F)
          ∷ outb (base + reg_mcr) 0x03
          ∷ [],
    )
