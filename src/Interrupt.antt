-- ===== src/Interrupt.antt =====
-- kernel/arch/x86/idt.c and interrupt.c: the interrupt descriptor table and the dispatch to handlers. A
-- handler is an action on an arbitrary state; `none` is a handler that does not return. Null entries of
-- the handler array are `none` of the option type.
use chypervisor.Prelude.{
  ℕ, zero, suc, ◌+◌, ◌-◌, ◌*◌, ◌^◌, Bool, true, false, Option, none, some, leb, if◌then◌else◌, ◌==◌,
}
use chypervisor.Prelude.{bit_and, u8, u16, u32, ◌>>>◌, ◌||◌}
use chypervisor.Gdt.{sel_gdt, kernel_cs_idx}
pub mod Vectors
pub mod Stubs
pub mod Saved
pub mod Return
pub mod Resume
mod Tests

-- `idt_gate_t`, one field for each of its bit-fields.
pub record Gate : Type 0 where
  pub offset_low : ℕ
  pub selector : ℕ
  pub ist : ℕ
  pub rsv1 : ℕ
  pub type : ℕ
  pub zero_bit : ℕ
  pub dpl : ℕ
  pub p : ℕ
  pub offset_mid : ℕ
  pub offset_high : ℕ
  pub rsv2 : ℕ

abbrev pub idt_max_gates : ℕ
idt_max_gates = 256

abbrev pub gate_bytes : ℕ
gate_bytes = 16

abbrev pub clear_gate : Gate
clear_gate = record {
  offset_low = 0;
  selector = 0;
  ist = 0;
  rsv1 = 0;
  type = 0;
  zero_bit = 0;
  dpl = 0;
  p = 0;
  offset_mid = 0;
  offset_high = 0;
  rsv2 = 0;
}

abbrev pub make_gate : ℕ → ℕ → ℕ → ℕ → Gate
make_gate off cs_selector gate_type dpl = record {
  offset_low = u16 (bit_and off 0xFFFF);
  selector = u16 cs_selector;
  ist = 0;
  rsv1 = 0;
  type = bit_and gate_type 0xF;
  zero_bit = 0;
  dpl = bit_and dpl 0x3;
  p = 1;
  offset_mid = u16 (bit_and (off >>> 16) 0xFFFF);
  offset_high = u32 (bit_and (off >>> 32) 0xFFFFFFFF);
  rsv2 = 0;
}

-- `h(ctx)`: the state after the handler has returned.
abbrev pub Handler : (W : Type 0) → Type 0
Handler W = W → Option W

-- `default_unhandled` logs the context and halts for ever.
abbrev pub default_unhandled : {W : Type 0} → Handler W
default_unhandled w = none

pub record Interrupts (W : Type 0) : Type 0 where
  pub g_handlers : ℕ → Option (Handler W)
  pub g_idt : ℕ → Gate
  pub idtr_limit : ℕ
  pub idtr_base : ℕ
  pub enabled : Bool

module _ {W : Type 0} where
  abbrev pub set_handler : ℕ → Option (Handler W) → Interrupts W → Interrupts W
  set_handler i h s = record s { g_handlers = λ j. if j == i then h else s.g_handlers j }

  unfoldable pub idt_set_gate : ℕ → ℕ → ℕ → ℕ → ℕ → Interrupts W → Interrupts W
  idt_set_gate vec isr cs_selector gate_type dpl s =
      let g = make_gate isr cs_selector gate_type dpl in
      record s { g_idt = λ j. if j == vec then g else s.g_idt j }

  unfoldable pub idt_init : ℕ → Interrupts W → Interrupts W
  idt_init idt_address s = record s {
    g_idt = λ j. clear_gate;
    idtr_limit = u16 (idt_max_gates * gate_bytes - 1);
    idtr_base = idt_address;
  }

  -- The `int` argument is its 32-bit two's complement, so that the negative ones are from 2 ^ 31 on.
  unfoldable pub intr_register_handler : ℕ → Option (Handler W) → Interrupts W → Interrupts W
  intr_register_handler vec fn s = if leb (2 ^ 31) vec || leb 256 vec then s else elim fn [
    | some h ↦ set_handler vec (some h) s
    | none ↦ set_handler vec (some default_unhandled) s
  ]

  -- `none` also for a call through a null entry.
  unfoldable pub intr_dispatch_entry : ℕ → Interrupts W → W → Option W
  intr_dispatch_entry vector s w = elim (s.g_handlers (u32 vector)) [ some h ↦ h w | none ↦ none ]

  -- The two loops of `intr_init_all_vectors`, over the first `n` vectors.
  unfoldable pub default_all : ℕ → Interrupts W → Interrupts W
  default_all zero s = s
  default_all (suc n) s = set_handler n (some default_unhandled) (default_all n s)

  unfoldable pub set_gates : (ℕ → ℕ) → ℕ → ℕ → Interrupts W → Interrupts W
  set_gates isr_stub_table cs zero s = s
  set_gates isr_stub_table cs (suc n) s =
      idt_set_gate n (isr_stub_table n) cs 0xE 0 (set_gates isr_stub_table cs n s)

  -- Over the addresses of the stubs and of the table.
  unfoldable pub intr_init_all_vectors : (ℕ → ℕ) → ℕ → Interrupts W → Interrupts W
  intr_init_all_vectors isr_stub_table idt_address s =
      let s1 = idt_init idt_address (default_all 256 s) in
      let s2 = set_gates isr_stub_table (sel_gdt kernel_cs_idx 0) 256 s1 in
      record s2 { enabled = true }
