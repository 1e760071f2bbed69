-- ===== src/Interrupt/Vectors.antt =====
-- The state that `intr_init_all_vectors` leaves, and which handler an interrupt reaches.
use chypervisor.Prelude.{
  ℕ, zero, suc, ◌+◌, ◌*◌, ◌/◌, ◌^◌, ◌≡◌, ◌<◌, refl, arith, ap, ◌∙◌, true, false, Bool-cases, inl,
  inr,
}
use chypervisor.Prelude.{
  Option, none, some, if◌then◌else◌, ◌==◌, ==→eq, ==→ne, leb, leb→le, leb→lt, sym, u32,
}
use mathlib.Core.Path.{subst}
use chypervisor.Prelude.Bits.{bit_and_mask}
use chypervisor.Interrupt.{
  Gate, Interrupts, Handler, default_unhandled, make_gate, idt_set_gate, idt_init, set_gates,
}
use chypervisor.Interrupt.{
  default_all, intr_init_all_vectors, intr_register_handler, intr_dispatch_entry, set_handler,
}
use chypervisor.Gdt.{sel_gdt, kernel_cs_idx}

-- The handler's address, as the processor puts it together.
abbrev pub offset_of : Gate → ℕ
offset_of g = g.offset_low + g.offset_mid * 2 ^ 16 + g.offset_high * 2 ^ 32

-- A present ring-0 interrupt gate to `isr` in the kernel's code segment.
abbrev pub Leads : ℕ → Gate → Type 0
Leads isr g =
    (offset_of g ≡ isr)
    × (g.selector ≡ 0x10)
    × (g.type ≡ 0xE)
    × (g.dpl ≡ 0)
    × (g.p ≡ 1)
    × (g.ist ≡ 0)

make_gate-Leads :
    (isr : ℕ) → isr < 2 ^ 64 → Leads isr (make_gate isr (sel_gdt kernel_cs_idx 0) 0xE 0)
make_gate-Leads isr h = (
  rw (bit_and_mask 16 isr, bit_and_mask 16 (isr / 2 ^ 16), bit_and_mask 32 (isr / 2 ^ 32))
      (omega (arith, h)),
  refl,
  refl,
  refl,
  refl,
  refl,
)

module _ {W : Type 0} where
  set_gates-g_idt :
      (stubs : ℕ → ℕ) (cs n : ℕ) (s : Interrupts W) (v : ℕ)
      → v < n
      → (set_gates stubs cs n s).g_idt v ≡ make_gate (stubs v) cs 0xE 0
  unfolding set_gates idt_set_gate
  set_gates-g_idt stubs cs zero s v h = absurd (omega (arith, h))
  set_gates-g_idt stubs cs (suc n) s v h = elim (Bool-cases (v == n)) [
    | inl e ↦ rw (e, ==→eq v n e) refl
    | inr e ↦ rw e (set_gates-g_idt stubs cs n s v (omega (arith, h, ==→ne v n e)))
  ]

  set_gates-g_handlers :
      (stubs : ℕ → ℕ) (cs n : ℕ) (s : Interrupts W)
      → (set_gates stubs cs n s).g_handlers ≡ s.g_handlers
  unfolding set_gates idt_set_gate
  set_gates-g_handlers stubs cs zero s = refl
  set_gates-g_handlers stubs cs (suc n) s = set_gates-g_handlers stubs cs n s

  default_all-g_handlers :
      (n : ℕ) (s : Interrupts W) (v : ℕ)
      → v < n
      → (default_all n s).g_handlers v ≡ some default_unhandled
  unfolding default_all
  default_all-g_handlers zero s v h = absurd (omega (arith, h))
  default_all-g_handlers (suc n) s v h = elim (Bool-cases (v == n)) [
    | inl e ↦ rw e refl
    | inr e ↦ rw e (default_all-g_handlers n s v (omega (arith, h, ==→ne v n e)))
  ]

  -- After `intr_init_all_vectors`, for stubs at 64-bit addresses, every one of the 256 gates leads to its
  -- stub, every handler is the default one, and interrupts are enabled.
  pub intr_init_all_vectors-Leads :
      (stubs : ℕ → ℕ) (idt_address : ℕ) (s : Interrupts W)
      → ((v : ℕ) → stubs v < 2 ^ 64)
      → let t = intr_init_all_vectors stubs idt_address s in
        ((v : ℕ)
          → v < 256
          → Leads (stubs v) (t.g_idt v) × (t.g_handlers v ≡ some default_unhandled))
        × (t.enabled ≡ true)
  unfolding intr_init_all_vectors idt_init
  intr_init_all_vectors-Leads stubs idt_address s h =
      let start = idt_init idt_address (default_all 256 s) in
      let cs = sel_gdt kernel_cs_idx 0 in
      (
        λ v below. (
          subst (λ g. Leads (stubs v) g) (sym (set_gates-g_idt stubs cs 256 start v below))
              (make_gate-Leads (stubs v) (h v)),
          ap (λ f. f v) (set_gates-g_handlers stubs cs 256 start)
              ∙ default_all-g_handlers 256 s v below,
        ),
        refl,
      )

  registered :
      (vec v : ℕ) (fn : Option (Handler W)) (s : Interrupts W) (w : W)
      → u32 v ≡ v
      → intr_dispatch_entry v
          (elim fn [
            | some h ↦ set_handler vec (some h) s
            | none ↦ set_handler vec (some default_unhandled) s
          ])
          w
        ≡ (if v == vec then elim fn [ some h ↦ h w | none ↦ none ] else intr_dispatch_entry v s w)
  unfolding intr_dispatch_entry
  registered vec v none s w same = elim (Bool-cases (v == vec)) [
    | inl e ↦ rw (intr_dispatch_entry, same, e) refl
    | inr e ↦ rw (intr_dispatch_entry, same, e) refl
  ]
  registered vec v (some h) s w same = elim (Bool-cases (v == vec)) [
    | inl e ↦ rw (intr_dispatch_entry, same, e) refl
    | inr e ↦ rw (intr_dispatch_entry, same, e) refl
  ]

  -- After registering a handler for a 32-bit vector number, an interrupt on one of the 256 vectors
  -- runs that handler if it has that number, or halts if a null pointer was registered; every other
  -- vector keeps its handler.
  intr_register_handler-intr_dispatch_entry :
      (vec v : ℕ) (fn : Option (Handler W)) (s : Interrupts W) (w : W)
      → vec < 2 ^ 32
      → v < 256
      → intr_dispatch_entry v (intr_register_handler vec fn s) w
        ≡ (if v == vec then elim fn [ some h ↦ h w | none ↦ none ] else intr_dispatch_entry v s w)
  unfolding intr_register_handler intr_dispatch_entry
  intr_register_handler-intr_dispatch_entry vec v fn s w hv h =
      let same : u32 v ≡ v = omega (arith, h) in
      elim (Bool-cases (leb 256 vec)) [
        | inl e ↦
            let outside : (v == vec) ≡ false = ground (arith, leb→le 256 vec e, h) in
            rw (e, outside) (ground arith)
        | inr e ↦
            let positive : leb (2 ^ 31) vec ≡ false = ground (arith, leb→lt 256 vec e) in
            rw (e, positive) (registered vec v fn s w same)
      ]
