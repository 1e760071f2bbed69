-- ===== src/Vmcs/Ideal.antt =====
-- A processor whose VMX instructions always succeed, for runs of the code over vmcs.c.
use chypervisor.Prelude.{ℕ, ◌%◌, ◌^◌, ◌≡◌, refl, arith, true, ◌==◌, if◌then◌else◌}
use chypervisor.Vmcs.Machine.{Machine, Laws, field_bits}

abbrev pub Fields : Type 0
Fields = ℕ → ℕ

abbrev pub put : Fields → ℕ → ℕ → Fields
put s f v g = if g == f then v % 2 ^ field_bits f else s g

abbrev pub ideal : Machine
ideal = record {
  State = Fields;
  vmread = λ s f. (0, s f);
  vmwrite = λ s f v. (0, put s f v);
  vmlaunch = λ s. (0, s);
  rdmsr = λ s a. 0xFFFFFFFF00000016;
  read_reg = λ s r. 0x8;
  load64 = λ s a. 0;
}

same_eq : (f : ℕ) → (f == f) ≡ true
same_eq f = ground arith

pub ideal-Laws : Laws ideal
ideal-Laws = record {
  read_self = λ s f v full ok. rw (same_eq f) refl;
  read_other = λ s f g v full full' ne other. rw ne refl;
  failed = λ s f v bad. absurd (ground (arith, bad));
  error_readable = λ s f v h. refl;
  same_msr = λ s f v a. refl;
  same_reg = λ s f v r. refl;
  same_memory = λ s f v a. refl;
}
