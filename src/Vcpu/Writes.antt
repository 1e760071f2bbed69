-- ===== src/Vcpu/Writes.antt =====
-- Sequences of VMCS writes as the setup functions of vcpu.c make them, one statement after another:
-- `if (vmcs_vmwrite(f, v) != 0) return -1;` is `checked f v`, and `(void)vmcs_vmwrite(f, v);` is
-- `ignored f v`. The value is an expression over the state in which the statement runs.
use chypervisor.Prelude.{ℕ, suc, ◌%◌, ◌^◌, ◌≡◌, ◌≢◌, refl, ap, ◌∙◌, arith, Bool, true, false, u64}
use chypervisor.Prelude.{
  Option, none, some, List, [], ◌∷◌, if◌then◌else◌, ◌==◌, ◌&&◌, ◌++◌, Bool-cases, inl, inr,
}
use chypervisor.Prelude.{==→eq}
use chypervisor.Vmcs.Machine.{
  Machine, Laws, vmx_check_rflags, field_bits, reading, HasError, error_field, is_full,
}
use chypervisor.Vmcs.Access.{vmcs_vmwrite, vmcs_instruction_error, vmcs_vmread}

pub data Statement (State : Type 0) : Type 0 where
  checked : ℕ → (State → ℕ) → Statement State
  ignored : ℕ → (State → ℕ) → Statement State

module _ (m : Machine) where
  -- After a statement: the state and whether to go on.
  abbrev pub step : ℕ → m.State → Statement m.State → Option (Bool × m.State)
  step depth s (checked f v) = vmcs_vmwrite m depth s f (u64 (v s))
  step depth s (ignored f v) = elim (vmcs_vmwrite m depth s f (u64 (v s))) [
    | none ↦ none
    | some (ok, t) ↦ some (true, t)
  ]

  -- `true` if the function gets to its `return 0`, `false` for -1.
  unfoldable pub run_writes : ℕ → m.State → List (Statement m.State) → Option (Bool × m.State)
  run_writes depth s [] = some (true, s)
  run_writes depth s (w ∷ rest) = elim (step depth s w) [
    | none ↦ none
    | some (true, t) ↦ run_writes depth t rest
    | some (false, t) ↦ some (false, t)
  ]

  -- The value does not depend on VMCS fields, so that earlier writes do not change it.
  abbrev pub Stable : (m.State → ℕ) → Type 0
  Stable v = (s : m.State) (f x : ℕ) → v (m.vmwrite s f x).1 ≡ v s

  abbrev pub value_of : Statement m.State → (m.State → ℕ)
  value_of (checked f v) = v
  value_of (ignored f v) = v

  abbrev pub AllStable : List (Statement m.State) → Type 0
  AllStable [] = Unit
  AllStable (w ∷ rest) = Stable (value_of w) × AllStable rest

-- Every field is written by its full encoding.
abbrev pub field_of : {State : Type 0} → Statement State → ℕ
field_of (checked f v) = f
field_of (ignored f v) = f

abbrev pub all_full : {State : Type 0} → List (Statement State) → Bool
all_full [] = true
all_full (w ∷ rest) = is_full (field_of w) && all_full rest

and_true : (a b : Bool) → (a && b) ≡ true → (a ≡ true) × (b ≡ true)
and_true true b h = (refl, h)
and_true false b h = absurd (ground (arith, h))

-- What a list of statements that ran to its end says of a field: not written, holding the value of the
-- last write to it, or unknown because that write's failure is ignored.
pub data Fate (State : Type 0) : Type 0 where
  untouched : Fate State
  holds : (State → ℕ) → Fate State
  unknown : Fate State

abbrev pub fate_after : {State : Type 0} → ℕ → Statement State → Fate State → Fate State
fate_after g w (holds v) = holds v
fate_after g w unknown = unknown
fate_after g (checked f v) untouched = if g == f then holds v else untouched
fate_after g (ignored f v) untouched = if g == f then unknown else untouched

abbrev pub fate : {State : Type 0} → ℕ → List (Statement State) → Fate State
fate g [] = untouched
fate g (w ∷ rest) = fate_after g w (fate g rest)

module _ (m : Machine) where
  -- The field `g` of the VMCS in `t`, as its fate says, the values being those in the state `s`.
  abbrev pub Fated : m.State → m.State → ℕ → Fate m.State → Type 0
  Fated s t g untouched = reading m t g ≡ reading m s g
  Fated s t g (holds v) = reading m t g ≡ some (u64 (v s) % 2 ^ field_bits g)
  Fated s t g unknown = Unit

  -- A write through the wrapper returns, says whether VMWRITE succeeded, and leaves VMWRITE's state.
  pub vmcs_vmwrite-returns :
      (laws : Laws m) (depth : ℕ) (s : m.State) (f v : ℕ)
      → HasError m s
      → vmcs_vmwrite m (suc (suc depth)) s f v
        ≡ some (vmx_check_rflags (m.vmwrite s f v).0, (m.vmwrite s f v).1)
  unfolding vmcs_vmwrite vmcs_instruction_error vmcs_vmread
  vmcs_vmwrite-returns laws depth s f v h =
      let t = (m.vmwrite s f v).1 in
      let later : HasError m t = laws.error_readable s f v h in
      elim (Bool-cases (vmx_check_rflags (m.vmwrite s f v).0)) [
        | inl e ↦ rw e refl
        | inr e ↦ rw (e, later) refl
      ]

  abbrev FateStable : Fate m.State → Type 0
  FateStable untouched = Unit
  FateStable (holds v) = Stable m v
  FateStable unknown = Unit

  after-FateStable :
      (g : ℕ) (w : Statement m.State) (r : Fate m.State)
      → Stable m (value_of m w)
      → FateStable r
      → FateStable (fate_after g w r)
  after-FateStable g (checked f v) untouched h k = elim (Bool-cases (g == f)) [
    | inl e ↦ rw e h
    | inr e ↦ rw e tt
  ]
  after-FateStable g (ignored f v) untouched h k = elim (Bool-cases (g == f)) [
    | inl e ↦ rw e tt
    | inr e ↦ rw e tt
  ]
  after-FateStable g w (holds v) h k = k
  after-FateStable g w unknown h k = tt

  fate-FateStable :
      (g : ℕ) (ws : List (Statement m.State)) → AllStable m ws → FateStable (fate g ws)
  fate-FateStable g [] h = tt
  fate-FateStable g (w ∷ rest) (h, k) =
      after-FateStable g w (fate g rest) h (fate-FateStable g rest k)

  -- The fate of a field over a first write, which succeeded, and the rest.
  checked-Fated :
      (laws : Laws m) (s t : m.State) (f : ℕ) (v : m.State → ℕ) (g : ℕ) (r : Fate m.State)
      → let first = m.vmwrite s f (u64 (v s)) in
        vmx_check_rflags first.0 ≡ true
        → is_full f ≡ true
        → is_full g ≡ true
        → g ≢ error_field
        → FateStable r
        → Fated first.1 t g r
        → Fated s t g (fate_after g (checked f v) r)
  checked-Fated laws s t f v g untouched ok full even ne stable h = elim (Bool-cases (g == f)) [
    | inl e ↦ rw e (h ∙ rw (==→eq g f e) (laws.read_self s f (u64 (v s)) full ok))
    | inr e ↦ rw e (h ∙ laws.read_other s f g (u64 (v s)) full even e ne)
  ]
  checked-Fated laws s t f v g (holds w) ok full even ne stable h =
      h ∙ rw (stable s f (u64 (v s))) refl
  checked-Fated laws s t f v g unknown ok full even ne stable h = tt

  ignored-Fated :
      (laws : Laws m) (s t : m.State) (f : ℕ) (v : m.State → ℕ) (g : ℕ) (r : Fate m.State)
      → let first = m.vmwrite s f (u64 (v s)) in
        is_full f ≡ true
        → is_full g ≡ true
        → g ≢ error_field
        → FateStable r
        → Fated first.1 t g r
        → Fated s t g (fate_after g (ignored f v) r)
  ignored-Fated laws s t f v g untouched full even ne stable h = elim (Bool-cases (g == f)) [
    | inl e ↦ rw e tt
    | inr e ↦ rw e (h ∙ laws.read_other s f g (u64 (v s)) full even e ne)
  ]
  ignored-Fated laws s t f v g (holds w) full even ne stable h =
      h ∙ rw (stable s f (u64 (v s))) refl
  ignored-Fated laws s t f v g unknown full even ne stable h = tt

  run_writes-on :
      (depth : ℕ) (s t : m.State) (w : Statement m.State) (rest : List (Statement m.State))
      → step m depth s w ≡ some (true, t)
      → run_writes m depth s (w ∷ rest) ≡ run_writes m depth t rest
  unfolding run_writes
  run_writes-on depth s t w rest e = rw (e, run_writes) refl

  run_writes-stop :
      (depth : ℕ) (s t : m.State) (w : Statement m.State) (rest : List (Statement m.State))
      → step m depth s w ≡ some (false, t)
      → run_writes m depth s (w ∷ rest) ≡ some (false, t)
  unfolding run_writes
  run_writes-stop depth s t w rest e = rw (e, run_writes) refl

  -- The statements before a checked one ran to their end, its VMWRITE failed, and `t` is the state behind it.
  pub record StopsAt (depth : ℕ) (s : m.State) (ws : List (Statement m.State)) (t : m.State)
      : Type 0 where
    pub before : List (Statement m.State)
    pub after : List (Statement m.State)
    pub field : ℕ
    pub value : m.State → ℕ
    pub reached : m.State
    pub split : ws ≡ before ++ (checked field value ∷ after)
    pub ran : run_writes m depth s before ≡ some (true, reached)
    pub failed : vmx_check_rflags (m.vmwrite reached field (u64 (value reached))).0 ≡ false
    pub left : t ≡ (m.vmwrite reached field (u64 (value reached))).1

  StopsAt-cons :
      (depth : ℕ) (s s' t : m.State) (w : Statement m.State) (rest : List (Statement m.State))
      → step m depth s w ≡ some (true, s')
      → StopsAt depth s' rest t
      → StopsAt depth s (w ∷ rest) t
  StopsAt-cons depth s s' t w rest e h = record {
    before = w ∷ h.before;
    after = h.after;
    field = h.field;
    value = h.value;
    reached = h.reached;
    split = ap (λ ws. w ∷ ws) h.split;
    ran = run_writes-on depth s s' w h.before e ∙ h.ran;
    failed = h.failed;
    left = h.left;
  }

  -- What a run of the statements returns: after `true`, every field is as its fate says; after `false`, a
  -- checked write has failed.
  abbrev pub Outcome : ℕ → m.State → List (Statement m.State) → Bool → m.State → Type 0
  Outcome depth s ws ok t =
      HasError m t
      × (ok ≡ true → (g : ℕ) → is_full g ≡ true → g ≢ error_field → Fated s t g (fate g ws))
      × (ok ≡ false → StopsAt depth s ws t)

  -- The statements return, and their outcome is that of their fates.
  pub run_writes-Outcome :
      (laws : Laws m) (depth : ℕ) (s : m.State) (ws : List (Statement m.State))
      → HasError m s
      → AllStable m ws
      → all_full ws ≡ true
      → (ok : Bool) × (t : m.State) × (run_writes m (suc (suc depth)) s ws ≡ some (ok, t))
        × Outcome (suc (suc depth)) s ws ok t
  unfolding run_writes
  run_writes-Outcome laws depth s [] h stable full =
      (true, s, refl, (h, (λ e g even ne. refl), λ e. absurd (ground (arith, e))))
  run_writes-Outcome laws depth s (checked f v ∷ rest) h (here, later) full =
      let x = u64 (v s) in
      let first = m.vmwrite s f x in
      let returns = vmcs_vmwrite-returns laws depth s f x h in
      let readable : HasError m first.1 = laws.error_readable s f x h in
      let (full_f, full_rest) = and_true (is_full f) (all_full rest) full in
      elim (Bool-cases (vmx_check_rflags first.0)) [
        | inl e ↦
            let (ok, t, run, (err, fates, stops)) =
              run_writes-Outcome laws depth first.1 rest readable later full_rest in
            let goes_on : step m (suc (suc depth)) s (checked f v) ≡ some (true, first.1) =
              returns ∙ rw e refl in
            (
              ok,
              t,
              run_writes-on (suc (suc depth)) s first.1 (checked f v) rest goes_on ∙ run,
              (
                err,
                (λ p g even ne.
                    checked-Fated laws s t f v g (fate g rest) e full_f even ne
                      (fate-FateStable g rest later) (fates p g even ne)),
                λ p.
                    StopsAt-cons (suc (suc depth)) s first.1 t (checked f v) rest goes_on (stops p),
              ),
            )
        | inr e ↦ (
          false,
          first.1,
          run_writes-stop (suc (suc depth)) s first.1 (checked f v) rest (returns ∙ rw e refl),
          (
            readable,
            (λ p. absurd (ground (arith, p))),
            λ p. record {
              before = [];
              after = rest;
              field = f;
              value = v;
              reached = s;
              split = refl;
              ran = refl;
              failed = e;
              left = refl;
            },
          ),
        )
      ]
  run_writes-Outcome laws depth s (ignored f v ∷ rest) h (here, later) full =
      let x = u64 (v s) in
      let first = m.vmwrite s f x in
      let returns = vmcs_vmwrite-returns laws depth s f x h in
      let readable : HasError m first.1 = laws.error_readable s f x h in
      let (full_f, full_rest) = and_true (is_full f) (all_full rest) full in
      let (ok, t, run, (err, fates, stops)) =
        run_writes-Outcome laws depth first.1 rest readable later full_rest in
      let goes_on : step m (suc (suc depth)) s (ignored f v) ≡ some (true, first.1) =
        rw (returns, step) refl in
      (
        ok,
        t,
        run_writes-on (suc (suc depth)) s first.1 (ignored f v) rest goes_on ∙ run,
        (
          err,
          (λ p g even ne.
              ignored-Fated laws s t f v g (fate g rest) full_f even ne
                (fate-FateStable g rest later) (fates p g even ne)),
          λ p. StopsAt-cons (suc (suc depth)) s first.1 t (ignored f v) rest goes_on (stops p),
        ),
      )
