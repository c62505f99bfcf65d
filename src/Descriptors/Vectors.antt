-- ===== src/Descriptors/Vectors.antt =====
-- Every vector of the interrupt table after `init_idt`.
use crap_os.Base.{
  get_elem?-set_ne, get_elem?-set_self, ℕ, zero, suc, refl, ap, inl, inr, false, some, List, arith,
  length, length-set, get_elem?, set, ltb, Bool-cases, ==_iff, ◌+◌, ◌≤◌, ◌<◌, ◌≡◌, ◌≢◌, ◌||◌, ◌==◌,
  if◌then◌else◌, ◌∙◌, ◌⊎◌,
}
use crap_os.Base.Bits.{and_mask}
use crap_os.Descriptors.{
  IdtEntry, Stubs, exception_gate, init_idt, install, interrupt_gate, interrupt_gate_attr,
  kernel_cs, trap_gate, trap_gate_attr,
}
use crap_os.Descriptors.Fields.{interrupt_gate-offset, offset_of, trap_gate-offset}

length-install :
    (left v : ℕ) (gates : ℕ → IdtEntry) (idt : List IdtEntry)
    → length (install left v gates idt) ≡ length idt
unfolding install
length-install zero v gates idt = refl
length-install (suc left) v gates idt =
    length-install left (v + 1) gates (set idt v (gates v)) ∙ length-set idt v (gates v)

-- Vectors outside the range stay.
install-outside :
    (left v : ℕ) (gates : ℕ → IdtEntry) (idt : List IdtEntry) (w : ℕ)
    → (w < v) ⊎ (v + left ≤ w)
    → get_elem? (install left v gates idt) w ≡ get_elem? idt w
unfolding install
install-outside zero v gates idt w out = refl
install-outside (suc left) v gates idt w out =
    let ne : v ≢ w = ground (arith, out) in
    install-outside left (v + 1) gates (set idt v (gates v)) w (ground (arith, out))
    ∙ get_elem?-set_ne idt v w (gates v) ne

install-inside :
    (left v : ℕ) (gates : ℕ → IdtEntry) (idt : List IdtEntry) (w : ℕ)
    → v ≤ w
    → w < v + left
    → w < length idt
    → get_elem? (install left v gates idt) w ≡ some (gates w)
unfolding install
install-inside zero v gates idt w from to room = absurd (omega arith)
install-inside (suc left) v gates idt w from to room = elim (Bool-cases (v == w)) [
  | inl e ↦
      let same : v ≡ w = (==_iff v w).0 e in
      install-outside left (v + 1) gates (set idt v (gates v)) w (inl (omega arith))
      ∙ ap (λ u. get_elem? (set idt u (gates u)) w) same
      ∙ get_elem?-set_self idt w (gates w) room
  | inr e ↦
      install-inside left (v + 1) gates (set idt v (gates v)) w (ground arith) (omega arith)
        (omega (arith, length-set idt v (gates v)))
]

-- The stub of a vector.
abbrev pub stub_of : Stubs → ℕ → ℕ
stub_of stubs v =
    if ltb v 32
    then stubs.exception v
    else if v == 0x20
    then stubs.apic_timer
    else if v == 0x21
    then stubs.apic_keyboard
    else if v == 0xff
    then stubs.apic_spurious
    else stubs.irq_generic

-- A gate that leads to a stub, on the stack of an index, and with an attribute byte.
pub record LeadsTo (handler stack attribute : ℕ) (e : IdtEntry) : Type 0 where
  pub offset : offset_of e ≡ handler
  pub selector : e.selector ≡ kernel_cs
  pub ist : e.ist_and_rsv ≡ stack
  pub attr : e.type_attr ≡ attribute

interrupt_gate-LeadsTo :
    (handler ist : ℕ)
    → ist < 8
    → LeadsTo handler ist interrupt_gate_attr (interrupt_gate handler ist)
interrupt_gate-LeadsTo handler ist small = record {
  offset = interrupt_gate-offset handler ist;
  selector = unfold interrupt_gate in refl;
  ist = unfold interrupt_gate in rw (and_mask 3 ist) (omega arith);
  attr = unfold interrupt_gate in refl;
}

trap_gate-LeadsTo :
    (handler ist : ℕ) → ist < 8 → LeadsTo handler ist trap_gate_attr (trap_gate handler ist)
trap_gate-LeadsTo handler ist small = record {
  offset = trap_gate-offset handler ist;
  selector = unfold trap_gate in refl;
  ist = unfold trap_gate in rw (and_mask 3 ist) (omega arith);
  attr = unfold trap_gate in refl;
}

abbrev pub stack_of : ℕ → ℕ
stack_of v = if v == 8 then 1 else 0

abbrev pub attr_of : ℕ → ℕ
attr_of v = if (v == 1) || (v == 3) then trap_gate_attr else interrupt_gate_attr

exception_gate-LeadsTo :
    (stubs : Stubs) (v : ℕ)
    → LeadsTo (stubs.exception v) (stack_of v) (attr_of v) (exception_gate stubs v)
unfolding exception_gate
exception_gate-LeadsTo stubs v = elim (Bool-cases ((v == 1) || (v == 3))) [
  | inl e ↦
      let other : (v == 8) ≡ false = ground arith in
      rw (e, other) (trap_gate-LeadsTo (stubs.exception v) 0 (omega arith))
  | inr e ↦
      rw e (interrupt_gate-LeadsTo (stubs.exception v) (if v == 8 then 1 else 0) (ground arith))
]

irq_gate-LeadsTo :
    (v handler : ℕ) → 32 ≤ v → LeadsTo handler (stack_of v) (attr_of v) (interrupt_gate handler 0)
irq_gate-LeadsTo v handler h =
    let no_stack : (v == 8) ≡ false = ground arith in
    let no_trap : ((v == 1) || (v == 3)) ≡ false = ground arith in
    rw (no_stack, no_trap) (interrupt_gate-LeadsTo handler 0 (omega arith))

written :
    (xs : List IdtEntry) (i : ℕ) (e : IdtEntry) (v : ℕ)
    → i < length xs
    → get_elem? (set xs i e) v ≡ (if v == i then some e else get_elem? xs v)
written xs i e v h = elim (Bool-cases (v == i)) [
  | inl f ↦
      let same : v ≡ i = (==_iff v i).0 f in
      rw f (ap (get_elem? (set xs i e)) same ∙ get_elem?-set_self xs i e h)
  | inr f ↦ rw f (get_elem?-set_ne xs i v e (ground arith))
]

irq_cases :
    (stubs : Stubs) (v : ℕ)
    → (if v == 0xff
        then some (interrupt_gate stubs.apic_spurious 0)
        else if v == 0x21
        then some (interrupt_gate stubs.apic_keyboard 0)
        else if v == 0x20
        then some (interrupt_gate stubs.apic_timer 0)
        else some (interrupt_gate stubs.irq_generic 0))
      ≡ some (
          interrupt_gate
            (if v == 0x20
              then stubs.apic_timer
              else if v == 0x21
              then stubs.apic_keyboard
              else if v == 0xff
              then stubs.apic_spurious
              else stubs.irq_generic)
            0)
irq_cases stubs v = elim (Bool-cases (v == 0x20)) [
  | inl a ↦
      let b : (v == 0x21) ≡ false = ground arith in
      let c : (v == 0xff) ≡ false = ground arith in rw (a, b, c) refl
  | inr a ↦ elim (Bool-cases (v == 0x21)) [
    | inl b ↦ let c : (v == 0xff) ≡ false = ground arith in rw (a, b, c) refl
    | inr b ↦ elim (Bool-cases (v == 0xff)) [
      | inl c ↦ rw (a, b, c) refl
      | inr c ↦ rw (a, b, c) refl
    ]
  ]
]

-- Three gates are written behind the others.
last_three :
    (all : List IdtEntry) (t k s : IdtEntry) (v : ℕ)
    → length all ≡ 256
    → get_elem? (set (set (set all 0x20 t) 0x21 k) 0xff s) v ≡ (
        if v == 0xff
        then some s
        else if v == 0x21
        then some k
        else if v == 0x20
        then some t
        else get_elem? all v)
last_three all t k s v size =
    let n2 : length (set all 0x20 t) ≡ 256 = length-set all 0x20 t ∙ size in
    let n3 : length (set (set all 0x20 t) 0x21 k) ≡ 256 = length-set (set all 0x20 t) 0x21 k ∙ n2 in
    written (set (set all 0x20 t) 0x21 k) 0xff s v (omega (arith, n3))
    ∙ ap (λ r. if v == 0xff then some s else r)
        (written (set all 0x20 t) 0x21 k v (omega (arith, n2))
          ∙ ap (λ r. if v == 0x21 then some k else r) (written all 0x20 t v (omega (arith, size))))

-- All 256 vectors.
every_vector :
    (stubs : Stubs) (idt : List IdtEntry) (v : ℕ)
    → length idt ≡ 256
    → v < 256
    → get_elem? (init_idt stubs idt) v
      ≡ some (if ltb v 32 then exception_gate stubs v else interrupt_gate (stub_of stubs v) 0)
unfolding init_idt
every_vector stubs idt v size h =
    let ex = install 32 0 (exception_gate stubs) idt in
    let generic : ℕ → IdtEntry = λ v. interrupt_gate stubs.irq_generic 0 in
    let n0 : length ex ≡ 256 = length-install 32 0 (exception_gate stubs) idt ∙ size in
    let n1 : length (install 224 32 generic ex) ≡ 256 = length-install 224 32 generic ex ∙ n0 in
    let three =
      last_three (install 224 32 generic ex) (interrupt_gate stubs.apic_timer 0)
        (interrupt_gate stubs.apic_keyboard 0) (interrupt_gate stubs.apic_spurious 0) v n1 in
    three ∙ (elim (Bool-cases (ltb v 32)) [
      | inl e ↦
          let one = install-outside 224 32 generic ex v (inl (ground arith)) in
          let two =
            install-inside 32 0 (exception_gate stubs) idt v (omega arith) (ground arith)
              (omega (arith, size)) in
          let a : (v == 0xff) ≡ false = ground arith in
          let b : (v == 0x21) ≡ false = ground arith in
          let c : (v == 0x20) ≡ false = ground arith in rw (e, a, b, c) (one ∙ two)
      | inr e ↦
          let one =
            install-inside 224 32 generic ex v (ground arith) (omega arith) (omega (arith, n0)) in
          rw (e, one) (irq_cases stubs v)
    ])

-- After `init_idt`, each of the 256 vectors has a gate of the kernel's code segment that leads to the
-- stub of the vector. The double fault, and nothing else, has the stack 1, and only the debug exception and the breakpoint
-- have trap gates, which leave interrupts enabled.
pub init_idt-LeadsTo :
    (stubs : Stubs) (idt : List IdtEntry) (v : ℕ)
    → length idt ≡ 256
    → v < 256
    → (e : IdtEntry) × (get_elem? (init_idt stubs idt) v ≡ some e)
      × LeadsTo (stub_of stubs v) (stack_of v) (attr_of v) e
init_idt-LeadsTo stubs idt v size h =
    let found = every_vector stubs idt v size h in
    elim (Bool-cases (ltb v 32)) [
      | inl e ↦
          let name : stub_of stubs v ≡ stubs.exception v = rw e refl in
          let entry : get_elem? (init_idt stubs idt) v ≡ some (exception_gate stubs v) =
            found ∙ (rw e refl) in
          (exception_gate stubs v, entry, rw name (exception_gate-LeadsTo stubs v))
      | inr e ↦
          let entry : get_elem? (init_idt stubs idt) v ≡ some (interrupt_gate (stub_of stubs v) 0) =
            found ∙ (rw e refl) in
          (
            interrupt_gate (stub_of stubs v) 0,
            entry,
            irq_gate-LeadsTo v (stub_of stubs v) (ground arith),
          )
    ]
