-- ===== src/Descriptors.antt =====
-- The descriptor tables: processor_control/gdt.rs and processor_control/idt.rs of crap_os/src. The
-- addresses of statics and of assembly stubs are arguments.
pub mod Fields
pub mod Vectors
use crap_os.Base.{
  ℕ, zero, suc, bit_and, bit_or, List, [], set, replicate, ◌/◌, ◌+◌, ◌-◌, ◌*◌, ◌%◌, ◌^◌, ◌∷◌, ◌||◌,
  ◌==◌, if◌then◌else◌,
}

-- `GdtEntry`
abbrev kernel_code64 : ℕ
kernel_code64 = 0x00AF9A000000FFFF

abbrev kernel_data64 : ℕ
kernel_data64 = 0x00CF92000000FFFF

abbrev user_code64 : ℕ
user_code64 = 0x00AFFA000000FFFF

abbrev user_data64 : ℕ
user_data64 = 0x00CFF2000000FFFF

unfoldable pub tss_low : ℕ → ℕ → ℕ
tss_low base limit =
    let limit_low = bit_and limit 0xffff in
    let limit_high = bit_and (limit / 2 ^ 16) 0xf in
    let base_low = bit_and base 0xffffff in
    let base_mid = bit_and (base / 2 ^ 24) 0xff in
    bit_or
      (bit_or (bit_or (bit_or (bit_or limit_low (base_low * 2 ^ 16)) (9 * 2 ^ 40)) (1 * 2 ^ 47))
        (limit_high * 2 ^ 48))
      (base_mid * 2 ^ 56)

abbrev pub tss_high : ℕ → ℕ
tss_high base = base / 2 ^ 32

abbrev gdt_template : List ℕ
gdt_template = 0 ∷ kernel_code64 ∷ kernel_data64 ∷ 0 ∷ 0 ∷ user_data64 ∷ user_code64 ∷ []

abbrev pub kernel_cs : ℕ
kernel_cs = 0x08

abbrev tss_size : ℕ
tss_size = 104

abbrev double_fault_ist_size : ℕ
double_fault_ist_size = 4096 * 4

pub record Tss : Type 0 where
  pub rsp : List ℕ
  pub ist : List ℕ
  pub iopb_offset : ℕ

abbrev new_tss : Tss
new_tss = record { rsp = replicate 3 0; ist = replicate 7 0; iopb_offset = tss_size }

pub record TableDescriptor : Type 0 where
  pub limit : ℕ
  pub base : ℕ

-- What `init_gdt_for` writes for a CPU, and what it loads.
pub record CpuTables : Type 0 where
  pub tss : Tss
  pub gdt : List ℕ
  pub gdtr : TableDescriptor

unfoldable pub init_gdt_for : ℕ → ℕ → ℕ → CpuTables
unfolding tss_low
init_gdt_for df_stack tss_base gdt_base =
    let df_stack_top = (df_stack + double_fault_ist_size) % 2 ^ 64 in
    record {
      tss = record new_tss { ist = set new_tss.ist 0 df_stack_top };
      gdt = set (set gdt_template 3 (tss_low tss_base (tss_size - 1))) 4 (tss_high tss_base);
      gdtr = record { limit = 7 * 8 - 1; base = gdt_base };
    }

unfoldable pub set_kernel_stack : ℕ → Tss → Tss
set_kernel_stack stack_top tss = record tss { rsp = set tss.rsp 0 stack_top }

pub record IdtEntry : Type 0 where
  pub offset_low : ℕ
  pub selector : ℕ
  pub ist_and_rsv : ℕ
  pub type_attr : ℕ
  pub offset_mid : ℕ
  pub offset_high : ℕ

abbrev pub interrupt_gate_attr : ℕ
interrupt_gate_attr = 0x8E

abbrev pub trap_gate_attr : ℕ
trap_gate_attr = 0x8F

abbrev missing : IdtEntry
missing = record {
  offset_low = 0;
  selector = 0;
  ist_and_rsv = 0;
  type_attr = 0;
  offset_mid = 0;
  offset_high = 0;
}

abbrev gate : ℕ → ℕ → ℕ → IdtEntry
gate attr handler ist = record {
  offset_low = bit_and handler 0xffff;
  selector = kernel_cs;
  ist_and_rsv = bit_and ist 0x7;
  type_attr = attr;
  offset_mid = bit_and (handler / 2 ^ 16) 0xffff;
  offset_high = handler / 2 ^ 32;
}

unfoldable pub interrupt_gate : ℕ → ℕ → IdtEntry
interrupt_gate handler ist = gate interrupt_gate_attr handler ist

unfoldable pub trap_gate : ℕ → ℕ → IdtEntry
trap_gate handler ist = gate trap_gate_attr handler ist

-- The addresses of the stubs: one for each of the vectors 0 to 31, and those of the interrupts.
pub record Stubs : Type 0 where
  pub exception : ℕ → ℕ
  pub irq_generic : ℕ
  pub apic_timer : ℕ
  pub apic_keyboard : ℕ
  pub apic_spurious : ℕ

-- The gate of an exception: a trap gate for #DB and #BP, and a stack of its own for #DF.
unfoldable exception_gate : Stubs → ℕ → IdtEntry
unfolding interrupt_gate trap_gate
exception_gate stubs v =
    if (v == 1) || (v == 3)
    then trap_gate (stubs.exception v) 0
    else interrupt_gate (stubs.exception v) (if v == 8 then 1 else 0)

-- Gates from a vector on: the number that are left comes first.
unfoldable install : ℕ → ℕ → (ℕ → IdtEntry) → List IdtEntry → List IdtEntry
install zero v gates idt = idt
install (suc left) v gates idt = install left (v + 1) gates (set idt v (gates v))

abbrev pub blank_idt : List IdtEntry
blank_idt = replicate 256 missing

unfoldable pub init_idt : Stubs → List IdtEntry → List IdtEntry
unfolding exception_gate install interrupt_gate
init_idt stubs idt =
    let exceptions = install 32 0 (exception_gate stubs) idt in
    let all = install 224 32 (λ v. interrupt_gate stubs.irq_generic 0) exceptions in
    let timer = set all 0x20 (interrupt_gate stubs.apic_timer 0) in
    let keyboard = set timer 0x21 (interrupt_gate stubs.apic_keyboard 0) in
    set keyboard 0xff (interrupt_gate stubs.apic_spurious 0)
